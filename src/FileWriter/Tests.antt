-- ===== src/FileWriter/Tests.antt =====
-- The writer at a concrete file with one committed range.
use riverpass.Prelude.{◌≡◌, refl, none, some, [], ◌∷◌}
use riverpass.Prelude.Int.{pos}
use riverpass.Prelude.Text.{codes}
use riverpass.Prelude.Result.{ok, err, writer_not_ready}
use riverpass.RangeCode.{RangeCode}
use riverpass.Token.{generate_blob_token}
use riverpass.Meta.{FileMeta, DbFileMeta, MetaJson}
use riverpass.Meta.Sample.{sample_json}
use riverpass.FileTable.{FileRow, pending}
use riverpass.Segments.{SegJson, range_code}
use riverpass.Holder.Trip.Sample.{json, config, env, empty, blb, body_large}
use riverpass.FileWriter.{FileWriter, check_uploader, write_file_to_cache}

abbrev meta_json : MetaJson
meta_json = sample_json [] (codes "x") []

abbrev range_t : RangeCode
range_t = record { start = pos 0; end = pos 4; token = codes "t" }

abbrev meta_a : FileMeta
meta_a = record {
  name = [];
  id = [];
  owner_list = some (codes "x" ∷ []);
  blob_id = [];
  rng_code_list = some (range_t ∷ []);
  etag = [];
}

abbrev db_a : DbFileMeta
db_a = record {
  name = [];
  id = [];
  owner_list = codes "x";
  blob_id = [];
  rng_list = 1000 ∷ 1004 ∷ 1116 ∷ [];
  etag = [];
}

abbrev row_a : FileRow
row_a = record {
  fid = codes "a";
  file_meta = b'm' ∷ 1000 ∷ 1004 ∷ 1116 ∷ [];
  owners = [];
  state = pending;
}

abbrev partial : RangeCode
partial = range_code (pos 4, pos 8) (generate_blob_token [] blb)

abbrev seg_json : SegJson
seg_json = record {
  seg_text = λ bm. [];
  seg_read = λ s. some (record { rng_code = partial; owner_id = codes "a" });
}

abbrev writer : FileWriter
writer = record { pbh = some empty; blob_seg_db = some []; file_db = some (row_a ∷ []) }

no_handler :
    write_file_to_cache json config env (record writer { pbh = none }) blb body_large
    ≡ ok (record writer { pbh = none }, err writer_not_ready)
unfolding write_file_to_cache check_uploader
no_handler = refl
