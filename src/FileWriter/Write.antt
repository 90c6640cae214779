-- ===== src/FileWriter/Write.antt =====
-- A blob that is written at an offset is committed there, and its token gives it back.
use mathlib.Core.List.{Perm}
use riverpass.Prelude.{ℕ, ◌+◌, ◌≡◌, true, some, List, [], ◌∷◌}
use riverpass.Prelude.Int.{ℤ, pos}
use riverpass.Prelude.Text.{Bytes}
use riverpass.Prelude.Result.{ok}
use riverpass.RangeCode.{RangeCode}
use riverpass.RangeList.{insert_range_code_list}
use riverpass.RangeList.Insert.{IsOrdered}
use riverpass.Token.{generate_blob_token}
use riverpass.Meta.{FileMeta, DbFileMeta, MetaJson, db_file_meta2file_meta}
use riverpass.FileTable.{FileRow, row_of, unmarshal_meta}
use riverpass.Segments.{SegJson, SegRow, range_code}
use riverpass.Segments.Commit.{inserted}
use riverpass.Holder.{Json}
use riverpass.Holder.Triplet.{Config, PhyBh}
use riverpass.Holder.Put.{Env}
use riverpass.Holder.Get.{get}
use riverpass.FileWriter.{FileWriter, Statements}

abbrev pub all_run : Statements
all_run = record {
  creates = true;
  begins = true;
  selects = true;
  finds = true;
  sets = true;
  updates = true;
  commits = true;
}

-- The file's row holds the new range in order and nothing else new, and its token gives the blob.
pub record IsCommitted (meta_json : MetaJson) (config : Config) (fu after : FileWriter)
    (fid : Bytes) (fm : FileMeta) (hs : List RangeCode) (range : ℤ × ℤ) (bytes : Bytes)
    : Type 0 where
  pub token : Bytes
  pub pbh : PhyBh
  pub later : PhyBh
  pub rows : List FileRow
  pub row : FileRow
  pub has_pbh : after.pbh ≡ some pbh
  pub has_rows : after.file_db ≡ some rows
  pub got : get config pbh token ≡ ok (later, ok bytes)
  pub found : row_of fid rows ≡ some row
  pub listed : unmarshal_meta meta_json row.file_meta ≡ ok (inserted fm hs (range_code range token))
  pub ordered : IsOrdered (insert_range_code_list hs (range_code range token))
  pub added :
      Perm (insert_range_code_list hs (range_code range token)) (range_code range token ∷ hs)

module _ (json : Json) (config : Config) (env : Env) (seg_json : SegJson) (meta_json : MetaJson)
    (fu : FileWriter) (pbh : PhyBh) (segs : List SegRow) (rows : List FileRow)
    (blob_id fid bytes : Bytes) (o n : ℕ) (r : FileRow) (dbfm : DbFileMeta) (fm : FileMeta)
    (hs : List RangeCode) (has_pbh : fu.pbh ≡ some pbh) (has_segs : fu.blob_seg_db ≡ some segs)
    (has_rows : fu.file_db ≡ some rows) (row : row_of fid rows ≡ some r)
    (reads : meta_json.meta_read r.file_meta ≡ some dbfm)
    (decoded : db_file_meta2file_meta meta_json dbfm ≡ ok fm)
    (ranges : fm.rng_code_list ≡ some hs) where
  abbrev partial : RangeCode
  partial = range_code (pos o, pos (o + n)) (generate_blob_token [] blob_id)
