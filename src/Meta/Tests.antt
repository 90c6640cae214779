-- ===== src/Meta/Tests.antt =====
-- Tests of the meta data, and its round trip at a concrete file.
use riverpass.Prelude.{◌≡◌, refl, none, some, [], ◌∷◌, arith, if◌then◌else◌}
use riverpass.Prelude.Int.{pos}
use riverpass.Prelude.Text.{codes, str_eq}
use riverpass.Prelude.Result.{ok}
use riverpass.RangeCode.{RangeCode}
use riverpass.Meta.{FileMeta, MetaJson, db_file_meta2file_meta, file_meta2db_file_meta}
use riverpass.Meta.Split.{split, join}
use riverpass.Meta.Trip.{file_meta_round_trip}

abbrev range_a : RangeCode
range_a = record { start = pos 0; end = pos 4; token = codes "t" }

-- One range code has a text.
abbrev json : MetaJson
json = record {
  range_text = λ rc. codes "r";
  range_read = λ s. if str_eq s (codes "r") then some range_a else none;
  meta_text = λ m. [];
  meta_read = λ s. none;
}

abbrev file_a : FileMeta
file_a = record {
  name = codes "f";
  id = codes "1";
  owner_list = some (codes "x" ∷ codes "y" ∷ []);
  blob_id = [];
  rng_code_list = some (range_a ∷ []);
  etag = [];
}

-- A file without owners is read back with one empty owner.
no_owners : split b',' (join b',' []) ≡ [] ∷ []
unfolding split join
no_owners = refl

file_meta_round_trip_example :
    db_file_meta2file_meta json (file_meta2db_file_meta json file_a) ≡ ok file_a
unfolding str_eq
file_meta_round_trip_example =
    file_meta_round_trip json file_a (codes "x") (codes "y" ∷ []) (range_a ∷ []) refl
      (((λ e. omega arith), tt), (((λ e. omega arith), tt), tt)) refl
      ((refl, refl, ((λ e. omega arith), tt)), tt)
