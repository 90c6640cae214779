-- ===== src/Meta.antt =====
-- common/definition/meta_define.go, and the two conversions of
-- server/holder/src/db_ops/files_db.go between a file's meta data and its row in the database.
pub mod Split
pub mod Trip
pub mod Sample
mod Tests
use riverpass.Prelude.{
  ℕ, Bool, true, false, Option, none, some, List, [], ◌∷◌, ◌++◌, ◌==◌, if◌then◌else◌,
}
use riverpass.Prelude.Text.{Bytes}
use riverpass.Prelude.Result.{Result, ok, crash, ◌>>=◌}
use riverpass.RangeCode.{RangeCode}
use riverpass.Meta.Split.{split, join}

-- The two lists are pointers; `none` is nil.
pub record FileMeta : Type 0 where
  pub name : Bytes
  pub id : Bytes
  pub owner_list : Option (List Bytes)
  pub blob_id : Bytes
  pub rng_code_list : Option (List RangeCode)
  pub etag : Bytes

pub record DbFileMeta : Type 0 where
  pub name : Bytes
  pub id : Bytes
  pub owner_list : Bytes
  pub blob_id : Bytes
  pub rng_list : Bytes
  pub etag : Bytes

-- `json.Marshal` and `json.Unmarshal` of a range code and of a row's meta data.
pub record MetaJson : Type 0 where
  pub range_text : RangeCode → Bytes
  pub range_read : Bytes → Option RangeCode
  pub meta_text : DbFileMeta → Bytes
  pub meta_read : Bytes → Option DbFileMeta

-- `log.Fatal` ends the process.
abbrev pub parsed : Option RangeCode → Result RangeCode
parsed none = crash
parsed (some rc) = ok rc

abbrev pub to_range_code : MetaJson → Bytes → Result RangeCode
to_range_code json s = parsed (json.range_read s)

abbrev pub is_empty : Bytes → Bool
is_empty [] = true
is_empty (x ∷ s) = false

-- The loop over the parts; an empty one is skipped.
unfoldable pub to_range_codes : MetaJson → List Bytes → Result (List RangeCode)
to_range_codes json [] = ok []
to_range_codes json ([] ∷ parts) = to_range_codes json parts
to_range_codes json ((x ∷ s) ∷ parts) = do
  rc ← to_range_code json (x ∷ s)
  rest ← to_range_codes json parts
  ok (rc ∷ rest)

unfoldable pub db_file_meta2file_meta : MetaJson → DbFileMeta → Result FileMeta
unfolding to_range_codes
db_file_meta2file_meta json dbfm = do
  rngs ← if is_empty dbfm.rng_list then ok [] else to_range_codes json (split b'|' dbfm.rng_list)
  ok (record {
    name = dbfm.name;
    id = dbfm.id;
    owner_list = some (split b',' dbfm.owner_list);
    blob_id = dbfm.blob_id;
    rng_code_list = some rngs;
    etag = dbfm.etag;
  })

abbrev pub range_texts : MetaJson → List RangeCode → List Bytes
range_texts json [] = []
range_texts json (rc ∷ rcs) = json.range_text rc ∷ range_texts json rcs

abbrev pub joined_owners : Option (List Bytes) → Bytes
joined_owners none = []
joined_owners (some owners) = join b',' owners

abbrev pub joined_ranges : MetaJson → Option (List RangeCode) → Bytes
joined_ranges json none = []
joined_ranges json (some rcs) = join b'|' (range_texts json rcs)

unfoldable pub file_meta2db_file_meta : MetaJson → FileMeta → DbFileMeta
file_meta2db_file_meta json fm = record {
  name = fm.name;
  id = fm.id;
  owner_list = joined_owners fm.owner_list;
  blob_id = fm.blob_id;
  rng_list = joined_ranges json fm.rng_code_list;
  etag = fm.etag;
}
