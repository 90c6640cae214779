-- ===== src/Segments.antt =====
-- server/holder/src/db_ops/blobs_db.go: the statements on the segments table, as functions on its
-- rows, and the transaction that commits a blob. `runs` says whether the database executes a
-- statement; the transaction rolls back on every error, so that its result is the two tables of the
-- commit or an error. JSON is the parameter of the section; `json.Marshal` of these records does not
-- fail. `log.Fatal` ends the process.
pub mod Sorting
pub mod Commit
mod Tests
use riverpass.Prelude.{
  ℕ, Bool, true, false, ◌&&◌, not, Option, none, some, List, [], ◌∷◌, ◌++◌, if◌then◌else◌,
}
use riverpass.Prelude.Int.{ℤ}
use riverpass.Prelude.Text.{Bytes, str_eq}
use riverpass.Prelude.Result.{
  Result, ok, err, crash, check, db_error, json_error, range_collision, ◌>>=◌, ◌>>◌,
}
use riverpass.RangeCode.{RangeCode, to_db_entry}
use riverpass.RangeCode.Order.{lex_lt}
use riverpass.RangeList.{is_range_collision, insert_range_code_list}
use riverpass.Token.{full2partial_token}
use riverpass.Meta.{FileMeta, MetaJson, db_file_meta2file_meta, file_meta2db_file_meta}
use riverpass.FileTable.{FileRow, row_of, update_of, read_meta, pending, ready}

pub record BlobMeta : Type 0 where
  pub rng_code : RangeCode
  pub owner_id : Bytes

-- `json.Marshal` and `json.Unmarshal` of a segment's meta data.
pub record SegJson : Type 0 where
  pub seg_text : BlobMeta → Bytes
  pub seg_read : Bytes → Option BlobMeta

pub record SegRow : Type 0 where
  pub parent_id : Bytes
  pub child_name : Bytes
  pub seg_meta : Bytes
  pub state : ℕ

-- `rng[0]` and `rng[1]`.
abbrev pub range_of : List ℤ → Result (ℤ × ℤ)
range_of [] = crash
range_of (x ∷ []) = crash
range_of (x ∷ y ∷ rng) = ok (x, y)

abbrev pub range_code : ℤ × ℤ → Bytes → RangeCode
range_code rng token = record { start = rng.0; end = rng.1; token = token }

-- `WHERE parent_id = ?`
unfoldable pub children_of : Bytes → List SegRow → List SegRow
children_of fid [] = []
children_of fid (r ∷ rows) =
    let rest = children_of fid rows in if str_eq r.parent_id fid then r ∷ rest else rest

-- `WHERE parent_id = ? AND child_name = ?`
abbrev pub is_seg : Bytes → Bytes → SegRow → Bool
is_seg fid name r = str_eq r.parent_id fid && str_eq r.child_name name

unfoldable pub seg_of : Bytes → Bytes → List SegRow → Option SegRow
seg_of fid name [] = none
seg_of fid name (r ∷ rows) =
    let rest = seg_of fid name rows in if is_seg fid name r then some r else rest

unfoldable pub update_seg : Bytes → Bytes → (SegRow → SegRow) → List SegRow → List SegRow
update_seg fid name f [] = []
update_seg fid name f (r ∷ rows) =
    let rest = update_seg fid name f rows in if is_seg fid name r then f r ∷ rest else r ∷ rest

-- `ORDER BY child_name`, in the byte order.
unfoldable pub insert_row : SegRow → List SegRow → List SegRow
insert_row r [] = r ∷ []
insert_row r (q ∷ rows) =
    let rest = insert_row r rows in
    if lex_lt q.child_name r.child_name then q ∷ rest else r ∷ q ∷ rows

unfoldable pub order_by_name : List SegRow → List SegRow
unfolding insert_row
order_by_name [] = []
order_by_name (r ∷ rows) = insert_row r (order_by_name rows)

-- `row.Scan` of the first row; without one it fails.
abbrev pub scanned {ℓ} : {A : Type ℓ} → Option A → Result A
scanned none = crash
scanned (some a) = ok a

abbrev pub read_seg : Option BlobMeta → Result BlobMeta
read_seg none = err json_error
read_seg (some bm) = ok bm

-- A list that is nil panics where its elements are asked for.
abbrev pub ranges_of : FileMeta → Result (List RangeCode)
ranges_of fm = scanned fm.rng_code_list

module _ (json : SegJson) where
  unfoldable pub create_blob_seg_in_db :
      Bool → List SegRow → List ℤ → Bytes → Bytes → Result (List SegRow)
  create_blob_seg_in_db runs segs rng file_id partial_token = do
    range ← range_of rng
    let hash_obj = range_code range partial_token
    let b_meta : BlobMeta = record { rng_code = hash_obj; owner_id = file_id }
    check runs db_error
    ok (
        segs
        ++ record {
          parent_id = file_id;
          child_name = to_db_entry hash_obj;
          seg_meta = json.seg_text b_meta;
          state = pending;
        }
          ∷ [])

  -- The loop over the rows.
  unfoldable pub read_segs : List SegRow → Result (List BlobMeta)
  read_segs [] = ok []
  read_segs (r ∷ rows) = do
    bm ← read_seg (json.seg_read r.seg_meta)
    bms ← read_segs rows
    ok (bm ∷ bms)

  unfoldable pub list_blob_segs_by_fid_from_db : Bool → List SegRow → Bytes → Result (List BlobMeta)
  unfolding children_of order_by_name read_segs
  list_blob_segs_by_fid_from_db runs segs fid = do
    check runs db_error
    read_segs (order_by_name (children_of fid segs))

  module _ (meta_json : MetaJson) where
    -- `begins`, `selects`, `finds`, `sets`, `updates` and `commits` are the six statements of the
    -- transaction. The collision is looked for with the range of the row, and the range of the
    -- caller is inserted.
    unfoldable pub commit_blob_in_db :
        (begins selects finds sets updates commits : Bool)
        → List SegRow × List FileRow
        → List ℤ
        → Bytes
        → Bytes
        → Result (List SegRow × List FileRow)
    commit_blob_in_db begins selects finds sets updates commits tables rng fid full_token = do
      check begins db_error
      check selects db_error
      row ← scanned (row_of fid tables.1)
      dbfm ← read_meta (meta_json.meta_read row.file_meta)
      fm ← db_file_meta2file_meta meta_json dbfm
      partial_token ← full2partial_token full_token
      range ← range_of rng
      let old_code = to_db_entry (range_code range partial_token)
      check finds db_error
      seg ← scanned (seg_of fid old_code tables.0)
      bm ← read_seg (json.seg_read seg.seg_meta)
      ranges ← ranges_of fm
      check (not (is_range_collision ranges bm.rng_code)) range_collision
      let rng_code = range_code range full_token
      let new_code = to_db_entry rng_code
      let bm1 = record bm { rng_code = record bm.rng_code { token = full_token } }
      check sets db_error
      let fm1 = record fm { rng_code_list = some (insert_range_code_list ranges rng_code) }
      let encoded = meta_json.meta_text (file_meta2db_file_meta meta_json fm1)
      check updates db_error
      check commits db_error
      ok (
        update_seg fid old_code
            (λ r. record r { state = ready; child_name = new_code; seg_meta = json.seg_text bm1 })
            tables.0,
        update_of fid (λ r. record r { file_meta = encoded }) tables.1,
      )
