-- ===== src/FileTable.antt =====
-- server/holder/src/db_ops/files_db.go: the statements on the files table, as functions on its
-- rows. `runs` says whether the database executes the statement; a failed one changes nothing. The
-- two transactions roll back on every error, so that their result is the table of the commit or an
-- error. JSON is the parameter of the section; `json.Marshal` of these records does not fail.
pub mod Commit
mod Tests
use riverpass.Prelude.{
  ℕ, ◌+◌, ◌-◌, Bool, true, false, ◌&&◌, not, Option, none, some, List, [], ◌∷◌, ◌++◌, ltb, ◌==◌,
  if◌then◌else◌,
}
use riverpass.Prelude.Int.{ℤ, pos, negsuc}
use riverpass.Prelude.Text.{Bytes, str_eq}
use riverpass.Prelude.Result.{
  Result, ok, err, crash, check, db_error, json_error, not_ready, conn_incomplete, conn_exhausted,
  ◌>>=◌, ◌>>◌,
}
use riverpass.RangeCode.{RangeCode}
use riverpass.RangeList.{is_range_full_coverage}
use riverpass.Token.{get_triplet_id_from_token}
use riverpass.Meta.{
  FileMeta, DbFileMeta, MetaJson, db_file_meta2file_meta, file_meta2db_file_meta, is_empty,
}

-- An empty `file_meta` stands for NULL.
pub record FileRow : Type 0 where
  pub fid : Bytes
  pub file_meta : Bytes
  pub owners : Bytes
  pub state : ℕ

abbrev pub pending : ℕ
pending = 0

abbrev pub ready : ℕ
ready = 1

-- `WHERE fid = ?`; `fid` is the primary key.
unfoldable pub row_of : Bytes → List FileRow → Option FileRow
row_of fid [] = none
row_of fid (r ∷ rows) = let rest = row_of fid rows in if str_eq r.fid fid then some r else rest

-- `UPDATE ... WHERE fid = ?`
unfoldable pub update_of : Bytes → (FileRow → FileRow) → List FileRow → List FileRow
update_of fid f [] = []
update_of fid f (r ∷ rows) =
    let rest = update_of fid f rows in if str_eq r.fid fid then f r ∷ rest else r ∷ rest

-- `DELETE ... WHERE` the test holds.
unfoldable pub delete_where : (FileRow → Bool) → List FileRow → List FileRow
delete_where p [] = []
delete_where p (r ∷ rows) = let rest = delete_where p rows in if p r then rest else r ∷ rest

-- The pool: how many connections are left, once it is initialised.
pub record Pool : Type 0 where
  pub initialised : Bool
  pub conn_left : ℤ

unfoldable pub get_conn : Pool → Result Pool
get_conn pool = do
  check pool.initialised conn_incomplete
  elim pool.conn_left [
    | pos n ↦ if ltb 0 n then ok (record pool { conn_left = pos (n - 1) }) else err conn_exhausted
    | negsuc n ↦ err conn_exhausted
  ]

unfoldable pub release_conn : Pool → Pool
release_conn pool = record pool {
  conn_left = elim pool.conn_left [
    | pos n ↦ pos (n + 1)
    | negsuc n ↦ if n == 0 then pos 0 else negsuc (n - 1)
  ];
}

abbrev pub meta_of : Option FileRow → Bytes
meta_of none = []
meta_of (some r) = r.file_meta

abbrev pub read_meta : Option DbFileMeta → Result DbFileMeta
read_meta none = err json_error
read_meta (some dbfm) = ok dbfm

abbrev pub owners_of : Option FileRow → Bytes
owners_of none = []
owners_of (some r) = r.owners

abbrev pub with_state : ℕ → Option FileRow → Option FileRow
with_state state none = none
with_state state (some r) = if r.state == state then some r else none

abbrev pub state_of : Option FileRow → ℤ
state_of none = pos 0
state_of (some r) = pos r.state

module _ (json : MetaJson) where
  unfoldable pub unmarshal_meta : Bytes → Result FileMeta
  unmarshal_meta encoded = do
    dbfm ← read_meta (json.meta_read encoded)
    db_file_meta2file_meta json dbfm

  abbrev pub meta_or_nil : Bytes → Result (Option FileMeta)
  meta_or_nil encoded =
      if is_empty encoded then ok none else (unmarshal_meta encoded >>= λ fm. ok (some fm))

  unfoldable pub list_file_from_db : Bool → List FileRow → Bytes → ℕ → Result (Option FileMeta)
  unfolding unmarshal_meta
  list_file_from_db runs rows fid state = do
    check runs db_error
    meta_or_nil (meta_of (with_state state (row_of fid rows)))

  -- Without a row, or with an empty one, the state is -1.
  unfoldable pub list_file_and_state_from_db :
      Bool → List FileRow → Bytes → Result (Option FileMeta × ℤ)
  unfolding unmarshal_meta
  list_file_and_state_from_db runs rows fid = do
    check runs db_error
    let row = row_of fid rows
    fm ← meta_or_nil (meta_of row)
    ok (fm, if is_empty (meta_of row) then negsuc 0 else state_of row)

  unfoldable pub create_file_with_fid_in_db :
      Bool → List FileRow → Bytes → FileMeta → Result (List FileRow)
  create_file_with_fid_in_db runs rows fid fm = do
    let dbfm = file_meta2db_file_meta json fm
    check runs db_error
    check (elim (row_of fid rows) [ none ↦ true | some r ↦ false ]) db_error
    ok (
        rows
        ++ record {
          fid = fid;
          file_meta = json.meta_text dbfm;
          owners = dbfm.owner_list;
          state = pending;
        }
          ∷ [])

  -- The owners come from the meta data, not from the column.
  unfoldable pub list_file_and_owners_from_db :
      Bool → List FileRow → Bytes → Result (FileMeta × Bytes)
  list_file_and_owners_from_db runs rows fid = do
    check runs db_error
    dbfm ← read_meta (json.meta_read (meta_of (row_of fid rows)))
    fm ← db_file_meta2file_meta json dbfm
    ok (fm, dbfm.owner_list)

  unfoldable pub update_filemeta_and_owner_in_db :
      Bool → List FileRow → Bytes → DbFileMeta → Result (List FileRow)
  update_filemeta_and_owner_in_db runs rows fid dbfm = do
    check runs db_error
    ok (
        update_of fid (λ r. record r { file_meta = json.meta_text dbfm; owners = dbfm.owner_list })
          rows)

  unfoldable pub update_filemeta_and_state_in_db :
      Bool → List FileRow → Bytes → FileMeta → ℕ → Result (List FileRow)
  update_filemeta_and_state_in_db runs rows fid fm state = do
    check runs db_error
    ok (
        update_of fid
          (λ r. record r {
            file_meta = json.meta_text (file_meta2db_file_meta json fm);
            state = state;
          })
          rows)

  -- `IsRangeFullCoverage` follows the front of an empty list.
  abbrev pub covers : Option (Option Bool) → Result Bool
  covers none = crash
  covers (some none) = crash
  covers (some (some b)) = ok b

  abbrev pub coverage : Option (List RangeCode) → Option (Option Bool)
  coverage none = none
  coverage (some rcs) = some (is_range_full_coverage rcs)

  abbrev pub is_ready : DbFileMeta → FileMeta → Result Bool
  is_ready dbfm fm = if is_empty dbfm.rng_list then ok true else covers (coverage fm.rng_code_list)

  -- `begins`, `selects`, `updates` and `commits` are the four statements of the transaction.
  unfoldable pub commit_file_in_db :
      Bool → Bool → Bool → Bool → List FileRow → Bytes → Result (List FileRow)
  commit_file_in_db begins selects updates commits rows fid = do
    check begins db_error
    check selects db_error
    dbfm ← read_meta (json.meta_read (meta_of (row_of fid rows)))
    fm ← db_file_meta2file_meta json dbfm
    full ← is_ready dbfm fm
    check full not_ready
    check updates db_error
    check commits db_error
    ok (update_of fid (λ r. record r { state = ready }) rows)

  -- The one range of a cached file is the whole file.
  abbrev pub whole_range : Bytes → ℤ → RangeCode
  whole_range token size = record { start = pos 0; end = size; token = token }

  unfoldable pub commit_cache_file_in_db :
      Bool → Bool → Bool → Bool → List FileRow → Bytes → Bytes → ℤ → Result (List FileRow)
  unfolding unmarshal_meta
  commit_cache_file_in_db begins selects updates commits rows fid token size = do
    check begins db_error
    check selects db_error
    fm ← unmarshal_meta (meta_of (row_of fid rows))
    tid ← get_triplet_id_from_token token
    let fm1 = record fm { rng_code_list = some (whole_range token size ∷ []) }
    let encoded = json.meta_text (file_meta2db_file_meta json fm1)
    check updates db_error
    check commits db_error
    ok (update_of fid (λ r. record r { state = ready; owners = tid; file_meta = encoded }) rows)

unfoldable pub delete_file_with_triple_id_in_db :
    Bool → List FileRow → Bytes → Result (List FileRow)
delete_file_with_triple_id_in_db runs rows triple_id = do
  check runs db_error
  ok (delete_where (λ r. str_eq r.owners triple_id) rows)

unfoldable pub delete_pending_file_with_fid_in_db :
    Bool → List FileRow → Bytes → Result (List FileRow)
delete_pending_file_with_fid_in_db runs rows fid = do
  check runs db_error
  ok (delete_where (λ r. str_eq r.fid fid && (r.state == pending)) rows)

unfoldable pub delete_all_pending_file_in_db : Bool → List FileRow → Result (List FileRow)
delete_all_pending_file_in_db runs rows = do
  check runs db_error
  ok (delete_where (λ r. r.state == pending) rows)

unfoldable pub is_member : Bytes → List Bytes → Bool
is_member s [] = false
is_member s (x ∷ xs) = let rest = is_member s xs in if str_eq x s then true else rest

-- `SELECT DISTINCT owners`
unfoldable pub distinct_owners : List FileRow → List Bytes
unfolding is_member
distinct_owners [] = []
distinct_owners (r ∷ rows) =
    let rest = distinct_owners rows in if is_member r.owners rest then rest else r.owners ∷ rest

unfoldable pub list_triple_id_of_all_files : Bool → List FileRow → Result (List Bytes)
unfolding distinct_owners
list_triple_id_of_all_files runs rows = do check runs db_error; ok (distinct_owners rows)
