-- ===== src/Holder/Startup.antt =====
-- PhyBH.New with ScanLocalFS: the handler is built from the files of the disk and from the triplets
-- that the files table names; what the table does not name is deleted. A file name matches
-- `idx_h_<shard>+_(.+).dat` the way package regexp does: the last digit of the shard may repeat, the
-- point is any character, and the name may stand inside a longer one.
pub mod Sizes
pub mod Opens
mod Tests
use riverpass.Prelude.{
  ℕ, ◌+◌, Bool, true, false, Option, none, some, List, [], ◌∷◌, ◌++◌, ◌==◌, if◌then◌else◌,
}
use riverpass.Prelude.Int.{ℤ, pos, ◌+ℤ◌, ◌-ℤ◌, ltb_ℤ}
use riverpass.Prelude.Text.{Bytes, codes, str_eq}
use riverpass.Prelude.Result.{Result, ok, err, crash, ◌>>=◌}
use riverpass.RangeCode.{itoa}
use riverpass.Token.{behind, line, before_last, or_else}
use riverpass.FileTable.{
  FileRow, is_member, delete_all_pending_file_in_db, list_triple_id_of_all_files,
}
use riverpass.Lru as Lru
use riverpass.Lru.{set_at}
use riverpass.Index.{open_state, closed_state, large_state}
use riverpass.Holder.{Json}
use riverpass.Holder.Triplet.{Config, Triplet, Found, nothing, PhyBh, triplet_new, open_new_tplt}
use riverpass.Holder.Swap.{files_size, Removes, delete_triplet_files_on_disk}

abbrev pub last_of : Bytes → ℕ
last_of [] = 0
last_of (x ∷ []) = x
last_of (x ∷ y ∷ s) = last_of (y ∷ s)

-- All but the last character; none if nothing is left.
abbrev pub group_of : Bytes → Option Bytes
group_of [] = none
group_of (x ∷ []) = none
group_of (x ∷ y ∷ []) = some (x ∷ [])
group_of (x ∷ y ∷ z ∷ s) = elim (group_of (y ∷ z ∷ s)) [ none ↦ none | some t ↦ some (x ∷ t) ]

unfoldable pub skip : ℕ → Bytes → Bytes
skip d [] = []
skip d (x ∷ s) = let rest = skip d s in if x == d then rest else x ∷ s

abbrev pub then_find : {A B : Type 0} → Option A → (A → Option B) → Option B
then_find none f = none
then_find (some a) f = f a

-- A match at the front of the text.
unfoldable pub match_here : Bytes → Bytes → Option Bytes
unfolding skip
match_here shard s = then_find (behind (codes "idx_h_" ++ shard) s) λ r.
    then_find (behind (codes "_") (skip (last_of shard) r))
      λ t. then_find (before_last (codes "dat") (line t)) group_of

unfoldable pub find_tri_id : Bytes → Bytes → Option Bytes
unfolding match_here
find_tri_id shard [] = match_here shard []
find_tri_id shard (x ∷ s) = or_else (match_here shard (x ∷ s)) (find_tri_id shard s)

unfoldable pub scan_names : Bytes → List Bytes → List Bytes
unfolding find_tri_id
scan_names shard [] = []
scan_names shard (name ∷ names) =
    let rest = scan_names shard names in
    elim (find_tri_id shard name) [ none ↦ rest | some tri_id ↦ tri_id ∷ rest ]

-- `disk` holds the files of each triplet of the shard.
unfoldable pub total_size : (Bytes → Found) → List Bytes → ℕ
total_size disk [] = 0
total_size disk (id ∷ ids) = files_size (disk id) + total_size disk ids

unfoldable pub scan_local_fs : ℤ → List Bytes → (Bytes → Found) → List Bytes × ℕ
unfolding scan_names total_size
scan_local_fs shard_id names disk =
    let tri_ids = scan_names (itoa shard_id) names in (tri_ids, total_size disk tri_ids)

abbrev pub left_on : (Bytes → Found) → Bytes → Found → Bytes → Found
left_on disk id left k = if str_eq id k then left else disk k

-- The loop that deletes what the table does not name, and the sizes that it sums up. `removes` says
-- which files of a triplet can be removed.
unfoldable pub delete_orphans :
    (Bytes → Removes) → List Bytes → List Bytes → (Bytes → Found) → (Bytes → Found) × ℕ
delete_orphans removes set_db [] disk = (disk, 0)
delete_orphans removes set_db (id ∷ ids) disk =
    let kept = delete_orphans removes set_db ids disk in
    let deleted = delete_triplet_files_on_disk (removes id) (disk id) in
    let rest = delete_orphans removes set_db ids (left_on disk id deleted.0) in
    if is_member id set_db then kept else (rest.0, deleted.1 + rest.1)

-- `totalSize - orphanSize`, not below 0.
abbrev pub not_negative : ℤ → ℤ
not_negative n = if ltb_ℤ n (pos 0) then pos 0 else n

-- The error of the statement is dropped.
abbrev pub without_pending : Bool → List FileRow → Result (List FileRow)
without_pending runs rows = elim (delete_all_pending_file_in_db runs rows) [
  | ok after ↦ ok after
  | err e ↦ ok rows
  | crash ↦ crash
]

-- An error ends the process.
abbrev pub or_fatal {ℓ} : {A : Type ℓ} → Result A → Result A
or_fatal (ok a) = ok a
or_fatal (err e) = crash
or_fatal crash = crash

module _ (json : Json) (config : Config) where
  -- The cache that the state of the triplet's index stands for, and the count of the open ones.
  abbrev pub place_by_state : PhyBh → Bytes → ℕ → ℕ → ℕ → Result (PhyBh × ℕ)
  place_by_state pbh tri_id p state cnt =
      if state == open_state
      then ok (record pbh { open_tplt = Lru.put pbh.open_tplt tri_id (some p) }, cnt + 1)
      else if state == closed_state
      then ok (record pbh { closed_tplt = Lru.put pbh.closed_tplt tri_id (some p) }, cnt)
      else if state == large_state
      then ok (record pbh { large_obj_tplt = Lru.put pbh.large_obj_tplt tri_id (some p) }, cnt)
      else crash

  -- One round of the loop; the size of the triplet's files is not used.
  unfoldable pub hydrate_one : (Bytes → Found) → PhyBh → Bytes → ℕ → Result (PhyBh × ℕ)
  hydrate_one disk pbh tri_id cnt = do
    (t, size) ← triplet_new json config pbh.shard_id tri_id false (disk tri_id)
    let p = pbh.allocated
    place_by_state (record pbh { heap = set_at pbh.heap p (some t); allocated = p + 1 }) tri_id p
        t.idx_header.state cnt

  unfoldable pub hydrate : (Bytes → Found) → List Bytes → PhyBh → ℕ → Result (PhyBh × ℕ)
  hydrate disk [] pbh cnt = ok (pbh, cnt)
  hydrate disk (tri_id ∷ tri_ids) pbh cnt = do
    (pbh1, cnt1) ← hydrate_one disk pbh tri_id cnt
    hydrate disk tri_ids pbh1 cnt1

  -- A new triplet for taking writes.
  unfoldable pub open_first : Bytes → PhyBh → ℕ → Result PhyBh
  open_first uuid pbh cnt =
      if cnt == 0
      then (open_new_tplt json config pbh false uuid nothing >>= λ opened. ok (record opened.0 {
        total_bytes = opened.0.total_bytes +ℤ pos opened.2;
        open_tplt = Lru.put opened.0.open_tplt uuid (some opened.1);
      }))
      else ok pbh

  abbrev pub empty_pbh : ℤ → ℤ → PhyBh
  empty_pbh shard_id total_bytes = record {
    shard_id = shard_id;
    open_tplt = Lru.new;
    closed_tplt = Lru.new;
    large_obj_tplt = Lru.new;
    heap = λ p. none;
    allocated = 0;
    total_bytes = total_bytes;
  }

  -- `names` are the files of the directory, `uuid` the identifier of a new triplet, without files.
  unfoldable pub pbh_new :
      Bool
      → Bool
      → (Bytes → Removes)
      → ℤ
      → List Bytes
      → (Bytes → Found)
      → List FileRow
      → Bytes
      → Result (PhyBh × List FileRow × (Bytes → Found))
  pbh_new deletes lists removes shard_id names disk rows uuid = do
    let scanned = scan_local_fs shard_id names disk
    rows1 ← without_pending deletes rows
    tri_ids ← or_fatal (list_triple_id_of_all_files lists rows1)
    let left = delete_orphans removes tri_ids scanned.0 disk
    let total_bytes = not_negative (pos scanned.1 -ℤ pos left.1)
    (pbh1, cnt) ← hydrate left.0 tri_ids (empty_pbh shard_id total_bytes) 0
    pbh2 ← open_first uuid pbh1 cnt
    ok (pbh2, rows1, left.0)
