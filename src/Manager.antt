-- ===== src/Manager.antt =====
-- server/holder/src/cache_ops/cache_manager.go: the queue of files to fetch, the queue of triplets
-- to purge, and the handling of one file. Each part under a lock is one step; the bodies of the two
-- endless loops are functions. What the object store answers is the parameter `Web`.
pub mod Queue
pub mod Fetch
pub mod Cached
mod Tests
use riverpass.Prelude.{
  ℕ, ◌+◌, ◌-◌, ◌%◌, ◌^◌, Bool, true, false, Option, none, some, List, [], ◌∷◌, ◌++◌, ltb, leb,
  if◌then◌else◌, length, take, drop,
}
use riverpass.Prelude.Int.{ℤ, pos, negsuc, to_int32}
use riverpass.Prelude.Text.{Bytes, str_eq}
use riverpass.Prelude.Result.{Result, ok, err, crash, Error, cache_full, ◌>>=◌}
use riverpass.Prelude.Maps.{Map, load, store, delete}
use riverpass.Holder.{Json}
use riverpass.Holder.Triplet.{Config, PhyBh, Found, deref}
use riverpass.Holder.Put.{Env}
use riverpass.Holder.Swap.{get_tail_name_for_evict, Removes, purge_triplet}
use riverpass.FileWriter.{FileWriter, write_file_to_cache}
use riverpass.Manager.Fetch.{Web, check_url, download}
use riverpass.Meta.{MetaJson}
use riverpass.FileTable.{
  FileRow, delete_file_with_triple_id_in_db, delete_pending_file_with_fid_in_db,
  commit_cache_file_in_db,
}

-- Times are in milliseconds. `rows` is the files table.
pub record CacheManager : Type 0 where
  pub write_item_map : Map Bytes
  pub w_queue : List Bytes
  pub purge_item_map : Map ℕ
  pub p_queue : List Bytes
  pub rows : List FileRow
  pub pbh : PhyBh

abbrev pub enqueue_new : CacheManager → Bytes → Bytes → Option Bytes → CacheManager
enqueue_new mgr fid file_name (some old) = mgr
enqueue_new mgr fid file_name none = record mgr {
  write_item_map = store file_name fid mgr.write_item_map;
  w_queue = mgr.w_queue ++ file_name ∷ [];
}

unfoldable pub enqueue_write_req : CacheManager → Bytes → Bytes → CacheManager
enqueue_write_req mgr fid file_name =
    enqueue_new mgr fid file_name (load file_name mgr.write_item_map)

abbrev pub num_batch_write : ℕ
num_batch_write = 5

-- A name that is not in the map gives the empty string.
abbrev pub or_empty : Option Bytes → Bytes
or_empty none = []
or_empty (some fid) = fid

-- The loop that takes the names out of the map.
unfoldable pub take_fids : List Bytes → Map Bytes → List Bytes × Map Bytes
take_fids [] items = ([], items)
take_fids (name ∷ names) items =
    let rest = take_fids names (delete name items) in (or_empty (load name items) ∷ rest.0, rest.1)

abbrev pub num_to_fetch : List Bytes → ℕ
num_to_fetch queue = if ltb num_batch_write (length queue) then num_batch_write else length queue

-- `wQueue[:numToFetch]` stays within the queue, since `num_to_fetch` is at most its length, so the
-- slice cannot panic and `take` is that slice. What one round of `loopBatchWrite` takes: the names, and the identifiers in the same order.
unfoldable pub fetch_batch : CacheManager → CacheManager × List Bytes × List Bytes
unfolding take_fids
fetch_batch mgr =
    let n = num_to_fetch mgr.w_queue in
    let names = take n mgr.w_queue in
    let taken = take_fids names mgr.write_item_map in
    (record mgr { w_queue = drop n mgr.w_queue; write_item_map = taken.1 }, names, taken.0)

abbrev pub purge_later : CacheManager → ℕ → Bytes → Result (List FileRow) → CacheManager
purge_later mgr now tplt_id (ok rows) = record mgr {
  rows = rows;
  purge_item_map = store tplt_id now mgr.purge_item_map;
  p_queue = mgr.p_queue ++ tplt_id ∷ [];
}
purge_later mgr now tplt_id (err e) = mgr
purge_later mgr now tplt_id crash = mgr

abbrev pub evict : CacheManager → ℕ → Bool → Result Bytes → CacheManager
evict mgr now runs (ok tplt_id) =
    purge_later mgr now tplt_id (delete_file_with_triple_id_in_db runs mgr.rows tplt_id)
evict mgr now runs (err e) = mgr
evict mgr now runs crash = mgr

unfoldable pub enqueue_deletion_req : ℕ → Bool → CacheManager → CacheManager
enqueue_deletion_req now runs mgr =
    let tail = get_tail_name_for_evict mgr.pbh in
    evict (record mgr { pbh = tail.0 }) now runs tail.1

abbrev pub cache_purge_waiting_ms : ℕ
cache_purge_waiting_ms = 500

-- A name without a time has waited since the year 1.
abbrev pub has_waited : ℕ → Option ℕ → Bool
has_waited now none = true
has_waited now (some since) = if ltb (now - since) cache_purge_waiting_ms then false else true

abbrev pub with_pbh : CacheManager → PhyBh → CacheManager
with_pbh mgr pbh = record mgr { pbh = pbh }

-- A manager and what the disk holds under the names of each triplet.
abbrev pub purge :
    (Bytes → Removes) → CacheManager × (Bytes → Found) → Bytes → CacheManager × (Bytes → Found)
purge removes (mgr, disk) id =
    let purged = purge_triplet mgr.pbh id (removes id) (disk id) in
    (
      record (with_pbh mgr purged.0) { purge_item_map = delete id mgr.purge_item_map },
      λ k. if str_eq id k then purged.1 else disk k,
    )

unfoldable pub purge_all :
    ℕ
    → (Bytes → Removes)
    → List Bytes
    → CacheManager × (Bytes → Found)
    → CacheManager × (Bytes → Found)
purge_all now removes [] state = state
purge_all now removes (id ∷ ids) state =
    purge_all now removes ids
      (if has_waited now (load id state.0.purge_item_map) then purge removes state id else state)

abbrev pub collect :
    ℕ → (Bytes → Removes) → Map ℕ → CacheManager × (Bytes → Found) → CacheManager × (Bytes → Found)
collect now removes [] state = state
collect now removes (item ∷ items) state = purge_all now removes state.0.p_queue state

-- One round of `loopGarbageCollection`, on what the disk holds when it begins; the queue keeps the
-- names.
unfoldable pub garbage_collection_round :
    ℕ → (Bytes → Removes) → CacheManager → (Bytes → Found) → CacheManager × (Bytes → Found)
unfolding purge_all
garbage_collection_round now removes mgr disk = collect now removes mgr.purge_item_map (mgr, disk)

-- The table after a statement whose error is logged and dropped.
abbrev pub rows_after : List FileRow → Result (List FileRow) → Result (List FileRow)
rows_after rows (ok after) = ok after
rows_after rows (err e) = ok rows
rows_after rows crash = crash

abbrev pub is_cache_full : Error → Bool
is_cache_full cache_full = true
is_cache_full e = false

module _ (json : Json) (meta_json : MetaJson) (config : Config) (env : Env) (now : ℕ)
    (runs : Bool) where
  abbrev pub rollback_file_in_db : CacheManager → Bytes → Result CacheManager
  rollback_file_in_db mgr fid = do
    rows ← rows_after mgr.rows (delete_pending_file_with_fid_in_db runs mgr.rows fid)
    ok (record mgr { rows = rows })

  abbrev pub seal_file_at_cache : CacheManager → Bytes → Bytes → ℤ → Result CacheManager
  seal_file_at_cache mgr fid token size = do
    rows ←
        rows_after mgr.rows
          (commit_cache_file_in_db meta_json runs runs runs runs mgr.rows fid token size)
    ok (record mgr { rows = rows })

  -- After `WriteToCache`; a full cache asks for an eviction.
  abbrev pub after_write : CacheManager → Bytes → ℕ → Result Bytes → Result CacheManager
  after_write mgr fid len (ok token) = seal_file_at_cache mgr fid token (to_int32 len)
  after_write mgr fid len (err e) = do
    back ← rollback_file_in_db mgr fid
    ok (if is_cache_full e then enqueue_deletion_req now runs back else back)
  after_write mgr fid len crash = crash

  -- The writer of a cached file has no segments table.
  unfoldable pub write_to_cache :
      CacheManager → Bytes → Bytes → Result (CacheManager × Result Bytes)
  write_to_cache mgr blob_id oss_data = do
    let fw : FileWriter = record { pbh = some mgr.pbh; blob_seg_db = none; file_db = some mgr.rows }
    (fw1, r) ← write_file_to_cache json config env fw blob_id oss_data
    pbh ← deref fw1.pbh
    ok (record mgr { pbh = pbh }, r)

  abbrev pub write_downloaded : CacheManager → Bytes → Bytes → Option Bytes → Result CacheManager
  write_downloaded mgr fid blob_id none = ok mgr
  write_downloaded mgr fid blob_id (some oss_data) = do
    (mgr1, r) ← write_to_cache mgr blob_id oss_data
    after_write mgr1 fid (length oss_data) r

  -- `blob_id` is the random identifier that the writer makes.
  unfoldable pub download_and_write_cache :
      Web → CacheManager → Bytes → Bytes → Bytes → Result CacheManager
  unfolding enqueue_deletion_req write_to_cache
  download_and_write_cache web mgr file_name fid blob_id =
      let found = check_url web config.cache_max file_name in
      if found.0
      then (download web file_name found.1 >>= λ oss_data.
          write_downloaded mgr fid blob_id oss_data)
      else ok mgr
