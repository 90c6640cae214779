-- ===== src/Holder/Swap.antt =====
-- Eviction, the purge of a triplet, and one round of PhyBH.LoopHotSwap.
pub mod View
pub mod Closing
mod Tests
use riverpass.Prelude.{
  ℕ, ◌+◌, Bool, true, false, Option, none, some, List, [], ◌∷◌, ◌++◌, if◌then◌else◌, length,
}
use riverpass.Prelude.Int.{pos, ◌+ℤ◌, ◌-ℤ◌, ltb_ℤ}
use riverpass.Prelude.Text.{Bytes}
use riverpass.Prelude.Result.{Result, ok, err, crash, no_tail, ◌>>=◌}
use riverpass.Prelude.Maps.{Map}
use riverpass.Lru as Lru
use riverpass.Lru.{LruCache, set_at, get_cur_tail_name_for_evict, delete_from_cache}
use riverpass.Index.{close}
use riverpass.Binary.Store.{contents}
use riverpass.Holder.{Json}
use riverpass.Holder.Triplet.{Config, Triplet, Found, nothing, PhyBh, deref, open_new_tplt}

-- A closed triplet is evicted before a large one.
unfoldable pub get_tail_name_for_evict : PhyBh → PhyBh × Result Bytes
get_tail_name_for_evict pbh =
    if ltb_ℤ (pos 0) pbh.closed_tplt.size
    then (let got = get_cur_tail_name_for_evict pbh.closed_tplt in
        (record pbh { closed_tplt = got.0 }, ok got.1))
    else if ltb_ℤ (pos 0) pbh.large_obj_tplt.size
    then (let got = get_cur_tail_name_for_evict pbh.large_obj_tplt in
        (record pbh { large_obj_tplt = got.0 }, ok got.1))
    else (pbh, err no_tail)

abbrev pub file_size : Option Bytes → ℕ
file_size file = length (contents file)

abbrev pub files_size : Found → ℕ
files_size found = file_size found.bin_file + file_size found.idx_file + file_size found.mf_file

-- Whether `os.Remove` succeeds on each file of a triplet.
pub record Removes : Type 0 where
  pub bin : Bool
  pub idx : Bool
  pub mf : Bool

-- `RemoveFile`: what is left of the file, and the bytes that it counts. A file that is not there, or
-- that is not removed, counts nothing.
abbrev pub remove_file : Bool → Option Bytes → Option Bytes × ℕ
remove_file true file = (none, file_size file)
remove_file false file = (file, 0)

unfoldable pub delete_triplet_files_on_disk : Removes → Found → Found × ℕ
delete_triplet_files_on_disk removes found =
    let bin = remove_file removes.bin found.bin_file in
    let idx = remove_file removes.idx found.idx_file in
    let mf = remove_file removes.mf found.mf_file in
    (record { bin_file = bin.0; idx_file = idx.0; mf_file = mf.0 }, bin.1 + idx.1 + mf.1)

-- `found` is what the disk holds under the names when the triplet is purged; the second result is
-- what is left of it.
unfoldable pub purge_triplet : PhyBh → Bytes → Removes → Found → PhyBh × Found
unfolding delete_triplet_files_on_disk
purge_triplet pbh tplt_id removes found =
    let pbh1 = record pbh { closed_tplt = delete_from_cache pbh.closed_tplt tplt_id } in
    let pbh2 = record pbh1 { large_obj_tplt = delete_from_cache pbh1.large_obj_tplt tplt_id } in
    let deleted = delete_triplet_files_on_disk removes found in
    (record pbh2 { total_bytes = pbh2.total_bytes -ℤ pos deleted.1 }, deleted.0)

module _ (json : Json) (config : Config) where
  abbrev pub is_full : Triplet → Bool
  is_full t = ltb_ℤ config.closing_threshold (pos t.bin_header.cur_off)

  -- A triplet that is full is to be closed, and a new one with a fresh identifier is opened.
  unfoldable pub swap_full :
      Bytes
      → Triplet
      → List Bytes
      → PhyBh
      → Result (List Bytes × PhyBh × List Bytes × List (Bytes × ℕ))
  swap_full k t [] pbh = crash
  swap_full k t (uuid ∷ uuids) pbh = do
    (pbh1, p, size) ← open_new_tplt json config pbh false uuid nothing
    ok (uuids, record pbh1 { total_bytes = pbh1.total_bytes +ℤ pos size }, k ∷ [], (uuid, p) ∷ [])

  -- The callback of `dict.Range`.
  unfoldable pub scan_one :
      Bytes
      → Triplet
      → List Bytes
      → PhyBh
      → Result (List Bytes × PhyBh × List Bytes × List (Bytes × ℕ))
  unfolding swap_full
  scan_one k t uuids pbh = if is_full t then swap_full k t uuids pbh else ok (uuids, pbh, [], [])

  -- The identifiers to close, and the triplets opened in their place with their addresses. `uuids`
  -- are the fresh identifiers, one at least for each triplet that is visited.
  unfoldable pub scan_open :
      List Bytes → Map ℕ → PhyBh → Result (PhyBh × List Bytes × List (Bytes × ℕ))
  unfolding scan_one
  scan_open uuids [] pbh = ok (pbh, [], [])
  scan_open uuids ((k, p) ∷ dict) pbh = do
    t ← deref (pbh.heap p)
    (uuids1, pbh1, ids, opens) ← scan_one k t uuids pbh
    (pbh2, more_ids, more_opens) ← scan_open uuids1 dict pbh1
    ok (pbh2, ids ++ more_ids, opens ++ more_opens)

  unfoldable pub put_opens : List (Bytes × ℕ) → PhyBh → PhyBh
  put_opens [] pbh = pbh
  put_opens ((uuid, p) ∷ new_opens) pbh =
      put_opens new_opens (record pbh { open_tplt = Lru.put pbh.open_tplt uuid (some p) })

  -- `ClosedTplt.Put(id, OpenTplt.Get(id))`, `OpenTplt.Get(id).IdxHeader.Close()`,
  -- `OpenTplt.DeleteFromCache(id)`
  unfoldable pub close_one : Bytes → PhyBh → Result PhyBh
  close_one id pbh = do
    let got = Lru.get pbh.open_tplt id
    let pbh1 = record pbh { open_tplt = got.0; closed_tplt = Lru.put pbh.closed_tplt id got.1 }
    let again = Lru.get pbh1.open_tplt id
    p ← deref again.1
    t ← deref (pbh1.heap p)
    idx ← close t.idx_header
    ok (record pbh1 {
      open_tplt = delete_from_cache again.0 id;
      heap = set_at pbh1.heap p (some (record t { idx_header = idx }));
    })

  unfoldable pub close_all : List Bytes → PhyBh → Result PhyBh
  unfolding close_one
  close_all [] pbh = ok pbh
  close_all (id ∷ ids) pbh = do pbh1 ← close_one id pbh; close_all ids pbh1

  -- The body of the endless loop; `dict` is what `Range` visits, in its order.
  unfoldable pub hot_swap_round : List Bytes → Map ℕ → PhyBh → Result PhyBh
  unfolding scan_open put_opens close_all
  hot_swap_round uuids dict pbh = do
    (pbh1, id_to_close, new_opens) ← scan_open uuids dict pbh
    close_all id_to_close (put_opens new_opens pbh1)
