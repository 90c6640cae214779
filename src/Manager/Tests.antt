-- ===== src/Manager/Tests.antt =====
-- Tests of the cache manager, and its theorem at a concrete queue.
use riverpass.Prelude.{◌≡◌, refl, none, [], ◌∷◌, ◌++◌, map, ◌^◌, ◌-◌}
use riverpass.Prelude.Int.{pos, negsuc, to_int32}
use riverpass.Prelude.Text.{codes, str_eq}
use riverpass.Prelude.Maps.{load, store, delete}
use riverpass.Lru as Lru
use riverpass.Manager.{CacheManager, enqueue_write_req, fetch_batch, take_fids, or_empty}
use riverpass.Manager.Queue.{IsQueued, occurrences, fetch_batch-IsQueued}

abbrev empty : CacheManager
empty = record {
  write_item_map = [];
  w_queue = [];
  purge_item_map = [];
  p_queue = [];
  rows = [];
  pbh = record {
    shard_id = pos 1;
    open_tplt = Lru.new;
    closed_tplt = Lru.new;
    large_obj_tplt = Lru.new;
    heap = λ p. none;
    allocated = 0;
    total_bytes = pos 0;
  };
}

abbrev one_file : CacheManager
one_file = enqueue_write_req empty (codes "1") (codes "f")

asked_twice : enqueue_write_req one_file (codes "2") (codes "f") ≡ one_file
unfolding enqueue_write_req load store delete str_eq
asked_twice = refl

fetched :
    (fetch_batch (enqueue_write_req one_file (codes "2") (codes "g"))).2
    ≡ codes "1" ∷ codes "2" ∷ []
unfolding fetch_batch take_fids enqueue_write_req load store delete str_eq
fetched = refl

wraps : to_int32 (2 ^ 31) ≡ negsuc (2 ^ 31 - 1)
wraps = refl

empty-IsQueued : IsQueued empty.w_queue empty.write_item_map
unfolding occurrences load
empty-IsQueued j = refl

one_file-IsQueued : IsQueued one_file.w_queue one_file.write_item_map
one_file-IsQueued = (fetch_batch-IsQueued empty empty-IsQueued (codes "1") (codes "f")).0

fetch_batch-IsQueued_example :
    IsQueued
      (enqueue_write_req one_file (codes "2") (codes "g")).w_queue
      (enqueue_write_req one_file (codes "2") (codes "g")).write_item_map
    × IsQueued (fetch_batch one_file).0.w_queue (fetch_batch one_file).0.write_item_map
    × ((fetch_batch one_file).1 ++ (fetch_batch one_file).0.w_queue ≡ one_file.w_queue)
    × ((fetch_batch one_file).2
        ≡ map (λ n. or_empty (load n one_file.write_item_map)) (fetch_batch one_file).1)
fetch_batch-IsQueued_example =
    fetch_batch-IsQueued one_file one_file-IsQueued (codes "2") (codes "g")
