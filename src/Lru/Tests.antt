-- ===== src/Lru/Tests.antt =====
-- Tests of the cache, and its theorems at concrete caches.
use riverpass.Prelude.{ℕ, ◌≡◌, refl, Option, none, some, List, [], ◌∷◌}
use riverpass.Prelude.Int.{pos, ◌+ℤ◌, ◌-ℤ◌}
use riverpass.Prelude.Text.{Bytes, codes, str_eq}
use riverpass.Prelude.Maps.{Map, load, delete, store}
use riverpass.Lru.{
  LruCache, new, get, put, delete_from_cache, get_cur_tail_name_for_evict, get_size, add_to_head,
  delete_node, move_to_head,
}
use riverpass.Lru.Model.{Models}
use riverpass.Lru.Refine.{touch, found_value}
use riverpass.Lru.Methods.{
  Call, gets, puts, deletes, run, spec_run, new-Models_nil, get-Models, put-Models,
  delete_from_cache-Models, run-get,
}
use riverpass.Lru.Evict.{last_key, evict-Models}

abbrev name_a : Bytes
name_a = codes "a"

abbrev name_b : Bytes
name_b = codes "b"

abbrev name_c : Bytes
name_c = codes "c"

abbrev one : LruCache ℕ
one = put new name_a (some 7)

abbrev two : LruCache ℕ
two = put one name_b (some 8)

abbrev three : LruCache ℕ
three = put two name_c (some 9)

abbrev history : List (Call ℕ)
history = puts name_a (some 7) ∷ puts name_b (some 8) ∷ gets name_a ∷ deletes name_b ∷ []

abbrev one_entries : Map (Option ℕ)
one_entries = (name_a, some 7) ∷ []

abbrev two_entries : Map (Option ℕ)
two_entries = (name_b, some 8) ∷ one_entries

get_hit : (get two name_a).1 ≡ some 7
unfolding get put new load store add_to_head move_to_head delete_node str_eq delete
get_hit = refl

get_miss : (get two name_c).1 ≡ none
unfolding get put new load store add_to_head move_to_head delete_node str_eq delete
get_miss = refl

one-Models : Models one one_entries
unfolding store delete
one-Models = put-Models new [] name_a (some 7) new-Models_nil

two-Models : Models two two_entries
unfolding store delete str_eq
two-Models = put-Models one one_entries name_b (some 8) one-Models

-- `Get` between the two calls of an eviction of `a` finds the evicted node in the dictionary.
evicted_hit : (get (get_cur_tail_name_for_evict three).0 name_a).1 ≡ some 7
unfolding get_cur_tail_name_for_evict get put new load store add_to_head move_to_head delete_node
    str_eq delete
evicted_hit = refl

-- A `Put` of a name that is there is not counted, and `DeleteFromCache` does not lower the size.
size_after_delete : get_size (delete_from_cache two name_a) ≡ pos 2
unfolding get_size delete_from_cache put new load store add_to_head move_to_head delete_node str_eq
    delete ◌+ℤ◌
size_after_delete = refl

hit_to_front :
    Models (get two name_a).0 (touch name_a two_entries)
    × ((get two name_a).1 ≡ found_value (load name_a two_entries))
hit_to_front = get-Models two two_entries name_a two-Models

put_to_front : Models (put two name_a (some 5)) (store name_a (some 5) two_entries)
put_to_front = put-Models two two_entries name_a (some 5) two-Models

deleted_gone : Models (delete_from_cache two name_a) (delete name_a two_entries)
deleted_gone = delete_from_cache-Models two two_entries name_a two-Models

run-get_example :
    Models (get (run new history) name_a).0 (touch name_a (spec_run [] history))
    × ((get (run new history) name_a).1 ≡ found_value (load name_a (spec_run [] history)))
run-get_example = run-get history name_a

evict-Models_example :
    ((get_cur_tail_name_for_evict two).1 ≡ last_key {V = ℕ} name_b ((name_a, some 7) ∷ []))
    × ((get_cur_tail_name_for_evict two).0.size ≡ two.size -ℤ pos 1)
    × Models
        (delete_from_cache (get_cur_tail_name_for_evict two).0 (get_cur_tail_name_for_evict two).1)
        (delete name_a ((name_b, some 8) ∷ (name_a, some 7) ∷ []))
evict-Models_example = evict-Models two ((name_a, some 7) ∷ []) name_b (some 8) two-Models
