-- ===== src/Index/Tests.antt =====
-- Tests of the index, and its theorems at a concrete header.
use riverpass.Prelude.{
  true, ℕ, ◌≡◌, refl, false, Option, none, some, List, [], ◌∷◌, ◌++◌, arith, if◌then◌else◌, length,
  length-append, length-replicate, replicate, map,
}
use riverpass.Prelude.Int.{ℤ, pos}
use riverpass.Prelude.Text.{Bytes, codes, str_eq, str_eq_self}
use riverpass.Prelude.Result.{ok, err, header_closed, entry_deleted}
use riverpass.Prelude.Maps.{load, store, delete}
use riverpass.Log.{written_len}
use riverpass.Log.Layout.{log_file}
use riverpass.Index.{
  IndexEntry, IndexHeader, index_new, index_put, index_get, index_delete, fresh_entry, open_state,
  closed_state, large_state, index_entry_len, refs, close,
}
use riverpass.Index.Closing.{close-index_new}
use riverpass.Index.Reload.{
  IsLogged, Fits, Reads, pad, place, texts, create-IsLogged, put-IsLogged, place-index_new,
}

abbrev name_a : Bytes
name_a = codes "a"

abbrev name_b : Bytes
name_b = codes "b"

-- An entry as its name and its padding.
abbrev marshal : IndexEntry → Bytes
marshal e = e.blob_id ++ e.padding

abbrev entry_a : IndexEntry
entry_a = fresh_entry name_a (pos 0) (pos 5)

abbrev held : IndexHeader
held = record {
  state = open_state;
  shard_id = pos 1;
  triplet_id = codes "t";
  local_name = codes "f";
  file = some (log_file (open_state ∷ 10 ∷ []) (texts marshal (entry_a ∷ [])));
  entries = entry_a ∷ [];
  ref_map = (name_a, entry_a) ∷ [];
  empty = false;
}

-- A reader of the file of `held` only.
abbrev unmarshal : Bytes → Option (List IndexEntry)
unmarshal text =
    if str_eq text (log_file [] (map marshal (pad marshal entry_a ∷ [])))
    then some (pad marshal entry_a ∷ [])
    else none

held-IsLogged : IsLogged marshal open_state held
unfolding refs store delete
held-IsLogged = record { on_disk = refl; emptiness = refl; mapped = refl }

fits : (id : Bytes) → length id ≡ 1 → Fits marshal (fresh_entry id (pos 5) (pos 6))
fits id one = (
  λ n. omega (
    arith,
    length-append id (replicate n b'#'),
    length-append id [],
    length-replicate {A = ℕ} n b'#',
  ),
  omega (arith, length-append id []),
)

-- `Close` writes the file and not the header, so that a later `Put` is not refused.
closed_state_kept :
    close held
    ≡ ok (record held {
      file = some (log_file (closed_state ∷ 10 ∷ []) (texts marshal (entry_a ∷ [])));
    })
unfolding close
closed_state_kept = refl

deleted_twice : index_delete (record held { ref_map = [] }) name_a ≡ err entry_deleted
unfolding index_delete load
deleted_twice = refl

refused :
    index_put marshal (record held { state = closed_state }) name_b (pos 5) (pos 6)
    ≡ err header_closed
unfolding index_put
refused = refl

created_large :
    (ih : IndexHeader) × (index_new marshal unmarshal [] (pos 1) (codes "t") true none ≡ ok (ih, 5))
    × (ih.state ≡ open_state)
    × IsLogged marshal large_state ih
created_large = create-IsLogged marshal unmarshal [] (pos 1) (codes "t") true

put-IsLogged_example :
    (ih' : IndexHeader) × (index_put marshal held name_b (pos 5) (pos 6)
      ≡ ok (ih', written_len index_entry_len held.empty))
    × IsLogged marshal open_state ih'
    × ((j : Bytes)
        → place (index_get ih' j)
          ≡ (if str_eq name_b j then some (pos 5, pos 6) else place (index_get held j)))
put-IsLogged_example =
    put-IsLogged marshal unmarshal held name_b (pos 5) (pos 6) held-IsLogged refl (fits name_b refl)

held-Reads : Reads marshal unmarshal (map (pad marshal) held.entries)
held-Reads = rw (str_eq_self (log_file [] (map marshal (pad marshal entry_a ∷ [])))) refl

place-index_new_example :
    (ih' : IndexHeader) × (size : ℕ) × (index_new marshal unmarshal []
        (pos 1)
        (codes "t")
        false
        held.file
      ≡ ok (ih', size))
    × IsLogged marshal open_state ih'
    × (ih'.state ≡ open_state)
    × ((j : Bytes) → place (index_get ih' j) ≡ place (index_get held j))
place-index_new_example =
    place-index_new marshal unmarshal [] (pos 1) (codes "t") false held held-IsLogged held-Reads

close-index_new_example :
    (closed : IndexHeader) × (after : IndexHeader) × (size : ℕ) × (close held ≡ ok closed)
    × (index_new marshal unmarshal [] (pos 1) (codes "t") false closed.file ≡ ok (after, size))
    × ((blob_id : Bytes) (offset len : ℤ)
        → index_put marshal after blob_id offset len ≡ err header_closed)
    × ((j : Bytes) → place (index_get after j) ≡ place (index_get held j))
close-index_new_example =
    close-index_new marshal unmarshal [] (pos 1) (codes "t") false held held-IsLogged refl
      held-Reads
