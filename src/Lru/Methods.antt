-- ===== src/Lru/Methods.antt =====
-- The public methods of the cache against its list of entries.
use riverpass.Prelude.{
  ◌≡◌, refl, subst, ap, ◌∙◌, inl, inr, Option-cases, Option, some, List, [], ◌∷◌, arith,
}
use riverpass.Prelude.Text.{Bytes}
use riverpass.Prelude.Maps.{Map, load, delete, store, delete-none}
use riverpass.Lru.{LruCache, set_at, new, move_to_head, get, put, delete_from_cache, delete_found}
use riverpass.Lru.Model.{Models}
use riverpass.Lru.Refine.{touch, found_value, hit-Models, update-Models, missing}
use riverpass.Lru.Change.{new-Models, removed-Models}

module _ {V : Type 0} where
  -- `New` makes the empty cache.
  pub new-Models_nil : Models (new {V = V}) []
  unfolding new load
  new-Models_nil = record {
    nodes = [];
    ring = record {
      links = (refl, refl, tt);
      distinct = (((λ e. omega arith), tt), (tt, tt));
      below = (omega arith, (omega arith, tt));
    };
    index = record { known = λ k p e. cc; stored = tt };
    same = refl;
  }

  -- On a cache that holds a list of entries, `Get` returns the value of the key, or nil, and moves
  -- the entry of the key to the front.
  pub get-Models :
      (c : LruCache V) (es : Map (Option V)) (k : Bytes)
      → Models c es
      → Models (get c k).0 (touch k es) × ((get c k).1 ≡ found_value (load k es))
  unfolding get
  get-Models c es k m = elim (Option-cases (load k c.dict)) [
    | inr (p, e) ↦ hit-Models c es k p m e
    | inl e ↦ rw (e, missing c es k m e) (m, refl)
  ]

  -- On a cache that holds a list of entries, `Put` makes the pair the front entry, in place of what
  -- the key had.
  pub put-Models :
      (c : LruCache V) (es : Map (Option V)) (k : Bytes) (v : Option V)
      → Models c es
      → Models (put c k v) (store k v es)
  unfolding put
  put-Models c es k v m = elim (Option-cases (load k c.dict)) [
    | inl e ↦ rw e (new-Models c es k v m e)
    | inr (p, e) ↦
        let kk : c.key p ≡ k = (m.index.known k p e).1 in
        rw e (
          subst
            (λ j. Models (move_to_head (record c { value = set_at c.value p v }) p) (store j v es))
            kk (update-Models c es p v m (ap (λ j. load j c.dict) kk ∙ e)))
  ]

  -- On a cache that holds a list of entries, `DeleteFromCache` takes the entry of the key away.
  pub delete_from_cache-Models :
      (c : LruCache V) (es : Map (Option V)) (k : Bytes)
      → Models c es
      → Models (delete_from_cache c k) (delete k es)
  unfolding delete_from_cache
  delete_from_cache-Models c es k m = elim (Option-cases (load k c.dict)) [
    | inl e ↦ rw (e, delete-none k es (missing c es k m e)) m
    | inr (p, e) ↦
        let kk : c.key p ≡ k = (m.index.known k p e).1 in
        rw e (
          subst (λ j. Models (delete_found c (some p)) (delete j es)) kk
            (removed-Models c es p m (ap (λ j. load j c.dict) kk ∙ e)))
  ]

pub data Call (V : Type 0) : Type 0 where
  gets : Bytes → Call V
  puts : Bytes → Option V → Call V
  deletes : Bytes → Call V

module _ {V : Type 0} where
  unfoldable pub step : LruCache V → Call V → LruCache V
  step c (gets k) = (get c k).0
  step c (puts k v) = put c k v
  step c (deletes k) = delete_from_cache c k

  unfoldable pub run : LruCache V → List (Call V) → LruCache V
  unfolding step
  run c [] = c
  run c (o ∷ os) = run (step c o) os

  abbrev spec_step : Map (Option V) → Call V → Map (Option V)
  spec_step es (gets k) = touch k es
  spec_step es (puts k v) = store k v es
  spec_step es (deletes k) = delete k es

  abbrev pub spec_run : Map (Option V) → List (Call V) → Map (Option V)
  spec_run es [] = es
  spec_run es (o ∷ os) = spec_run (spec_step es o) os

  step-Models :
      (c : LruCache V) (es : Map (Option V)) (o : Call V)
      → Models c es
      → Models (step c o) (spec_step es o)
  unfolding step
  step-Models c es (gets k) m = (get-Models c es k m).0
  step-Models c es (puts k v) m = put-Models c es k v m
  step-Models c es (deletes k) m = delete_from_cache-Models c es k m

  run-Models :
      (c : LruCache V) (es : Map (Option V)) (os : List (Call V))
      → Models c es
      → Models (run c os) (spec_run es os)
  unfolding run
  run-Models c es [] m = m
  run-Models c es (o ∷ os) m = run-Models (step c o) (spec_step es o) os (step-Models c es o m)

  -- After any sequence of `Get`, `Put` and `DeleteFromCache` from the empty cache, the next `Get`
  -- returns what a map with the same history holds, and the ring and the dictionary hold the
  -- entries of that map, the most recently used first.
  pub run-get :
      (os : List (Call V)) (k : Bytes)
      → Models (get (run new os) k).0 (touch k (spec_run [] os))
        × ((get (run new os) k).1 ≡ found_value (load k (spec_run [] os)))
  run-get os k = get-Models (run new os) (spec_run [] os) k (run-Models new [] os new-Models_nil)
