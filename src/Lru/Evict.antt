-- ===== src/Lru/Evict.antt =====
-- Eviction: GetCurTailNameForEvict, and the DeleteFromCache of the name that follows it.
use mathlib.Core.Path.{fun_ext}
use riverpass.Prelude.{
  ℕ, ◌≡◌, refl, sym, subst, ap, ◌∙◌, inl, inr, Bool-cases, Option, some, List, [], ◌∷◌, ◌++◌, arith,
  ◌==◌,
}
use riverpass.Prelude.Int.{pos, ◌-ℤ◌}
use riverpass.Prelude.Text.{Bytes}
use riverpass.Prelude.Maps.{Map, load, delete}
use riverpass.Lru.{
  LruCache, set_at, tail, delete_node, delete_found, delete_from_cache, get_cur_tail_name_for_evict,
}
use riverpass.Lru.Ring.{Pairs, In}
use riverpass.Lru.Lists.{All-In}
use riverpass.Lru.Model.{Models, entries, round}
use riverpass.Lru.Change.{removed-Models}

-- The key of the last entry, the least recently used one.
abbrev pub last_key : {V : Type 0} → Bytes → Map (Option V) → Bytes
last_key k [] = k
last_key k ((j, v) ∷ es) = last_key j es

-- The node before the last sentinel is the last node.
last_node : ℕ → List ℕ → ℕ
last_node a [] = a
last_node a (x ∷ ps) = last_node x ps

prev-tail :
    (next prev : ℕ → ℕ) (a : ℕ) (ps : List ℕ)
    → Pairs next prev (a ∷ (ps ++ tail ∷ []))
    → prev tail ≡ last_node a ps
unfolding last_node
prev-tail next prev a [] h = h.1
prev-tail next prev a (x ∷ ps) h = prev-tail next prev x ps h.2

last_node-In : (a : ℕ) (ps : List ℕ) → In (last_node a ps) (a ∷ ps)
unfolding last_node
last_node-In a [] = inl refl
last_node-In a (x ∷ ps) = inr (last_node-In x ps)

key-last_node :
    {V : Type 0} (key : ℕ → Bytes) (value : ℕ → Option V) (a : ℕ) (ps : List ℕ)
    → key (last_node a ps) ≡ last_key (key a) (entries key value ps)
unfolding last_node
key-last_node key value a [] = refl
key-last_node key value a (x ∷ ps) = key-last_node key value x ps

set_at_twice : {A : Type 0} (f : ℕ → A) (p : ℕ) (v : A) → set_at (set_at f p v) p v ≡ set_at f p v
set_at_twice f p v =
    fun_ext λ q. elim (Bool-cases (p == q)) [ inl here ↦ rw here refl | inr other ↦ rw other refl ]

module _ {V : Type 0} where
  next_self : (c : LruCache V) (p : ℕ) → set_at c.next (c.prev p) (c.next p) p ≡ c.next p
  next_self c p = ground arith

  prev_self :
      (c : LruCache V) (p : ℕ)
      → set_at c.prev (set_at c.next (c.prev p) (c.next p) p) (c.prev p) p ≡ c.prev p
  prev_self c p = ground arith

  -- Unlinking a node twice is unlinking it once.
  next_twice :
      (c : LruCache V) (p : ℕ) → (delete_node (delete_node c p) p).next ≡ (delete_node c p).next
  unfolding delete_node
  next_twice c p = rw (prev_self c p, next_self c p) (set_at_twice c.next (c.prev p) (c.next p))

  prev_twice :
      (c : LruCache V) (p : ℕ) → (delete_node (delete_node c p) p).prev ≡ (delete_node c p).prev
  unfolding delete_node
  prev_twice c p =
      rw (prev_self c p, next_self c p, next_self c p) (set_at_twice c.prev (c.next p) (c.prev p))

  evicted-Models :
      (c : LruCache V) (es : Map (Option V)) (p : ℕ)
      → (m : Models c es) → load (c.key p) c.dict ≡ some p
      → Models
          (delete_found (record (delete_node c p) { size = c.size -ℤ pos 1 }) (some p))
          (delete (c.key p) es)
  unfolding delete_node
  evicted-Models c es p m e =
      let r = removed-Models c es p m e in
      let ps : List ℕ = r.nodes in
      record {
        nodes = ps;
        ring = record {
          links =
              subst (λ n. Pairs n ((delete_node (delete_node c p) p).prev) (round ps))
                (sym (next_twice c p))
                (subst (λ n. Pairs ((delete_node c p).next) n (round ps)) (sym (prev_twice c p))
                  r.ring.links);
          distinct = r.ring.distinct;
          below = r.ring.below;
        };
        index = record { known = r.index.known; stored = r.index.stored };
        same = r.same;
      }

  evict-nodes :
      (c : LruCache V) (es : Map (Option V)) (k : Bytes) (v : Option V)
      → (ps : List ℕ) → entries c.key c.value ps ≡ (k, v) ∷ es
      → Pairs c.next c.prev (round ps)
      → In (c.prev tail) ps × (c.key (c.prev tail) ≡ last_key k es)
  evict-nodes c es k v [] e h = cc
  evict-nodes c es k v (x ∷ ps) e h =
      let q : c.prev tail ≡ last_node x ps = prev-tail c.next c.prev x ps h.2 in
      let f : last_key (c.key x) (entries c.key c.value ps) ≡ last_key k es = ap (last_key []) e in
      (
        subst (λ y. In y (x ∷ ps)) (sym q) (last_node-In x ps),
        ap c.key q ∙ key-last_node c.key c.value x ps ∙ f,
      )

  -- With an entry in the cache, `GetCurTailNameForEvict` returns the key of the least recently used
  -- one and lowers the size by one; `DeleteFromCache` of that name then leaves exactly the other
  -- entries, in their order.
  pub evict-Models :
      (c : LruCache V) (es : Map (Option V)) (k : Bytes) (v : Option V)
      → Models c ((k, v) ∷ es)
      → ((get_cur_tail_name_for_evict c).1 ≡ last_key k es)
        × ((get_cur_tail_name_for_evict c).0.size ≡ c.size -ℤ pos 1)
        × Models
            (delete_from_cache (get_cur_tail_name_for_evict c).0 (get_cur_tail_name_for_evict c).1)
            (delete (last_key k es) ((k, v) ∷ es))
  unfolding get_cur_tail_name_for_evict delete_from_cache delete_node
  evict-Models c es k v m =
      let p : ℕ = c.prev tail in
      let n = evict-nodes c es k v m.nodes m.same m.ring.links in
      let e : load (c.key p) c.dict ≡ some p =
        All-In p (λ q. load (c.key q) c.dict ≡ some q) m.nodes m.index.stored n.0 in
      (
        n.1,
        refl,
        rw e (
            subst
              (λ j.
                Models (delete_found (record (delete_node c p) { size = c.size -ℤ pos 1 }) (some p))
                  (delete j ((k, v) ∷ es)))
              n.1 (evicted-Models c ((k, v) ∷ es) p m e)),
      )
