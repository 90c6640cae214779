-- ===== src/Lru/Refine.antt =====
-- Each method of the cache does to the entries what a map with a recency order would.
use mathlib.Core.Path.{fun_ext}
use riverpass.Prelude.{
  ℕ, ◌≡◌, refl, sym, subst, ap, ◌∙◌, inl, inr, Bool-cases, Option, none, some, List, [], ◌∷◌, arith,
  ◌==◌, ==_self,
}
use riverpass.Prelude.Text.{Bytes}
use riverpass.Prelude.Maps.{Map, load, delete, store}
use riverpass.Lru.{LruCache, set_at, tail, move_to_head, get}
use riverpass.Lru.Ring.{Distinct, In, remove}
use riverpass.Lru.Lists.{All-kept, Distinct-init, NotIn-kept, In-remove}
use riverpass.Lru.Model.{IsRing, IsIndexed, Models, entries, move_to_head-IsRing}
use riverpass.Lru.Entries.{entries-remove, load-entries, load-entries_none, entries-set_at}

-- A hit moves its entry to the front.
abbrev touch_found : {V : Type 0} → Bytes → Map (Option V) → Option (Option V) → Map (Option V)
touch_found k es none = es
touch_found k es (some v) = store k v es

abbrev pub touch : {V : Type 0} → Bytes → Map (Option V) → Map (Option V)
touch k es = touch_found k es (load k es)

abbrev pub found_value : {V : Type 0} → Option (Option V) → Option V
found_value none = none
found_value (some v) = v

In-moved : (p q : ℕ) (ps : List ℕ) → In q ps → In q (p ∷ remove p ps)
In-moved p q ps i = elim (Bool-cases (q == p)) [
  | inl here ↦ inl (ground arith)
  | inr later ↦ inr (In-remove p q ps i (λ e. ground arith))
]

module _ {V : Type 0} where
  pub Distinct-nodes : (c : LruCache V) (ps : List ℕ) → IsRing c ps → Distinct ps
  Distinct-nodes c ps r = Distinct-init ps (tail ∷ []) r.distinct.1

  move_to_head-IsIndexed :
      (c : LruCache V) (ps : List ℕ) (p : ℕ)
      → IsIndexed c ps
      → load (c.key p) c.dict ≡ some p
      → IsIndexed (move_to_head c p) (p ∷ remove p ps)
  unfolding move_to_head
  move_to_head-IsIndexed c ps p x e = record {
    known = λ k q f. (In-moved p q ps (x.known k q f).0, (x.known k q f).1);
    stored = (e, All-kept (λ q. load (c.key q) c.dict ≡ some q) p ps x.stored);
  }

  front-entries :
      (c : LruCache V) (ps : List ℕ) (p : ℕ) (v : Option V)
      → IsIndexed c ps
      → load (c.key p) c.dict ≡ some p
      → Distinct ps
      → entries c.key (set_at c.value p v) (p ∷ remove p ps)
        ≡ store (c.key p) v (entries c.key c.value ps)
  unfolding store
  front-entries c ps p v x e d =
      let i : In p ps = (x.known (c.key p) p e).0 in
      let t : entries c.key (set_at c.value p v) (remove p ps)
          ≡ delete (c.key p) (entries c.key c.value ps) =
        entries-set_at c.key c.value p v (remove p ps) (NotIn-kept p ps i d)
        ∙ entries-remove c.key c.value c.dict p ps e x.stored d i in
      rw (==_self p, t)

  -- A node of the ring with a new value (the old one, in `Get`) goes to the front.
  pub update-Models :
      (c : LruCache V) (es : Map (Option V)) (p : ℕ) (v : Option V)
      → (m : Models c es) → load (c.key p) c.dict ≡ some p
      → Models (move_to_head (record c { value = set_at c.value p v }) p) (store (c.key p) v es)
  unfolding move_to_head
  update-Models c es p v m e =
      let ps : List ℕ = m.nodes in
      let c' : LruCache V = record c { value = set_at c.value p v } in
      let r : IsRing c' ps = record {
        links = m.ring.links;
        distinct = m.ring.distinct;
        below = m.ring.below;
      } in
      let x : IsIndexed c' ps = record { known = m.index.known; stored = m.index.stored } in
      let i : In p ps = (m.index.known (c.key p) p e).0 in
      let d : Distinct ps = Distinct-nodes c ps m.ring in
      record {
        nodes = p ∷ remove p ps;
        ring = move_to_head-IsRing c' ps p r i;
        index = move_to_head-IsIndexed c' ps p x e;
        same = front-entries c ps p v m.index e d ∙ ap (store (c.key p) v) m.same;
      }

  -- Writing the value that a node has changes nothing.
  set_at_self : (f : ℕ → Option V) (p : ℕ) → set_at f p (f p) ≡ f
  set_at_self f p = fun_ext λ q. elim (Bool-cases (p == q)) [
    | inl here ↦ let e : p ≡ q = ground arith in rw here (ap f e)
    | inr other ↦ rw other
  ]

  pub hit-Models :
      (c : LruCache V) (es : Map (Option V)) (k : Bytes) (p : ℕ)
      → Models c es
      → load k c.dict ≡ some p
      → Models (get c k).0 (touch k es) × ((get c k).1 ≡ found_value (load k es))
  unfolding get
  hit-Models c es k p m e =
      let kk : c.key p ≡ k = (m.index.known k p e).1 in
      let f : load (c.key p) c.dict ≡ some p = ap (λ j. load j c.dict) kk ∙ e in
      let l : load k es ≡ some (c.value p) =
        ap (λ j. load j es) (sym kk)
        ∙ ap (load (c.key p)) (sym m.same)
        ∙ load-entries c.key c.value c.dict p m.nodes f m.index.stored (m.index.known k p e).0 in
      rw (e, l)
        (
          subst (λ j. Models (move_to_head c p) (store j (c.value p) es)) kk
              (subst
                (λ z.
                  Models (move_to_head (record c { value = z }) p) (store (c.key p) (c.value p) es))
                (set_at_self c.value p) (update-Models c es p (c.value p) m f)),
          refl,
        )

  -- What the dictionary does not have, the entries do not have.
  pub missing :
      (c : LruCache V) (es : Map (Option V)) (k : Bytes)
      → Models c es
      → load k c.dict ≡ none
      → load k es ≡ none
  missing c es k m e =
      ap (load k) (sym m.same) ∙ load-entries_none c.key c.value c.dict k m.nodes e m.index.stored
