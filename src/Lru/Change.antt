-- ===== src/Lru/Change.antt =====
-- Adding a new node to the cache, and taking a node away, against the list of entries.
use riverpass.Prelude.{
  ℕ, ◌+◌, ◌<◌, ◌≡◌, ◌≢◌, sym, ap, ◌∙◌, inl, inr, true, false, Bool-cases, Option, none, some, List,
  [], ◌∷◌, arith, All, ◌==◌, ==_self,
}
use riverpass.Prelude.Int.{pos, ◌+ℤ◌}
use riverpass.Prelude.Text.{Bytes, str_eq, str_eq_iff}
use riverpass.Prelude.Maps.{
  Map, load, delete, store, load-delete, load-store, delete-none, load-store_self,
}
use riverpass.Lru.{LruCache, set_at, tail, add_to_head, delete_node, put_found, delete_found}
use riverpass.Lru.Ring.{NotIn, Distinct, In, remove}
use riverpass.Lru.Lists.{All-kept, NotIn-kept, In-remove, All-In, All-init, below-NotIn}
use riverpass.Lru.Model.{
  round, IsRing, IsIndexed, Models, entries, delete_node-IsRing, add_to_head-IsRing,
}
use riverpass.Lru.Entries.{
  some_injective, key-ne, entries-remove, load-entries_none, entries-set_at, entries-set_keys,
}
use riverpass.Lru.Refine.{Distinct-nodes}

-- What was stored stays stored when a key is added that was not there.
stored-new :
    (key : ℕ → Bytes) (dict : Map ℕ) (k : Bytes) (n : ℕ) (ps : List ℕ)
    → load k dict ≡ none
    → NotIn n ps
    → All (λ p. load (key p) dict ≡ some p) ps
    → All (λ p. load (set_at key n k p) (store k n dict) ≡ some p) ps
stored-new key dict k n [] e o s = tt
stored-new key dict k n (x ∷ ps) e o s =
    let f : (n == x) ≡ false = ground arith in
    (
      rw f (elim (Bool-cases (str_eq k (key x))) [
        | inr differ ↦ rw (load-store k (key x) n dict, differ) s.0
        | inl same ↦ cc (sym e ∙ ap (λ j. load j dict) ((str_eq_iff k (key x)).0 same) ∙ s.0)
      ]),
      stored-new key dict k n ps e o.1 s.1,
    )

stored-less :
    {V : Type 0} (key : ℕ → Bytes) (value : ℕ → Option V) (dict : Map ℕ) (p : ℕ)
    → load (key p) dict ≡ some p
    → (l : List ℕ) → All (λ q. load (key q) dict ≡ some q) l
    → NotIn p l
    → All (λ q. load (key q) (delete (key p) dict) ≡ some q) l
stored-less key value dict p e [] s n = tt
stored-less key value dict p e (x ∷ l) s n = (
  rw (load-delete (key p) (key x) dict, key-ne key value dict x p s.0 e (λ q. n.0 (sym q))) s.0,
  stored-less key value dict p e l s.1 n.1,
)

below-suc : (n : ℕ) (l : List ℕ) → All (λ p. p < n) l → All (λ p. p < n + 1) l
below-suc n [] a = tt
below-suc n (x ∷ l) a = (omega arith, below-suc n l a.1)

module _ {V : Type 0} where
  known-new :
      (c : LruCache V) (ps : List ℕ) (k : Bytes)
      → IsIndexed c ps
      → NotIn c.fresh ps
      → (j : Bytes) (p : ℕ) → load j (store k c.fresh c.dict) ≡ some p
      → In p (c.fresh ∷ ps) × (set_at c.key c.fresh k p ≡ j)
  known-new c ps k x o j p e = elim (Bool-cases (str_eq k j)) [
    | inl same ↦
        let q : c.fresh ≡ p = some_injective (rw (load-store k j c.fresh c.dict, same) at e) in
        let f : (c.fresh == p) ≡ true = ground arith in
        (inl (sym q), rw f ((str_eq_iff k j).0 same))
    | inr differ ↦
        let old = x.known j p (rw (load-store k j c.fresh c.dict, differ) at e) in
        let f : (c.fresh == p) ≡ false = ground (arith, All-In p (λ q. c.fresh ≢ q) ps o old.0) in
        (inr old.0, rw f old.1)
  ]

  fresh-NotIn : (c : LruCache V) (ps : List ℕ) → IsRing c ps → NotIn c.fresh (round ps)
  fresh-NotIn c ps r = below-NotIn c.fresh (round ps) r.below

  new-entries :
      (c : LruCache V) (es : Map (Option V)) (k : Bytes) (v : Option V) (m : Models c es)
      → load k c.dict ≡ none
      → NotIn c.fresh m.nodes
      → entries (set_at c.key c.fresh k) (set_at c.value c.fresh v) (c.fresh ∷ m.nodes)
        ≡ store k v es
  unfolding store
  new-entries c es k v m e outside =
      let absent : load k es ≡ none =
        ap (load k) (sym m.same)
        ∙ load-entries_none c.key c.value c.dict k m.nodes e m.index.stored in
      rw (
        ==_self c.fresh,
        entries-set_keys c.key (set_at c.value c.fresh v) c.fresh k m.nodes outside,
        entries-set_at c.key c.value c.fresh v m.nodes outside,
        m.same,
        delete-none k es absent,
      )

  pub new-Models :
      (c : LruCache V) (es : Map (Option V)) (k : Bytes) (v : Option V)
      → Models c es
      → load k c.dict ≡ none
      → Models (put_found c k v none) (store k v es)
  unfolding store add_to_head
  new-Models c es k v m e =
      let ps : List ℕ = m.nodes in
      let out : NotIn c.fresh (round ps) = fresh-NotIn c ps m.ring in
      let outside : NotIn c.fresh ps = All-init (λ q. c.fresh ≢ q) ps (tail ∷ []) out.1 in
      let c1 : LruCache V = record c {
        size = c.size +ℤ pos 1;
        fresh = c.fresh + 1;
        key = set_at c.key c.fresh k;
        value = set_at c.value c.fresh v;
      } in
      let r1 : IsRing c1 ps = record {
        links = m.ring.links;
        distinct = m.ring.distinct;
        below = below-suc c.fresh (round ps) m.ring.below;
      } in
      let r2 : IsRing (add_to_head c1 c.fresh) (c.fresh ∷ ps) =
        add_to_head-IsRing c1 ps c.fresh r1 out (omega arith) in
      record {
        nodes = c.fresh ∷ ps;
        ring = record { links = r2.links; distinct = r2.distinct; below = r2.below };
        index = record {
          known = known-new c ps k m.index outside;
          stored = (
            rw (==_self c.fresh) (load-store_self k c.fresh c.dict),
            stored-new c.key c.dict k c.fresh ps e outside m.index.stored,
          );
        };
        same = new-entries c es k v m e outside;
      }

  known-less :
      (c : LruCache V) (ps : List ℕ) (p : ℕ)
      → IsIndexed c ps
      → (k : Bytes) (q : ℕ) → load k (delete (c.key p) c.dict) ≡ some q
      → In q (remove p ps) × (c.key q ≡ k)
  known-less c ps p x k q e = elim (Bool-cases (str_eq (c.key p) k)) [
    | inl same ↦ cc (rw (load-delete (c.key p) k c.dict, same) at e)
    | inr differ ↦
        let old = x.known k q (rw (load-delete (c.key p) k c.dict, differ) at e) in
        let other : q ≢ p =
          λ z. cc (sym ((str_eq_iff (c.key p) k).1 (sym (ap c.key z) ∙ old.1)) ∙ differ) in
        (In-remove p q ps old.0 other, old.1)
  ]

  pub removed-Models :
      (c : LruCache V) (es : Map (Option V)) (p : ℕ)
      → (m : Models c es) → load (c.key p) c.dict ≡ some p
      → Models (delete_found c (some p)) (delete (c.key p) es)
  unfolding delete_node
  removed-Models c es p m e =
      let ps : List ℕ = m.nodes in
      let i : In p ps = (m.index.known (c.key p) p e).0 in
      let d : Distinct ps = Distinct-nodes c ps m.ring in
      let r : IsRing (delete_node c p) (remove p ps) = delete_node-IsRing c ps p m.ring i in
      record {
        nodes = remove p ps;
        ring = record { links = r.links; distinct = r.distinct; below = r.below };
        index = record {
          known = known-less c ps p m.index;
          stored =
              stored-less c.key c.value c.dict p e (remove p ps)
                (All-kept (λ q. load (c.key q) c.dict ≡ some q) p ps m.index.stored)
                (NotIn-kept p ps i d);
        };
        same =
            entries-remove c.key c.value c.dict p ps e m.index.stored d i
            ∙ ap (delete (c.key p)) m.same;
      }
