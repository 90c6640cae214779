-- ===== src/Lru/Model.antt =====
-- The cache as a list of entries, the most recently used first.
use riverpass.Prelude.{ℕ, ◌<◌, ◌≡◌, ◌≢◌, sym, Option, some, List, [], ◌∷◌, ◌++◌, arith, All}
use riverpass.Prelude.Text.{Bytes}
use riverpass.Prelude.Maps.{Map, load}
use riverpass.Lru.{LruCache, set_at, head, tail, add_to_head, delete_node, move_to_head}
use riverpass.Lru.Ring.{Pairs, NotIn, Distinct, In, remove, unlink-remove, link-cons}
use riverpass.Lru.Lists.{All-remove, Distinct-remove, NotIn-remove, All-In, All-init}

abbrev pub round : List ℕ → List ℕ
round ps = head ∷ (ps ++ tail ∷ [])

-- The nodes of the ring are `ps`, front first.
pub record IsRing {V : Type 0} (c : LruCache V) (ps : List ℕ) : Type 0 where
  pub links : Pairs c.next c.prev (round ps)
  pub distinct : Distinct (round ps)
  pub below : All (λ p. p < c.fresh) (round ps)

-- The dictionary has the nodes of the ring, each under its key, and no other.
pub record IsIndexed {V : Type 0} (c : LruCache V) (ps : List ℕ) : Type 0 where
  pub known : (k : Bytes) (p : ℕ) → load k c.dict ≡ some p → In p ps × (c.key p ≡ k)
  pub stored : All (λ p. load (c.key p) c.dict ≡ some p) ps

abbrev pub entries : {V : Type 0} → (ℕ → Bytes) → (ℕ → Option V) → List ℕ → Map (Option V)
entries key value [] = []
entries key value (p ∷ ps) = (key p, value p) ∷ entries key value ps

pub record Models {V : Type 0} (c : LruCache V) (es : Map (Option V)) : Type 0 where
  pub nodes : List ℕ
  pub ring : IsRing c nodes
  pub index : IsIndexed c nodes
  pub same : entries c.key c.value nodes ≡ es

links-cons :
    (next prev : ℕ → ℕ) (n : ℕ) (ps : List ℕ)
    → Distinct (head ∷ n ∷ (ps ++ tail ∷ []))
    → Pairs next prev (round ps)
    → Pairs
        (set_at (set_at next n (next head)) head n)
        (set_at (set_at prev (set_at next n (next head) head) n) n head)
        (round (n ∷ ps))
links-cons next prev n [] d h = link-cons next prev head n tail [] d h
links-cons next prev n (y ∷ ps) d h = link-cons next prev head n y (ps ++ tail ∷ []) d h

module _ {V : Type 0} where
  -- After `deleteNode` the ring is the list without the node.
  pub delete_node-IsRing :
      (c : LruCache V) (ps : List ℕ) (p : ℕ)
      → IsRing c ps
      → In p ps
      → IsRing (delete_node c p) (remove p ps)
  unfolding delete_node
  delete_node-IsRing c ps p r i =
      let e : set_at c.next (c.prev p) (c.next p) p ≡ c.next p = ground arith in
      record {
        links = rw e (unlink-remove c.next c.prev head p ps tail [] r.distinct r.links i);
        distinct = (
          All-remove p (λ y. head ≢ y) ps (tail ∷ []) r.distinct.0,
          Distinct-remove p ps (tail ∷ []) r.distinct.1,
        );
        below = (r.below.0, All-remove p (λ y. y < c.fresh) ps (tail ∷ []) r.below.1);
      }

  -- After `addToHead` a node from outside stands first.
  pub add_to_head-IsRing :
      (c : LruCache V) (ps : List ℕ) (n : ℕ)
      → IsRing c ps
      → NotIn n (round ps)
      → n < c.fresh
      → IsRing (add_to_head c n) (n ∷ ps)
  unfolding add_to_head
  add_to_head-IsRing c ps n r out lt =
      let d : Distinct (round (n ∷ ps)) =
        (((λ e. ground arith), r.distinct.0), (out.1, r.distinct.1)) in
      record {
        links = links-cons c.next c.prev n ps d r.links;
        distinct = d;
        below = (r.below.0, (lt, r.below.1));
      }

  -- `moveToHead` brings a node of the ring to the front.
  pub move_to_head-IsRing :
      (c : LruCache V) (ps : List ℕ) (p : ℕ)
      → IsRing c ps
      → In p ps
      → IsRing (move_to_head c p) (p ∷ remove p ps)
  unfolding move_to_head
  move_to_head-IsRing c ps p r i =
      add_to_head-IsRing (delete_node c p) (remove p ps) p (delete_node-IsRing c ps p r i)
        (
          (λ e.
              All-In p (λ q. head ≢ q) ps (All-init (λ q. head ≢ q) ps (tail ∷ []) r.distinct.0) i
                (sym e)),
          NotIn-remove p ps (tail ∷ []) i r.distinct.1,
        )
        (unfold delete_node in
          All-In p (λ q. q < c.fresh) ps (All-init (λ q. q < c.fresh) ps (tail ∷ []) r.below.1) i)
