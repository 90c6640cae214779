-- ===== src/Lru/Ring.antt =====
-- The links of the ring, and what the two link operations do to it.
use riverpass.Prelude.{
  ℕ, ◌≡◌, ◌≢◌, sym, subst, ◌⊎◌, inl, inr, Bool-cases, List, [], ◌∷◌, ◌++◌, arith, All, ◌==◌,
  if◌then◌else◌,
}
use riverpass.Lru.{set_at}

-- Neighbours in the list point to each other.
abbrev pub Pairs : (next prev : ℕ → ℕ) → List ℕ → Type 0
Pairs next prev [] = Unit {0}
Pairs next prev (a ∷ []) = Unit {0}
Pairs next prev (a ∷ b ∷ r) = (next a ≡ b) × (prev b ≡ a) × Pairs next prev (b ∷ r)

abbrev pub NotIn : ℕ → List ℕ → Type 0
NotIn a = All (λ b. a ≢ b)

abbrev pub Distinct : List ℕ → Type 0
Distinct [] = Unit {0}
Distinct (a ∷ l) = NotIn a l × Distinct l

abbrev pub In : ℕ → List ℕ → Type 0
In a [] = ⊥
In a (b ∷ l) = (a ≡ b) ⊎ In a l

unfoldable pub remove : ℕ → List ℕ → List ℕ
remove p [] = []
remove p (x ∷ l) = if p == x then l else x ∷ remove p l

pub In-ne : (a b : ℕ) (l : List ℕ) → In a l → NotIn b l → a ≢ b
In-ne a b [] i n = absurd i
In-ne a b (x ∷ l) (inl e) n = ground arith
In-ne a b (x ∷ l) (inr i) n = In-ne a b l i n.1

NotIn-left : (a : ℕ) (l r : List ℕ) → NotIn a (l ++ r) → NotIn a l
NotIn-left a [] r n = tt
NotIn-left a (x ∷ l) r n = (n.0, NotIn-left a l r n.1)

module _ (next prev : ℕ → ℕ) where
  -- Writes at `p` of `next` and at `q` of `prev` leave the links of a list that has no `p`, and no
  -- `q` behind its first node.
  pub Pairs-frame :
      (p q v w : ℕ) (b : ℕ) (l : List ℕ)
      → NotIn p (b ∷ l)
      → NotIn q l
      → Pairs next prev (b ∷ l)
      → Pairs (set_at next p v) (set_at prev q w) (b ∷ l)
  Pairs-frame p q v w b [] n m h = tt
  Pairs-frame p q v w b (c ∷ l) n m h =
      (ground arith, ground arith, Pairs-frame p q v w c l n.1 m.1 h.2)

  -- A node of the list has its neighbours where the list has them.
  next-In :
      (a p : ℕ) (ps : List ℕ) (b : ℕ) (r : List ℕ)
      → Pairs next prev (a ∷ (ps ++ b ∷ r))
      → In p ps
      → In (next p) (ps ++ b ∷ r)
  next-In a p [] b r h i = absurd i
  next-In a p (x ∷ []) b r h (inl e) = inr (inl (ground arith))
  next-In a p (x ∷ y ∷ ps) b r h (inl e) = inr (inl (ground arith))
  next-In a p (x ∷ ps) b r h (inr i) = inr (next-In x p ps b r h.2 i)

  prev-In :
      (a p : ℕ) (ps : List ℕ) (r : List ℕ)
      → Pairs next prev (a ∷ (ps ++ r))
      → In p ps
      → In (prev p) (a ∷ ps)
  prev-In a p [] r h i = absurd i
  prev-In a p (x ∷ ps) r h (inl e) = inl (ground arith)
  prev-In a p (x ∷ ps) r h (inr i) = inr (prev-In x p ps r h.2 i)

  -- The two writes of `deleteNode`, the node's links read before them.
  abbrev pub Unlinked : ℕ → List ℕ → Type 0
  Unlinked p = Pairs (set_at next (prev p) (next p)) (set_at prev (next p) (prev p))

  unlink-first :
      (a p b : ℕ) (r : List ℕ)
      → Distinct (a ∷ p ∷ b ∷ r)
      → Pairs next prev (a ∷ p ∷ b ∷ r)
      → Unlinked p (a ∷ b ∷ r)
  unlink-first a p b r d h = (
    ground arith,
    ground arith,
    Pairs-frame (prev p) (next p) (next p) (prev p) b r
        (subst (λ z. NotIn z (b ∷ r)) (sym h.1) d.0.1) (subst (λ z. NotIn z r) (sym h.2.0) d.1.1.0)
        h.2.2,
  )

  unlink-head :
      (a p : ℕ) (ps : List ℕ) (b : ℕ) (r : List ℕ)
      → Distinct (a ∷ p ∷ (ps ++ b ∷ r))
      → Pairs next prev (a ∷ p ∷ (ps ++ b ∷ r))
      → Unlinked p (a ∷ (ps ++ b ∷ r))
  unlink-head a p [] b r = unlink-first a p b r
  unlink-head a p (y ∷ ps) b r = unlink-first a p y (ps ++ b ∷ r)

  unlink-step :
      (a p x : ℕ) (l : List ℕ)
      → next a ≡ x
      → prev x ≡ a
      → prev p ≢ a
      → next p ≢ x
      → Unlinked p (x ∷ l)
      → Unlinked p (a ∷ x ∷ l)
  unlink-step a p x l e f m n rest = (ground arith, ground arith, rest)

  pub unlink-remove :
      (a p : ℕ) (ps : List ℕ) (b : ℕ) (r : List ℕ)
      → Distinct (a ∷ (ps ++ b ∷ r))
      → Pairs next prev (a ∷ (ps ++ b ∷ r))
      → In p ps
      → Unlinked p (a ∷ (remove p ps ++ b ∷ r))
  unfolding remove
  unlink-remove a p [] b r d h i = absurd i
  unlink-remove a p (x ∷ ps) b r d h i = elim (Bool-cases (p == x)) [
    | inl here ↦
        let e : p ≡ x = ground arith in
        rw here (subst (λ z. Unlinked z (a ∷ (ps ++ b ∷ r))) (sym e) (unlink-head a x ps b r d h))
    | inr later ↦
        let j : In p ps = elim i [ inl e ↦ absurd (ground arith) | inr j ↦ j ] in
        rw later (
          unlink-step a p x (remove p ps ++ b ∷ r) h.0 h.1
            (In-ne (prev p) a (x ∷ ps) (prev-In x p ps (b ∷ r) h.2 j)
              (NotIn-left a (x ∷ ps) (b ∷ r) d.0))
            (In-ne (next p) x (ps ++ b ∷ r) (next-In x p ps b r h.2 j) d.1.0)
            (unlink-remove x p ps b r d.1 h.2 j))
  ]

-- The four writes of `addToHead` put a new node behind the first one.
pub link-cons :
    (next prev : ℕ → ℕ) (a n b : ℕ) (r : List ℕ)
    → Distinct (a ∷ n ∷ b ∷ r)
    → Pairs next prev (a ∷ b ∷ r)
    → Pairs
        (set_at (set_at next n (next a)) a n)
        (set_at (set_at prev (set_at next n (next a) a) n) n a)
        (a ∷ n ∷ b ∷ r)
link-cons next prev a n b r d h =
    let x : ℕ = set_at next n (next a) a in
    let e : x ≡ b = ground arith in
    (
      ground arith,
      ground arith,
      (
        ground arith,
        ground (arith, e),
        Pairs-frame (set_at next n (next a)) (set_at prev x n) a n n a b r (d.0.1) d.1.0.1 (
            Pairs-frame next prev n x (next a) n b r d.1.0 (subst (λ z. NotIn z r) (sym e) d.1.1.0)
              h.2),
      ),
    )
