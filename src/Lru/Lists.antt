-- ===== src/Lru/Lists.antt =====
-- Lists of node addresses under `remove`.
use riverpass.Prelude.{
  ℕ, ◌<◌, ◌≡◌, ◌≢◌, sym, subst, inl, inr, false, Bool-cases, List, [], ◌∷◌, ◌++◌, arith, All, ◌==◌,
}
use riverpass.Lru.Ring.{NotIn, Distinct, In, remove}

module _ (p : ℕ) where
  -- What all nodes of a list have, those that stay have.
  pub All-remove : (P : ℕ → Type 0) (ps r : List ℕ) → All P (ps ++ r) → All P (remove p ps ++ r)
  unfolding remove
  All-remove P [] r a = a
  All-remove P (x ∷ ps) r a = elim (Bool-cases (p == x)) [
    | inl here ↦ rw here a.1
    | inr later ↦ rw later (a.0, All-remove P ps r a.1)
  ]

  pub Distinct-remove : (ps r : List ℕ) → Distinct (ps ++ r) → Distinct (remove p ps ++ r)
  unfolding remove
  Distinct-remove [] r d = d
  Distinct-remove (x ∷ ps) r d = elim (Bool-cases (p == x)) [
    | inl here ↦ rw here d.1
    | inr later ↦ rw later (All-remove (λ y. x ≢ y) ps r d.0, Distinct-remove ps r d.1)
  ]

  pub NotIn-remove : (ps r : List ℕ) → In p ps → Distinct (ps ++ r) → NotIn p (remove p ps ++ r)
  unfolding remove
  NotIn-remove [] r i d = absurd i
  NotIn-remove (x ∷ ps) r i d = elim (Bool-cases (p == x)) [
    | inl here ↦
        let e : p ≡ x = ground arith in rw here (subst (λ z. NotIn z (ps ++ r)) (sym e) d.0)
    | inr later ↦
        let j : In p ps = elim i [ inl e ↦ absurd (ground arith) | inr j ↦ j ] in
        rw later ((λ e. ground arith), NotIn-remove ps r j d.1)
  ]

  pub All-In : (P : ℕ → Type 0) (ps : List ℕ) → All P ps → In p ps → P p
  All-In P [] a i = absurd i
  All-In P (x ∷ ps) a (inl e) = subst P (sym e) a.0
  All-In P (x ∷ ps) a (inr i) = All-In P ps a.1 i

  pub In-left : (ps r : List ℕ) → In p ps → In p (ps ++ r)
  In-left [] r i = absurd i
  In-left (x ∷ ps) r (inl e) = inl e
  In-left (x ∷ ps) r (inr i) = inr (In-left ps r i)

  pub In-remove : (q : ℕ) (ps : List ℕ) → In q ps → q ≢ p → In q (remove p ps)
  unfolding remove
  In-remove q [] i n = i
  In-remove q (x ∷ ps) (inl e) n = let f : (p == x) ≡ false = ground arith in rw f (inl e)
  In-remove q (x ∷ ps) (inr i) n = elim (Bool-cases (p == x)) [
    | inl here ↦ rw here i
    | inr later ↦ rw later (inr (In-remove q ps i n))
  ]

pub All-snoc : (P : ℕ → Type 0) (ps : List ℕ) (t : ℕ) → All P ps → P t → All P (ps ++ t ∷ [])
All-snoc P [] t a h = (h, tt)
All-snoc P (x ∷ ps) t a h = (a.0, All-snoc P ps t a.1 h)

pub All-init : (P : ℕ → Type 0) (ps r : List ℕ) → All P (ps ++ r) → All P ps
All-init P [] r a = tt
All-init P (x ∷ ps) r a = (a.0, All-init P ps r a.1)

-- Nodes below the next address are not the next address.
pub below-NotIn : (n : ℕ) (ps : List ℕ) → All (λ p. p < n) ps → NotIn n ps
below-NotIn n [] a = tt
below-NotIn n (x ∷ ps) a = (omega arith, below-NotIn n ps a.1)

pub All-kept : (P : ℕ → Type 0) (p : ℕ) (ps : List ℕ) → All P ps → All P (remove p ps)
unfolding remove
All-kept P p [] a = tt
All-kept P p (x ∷ ps) a = elim (Bool-cases (p == x)) [
  | inl here ↦ rw here a.1
  | inr later ↦ rw later (a.0, All-kept P p ps a.1)
]

pub Distinct-init : (ps r : List ℕ) → Distinct (ps ++ r) → Distinct ps
Distinct-init [] r d = tt
Distinct-init (x ∷ ps) r d = (All-init (λ y. x ≢ y) ps r d.0, Distinct-init ps r d.1)

pub NotIn-kept : (p : ℕ) (ps : List ℕ) → In p ps → Distinct ps → NotIn p (remove p ps)
unfolding remove
NotIn-kept p [] i d = absurd i
NotIn-kept p (x ∷ ps) i d = elim (Bool-cases (p == x)) [
  | inl here ↦ let e : p ≡ x = ground arith in rw here (subst (λ z. NotIn z ps) (sym e) d.0)
  | inr later ↦
      let j : In p ps = elim i [ inl e ↦ absurd (ground arith) | inr j ↦ j ] in
      rw later ((λ e. ground arith), NotIn-kept p ps j d.1)
]
