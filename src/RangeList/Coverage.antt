-- ===== src/RangeList/Coverage.antt =====
-- Full coverage means that the ranges have no gap.
use riverpass.Prelude.{
  ◌≡◌, refl, ap, ◌↔◌, ◌⊎◌, inl, inr, true, false, Bool-cases, some, List, [], ◌∷◌, arith, All,
}
use riverpass.Prelude.Int.{ℤ, eqb_ℤ, ltb_ℤ, ◌≤ℤ◌, ◌<ℤ◌}
use riverpass.RangeCode.{RangeCode}
use riverpass.RangeList.{coverage_loop, is_range_full_coverage}
use riverpass.RangeList.Collision.{Covers, IsNonempty}
use riverpass.RangeList.Insert.{IsOrdered}

abbrev pub last_end : RangeCode → List RangeCode → ℤ
last_end h [] = h.end
last_end h (n ∷ hs) = last_end n hs

-- Some range of the list covers the offset.
abbrev pub Covered : List RangeCode → ℤ → Type 0
Covered [] x = ⊥
Covered (h ∷ hs) x = Covers h x ⊎ Covered hs x

coverage-Covered :
    (h : RangeCode) (hs : List RangeCode)
    → coverage_loop h hs ≡ true
    → (x : ℤ) → h.start ≤ℤ x
    → x <ℤ last_end h hs
    → Covered (h ∷ hs) x
unfolding coverage_loop
coverage-Covered h [] e x lo hi = inl (lo, hi)
coverage-Covered h (n ∷ hs) e x lo hi = elim (Bool-cases (eqb_ℤ h.end n.start)) [
  | inr gap ↦ cc (rw gap at e)
  | inl joined ↦ elim (Bool-cases (ltb_ℤ x h.end)) [
    | inl here ↦ inl (lo, ground arith)
    | inr behind ↦ inr (coverage-Covered n hs (rw joined at e) x (ground arith) hi)
  ]
]

start-lt-last :
    (h : RangeCode) (hs : List RangeCode)
    → All IsNonempty (h ∷ hs)
    → IsOrdered (h ∷ hs)
    → h.end ≤ℤ last_end h hs
start-lt-last h [] n o = omega arith
start-lt-last h (k ∷ hs) n o = omega (arith, start-lt-last k hs n.1 o.1)

not-Covered : (hs : List RangeCode) (x : ℤ) → All (λ k. x <ℤ k.start) hs → ¬ Covered hs x
not-Covered [] x a c = c
not-Covered (h ∷ hs) x a (inl c) = omega arith
not-Covered (h ∷ hs) x a (inr c) = not-Covered hs x a.1 c

All-behind :
    (hs : List RangeCode) (x y : ℤ)
    → x <ℤ y
    → All (λ k. y ≤ℤ k.start) hs
    → All (λ k. x <ℤ k.start) hs
All-behind [] x y h a = tt
All-behind (k ∷ hs) x y h a = (omega arith, All-behind hs x y h a.1)

Covered-tail :
    (h : RangeCode) (hs : List RangeCode) (x : ℤ) → h.end ≤ℤ x → Covered (h ∷ hs) x → Covered hs x
Covered-tail h hs x le (inl c) = absurd (omega arith)
Covered-tail h hs x le (inr c) = c

Covered-coverage :
    (h : RangeCode) (hs : List RangeCode)
    → All IsNonempty (h ∷ hs)
    → IsOrdered (h ∷ hs)
    → ((x : ℤ) → h.start ≤ℤ x → x <ℤ last_end h hs → Covered (h ∷ hs) x)
    → coverage_loop h hs ≡ true
unfolding coverage_loop
Covered-coverage h [] m o f = refl
Covered-coverage h (n ∷ hs) m o f = elim (Bool-cases (eqb_ℤ h.end n.start)) [
  | inl joined ↦ rw joined (
      Covered-coverage n hs m.1 o.1
        λ x lo hi. Covered-tail h (n ∷ hs) x (ground arith) (f x (ground arith) hi))
  | inr gap ↦
      let before : h.end <ℤ n.start = ground arith in
      let inside : h.end <ℤ last_end n hs = omega (arith, start-lt-last n hs m.1 o.1) in
      absurd (
        not-Covered (n ∷ hs) h.end (before, All-behind hs h.end n.end (omega arith) o.1.0)
          (Covered-tail h (n ∷ hs) h.end (omega arith) (f h.end (omega arith) inside)))
]

-- A list with a front has an answer.
pub full_coverage-cases :
    (h : RangeCode) (hs : List RangeCode)
    → (is_range_full_coverage (h ∷ hs) ≡ some true) ⊎ (is_range_full_coverage (h ∷ hs) ≡ some false)
unfolding is_range_full_coverage
full_coverage-cases h hs = elim (Bool-cases (coverage_loop h hs)) [
  | inl full ↦ inl (ap some full)
  | inr part ↦ inr (ap some part)
]

-- For an ordered list of ranges that are not empty, `IsRangeFullCoverage` answers true exactly
-- when every offset from the first start to the last end lies in some range.
pub is_range_full_coverage_exact :
    (h : RangeCode) (hs : List RangeCode)
    → All IsNonempty (h ∷ hs)
    → IsOrdered (h ∷ hs)
    → (is_range_full_coverage (h ∷ hs) ≡ some true)
      ↔ ((x : ℤ) → h.start ≤ℤ x → x <ℤ last_end h hs → Covered (h ∷ hs) x)
unfolding is_range_full_coverage
is_range_full_coverage_exact h hs m o =
    (λ e. coverage-Covered h hs (ground arith), λ f. ap some (Covered-coverage h hs m o f))
