-- ===== src/RangeList/Collision.antt =====
-- A collision is a shared offset.
use riverpass.Prelude.{
  ◌≡◌, refl, ◌↔◌, ◌⊎◌, inl, inr, Bool, true, false, ◌||◌, Bool-cases, List, [], ◌∷◌, arith, All,
}
use riverpass.Prelude.Int.{ℤ, leb_ℤ, ◌≤ℤ◌, ◌<ℤ◌}
use riverpass.Prelude.Text.{Bytes}
use riverpass.RangeCode.{RangeCode}
use riverpass.RangeList.{is_range_collision}

-- The offset lies in the range: `End` is exclusive.
abbrev pub Covers : RangeCode → ℤ → Type 0
Covers rc x = (rc.start ≤ℤ x) × (x <ℤ rc.end)

abbrev pub IsNonempty : RangeCode → Type 0
IsNonempty rc = rc.start <ℤ rc.end

-- Two ranges with no offset in common, the first before or behind the second.
abbrev pub Apart : RangeCode → RangeCode → Type 0
Apart h rc = (rc.end ≤ℤ h.start) ⊎ (h.end ≤ℤ rc.start)

module _ (h rc : RangeCode) where
  abbrev passes : Bool
  passes = leb_ℤ rc.end h.start || leb_ℤ h.end rc.start

  passes-Apart : passes ≡ true → Apart h rc
  passes-Apart p = ground arith

  Apart-passes : Apart h rc → passes ≡ true
  Apart-passes a = ground arith

-- The test passes over a list exactly when each of its ranges lies apart.
pub collision→Apart :
    (hs : List RangeCode) (rc : RangeCode)
    → is_range_collision hs rc ≡ false
    → All (λ h. Apart h rc) hs
unfolding is_range_collision
collision→Apart [] rc e = tt
collision→Apart (h ∷ hs) rc e = elim (Bool-cases (passes h rc)) [
  | inl past ↦ (passes-Apart h rc past, collision→Apart hs rc (rw past at e))
  | inr hit ↦ cc (rw hit at e)
]

pub Apart→collision :
    (hs : List RangeCode) (rc : RangeCode)
    → All (λ h. Apart h rc) hs
    → is_range_collision hs rc ≡ false
unfolding is_range_collision
Apart→collision [] rc a = refl
Apart→collision (h ∷ hs) rc a = rw (Apart-passes h rc a.0) (Apart→collision hs rc a.1)

-- Apart is the same as sharing no offset, for ranges that are not empty.
Apart-no-shared : (h rc : RangeCode) (x : ℤ) → Apart h rc → Covers rc x → ¬ Covers h x
Apart-no-shared h rc x a c d = omega arith

no-shared-Apart :
    (h rc : RangeCode)
    → IsNonempty h
    → IsNonempty rc
    → (Covers rc h.start → ¬ Covers h h.start)
    → (Covers rc rc.start → ¬ Covers h rc.start)
    → Apart h rc
no-shared-Apart h rc n m at_h at_rc = ground arith

All-no-shared :
    (hs : List RangeCode) (rc : RangeCode) (x : ℤ)
    → All (λ h. Apart h rc) hs
    → Covers rc x
    → All (λ h. ¬ Covers h x) hs
All-no-shared [] rc x a c = tt
All-no-shared (h ∷ hs) rc x a c = (Apart-no-shared h rc x a.0 c, All-no-shared hs rc x a.1 c)

no-shared-All :
    (hs : List RangeCode) (rc : RangeCode)
    → All IsNonempty hs
    → IsNonempty rc
    → ((x : ℤ) → Covers rc x → All (λ h. ¬ Covers h x) hs)
    → All (λ h. Apart h rc) hs
no-shared-All [] rc n m f = tt
no-shared-All (h ∷ hs) rc n m f = (
  no-shared-Apart h rc n.0 m (λ c. (f h.start c).0) (λ c. (f rc.start c).0),
  no-shared-All hs rc n.1 m (λ x c. (f x c).1),
)

-- For ranges that are not empty, `IsRangeCollision` answers false exactly when no offset of the
-- new range lies in any range of the list.
pub collision_exact :
    (hs : List RangeCode) (rc : RangeCode)
    → All IsNonempty hs
    → IsNonempty rc
    → (is_range_collision hs rc ≡ false) ↔ ((x : ℤ) → Covers rc x → All (λ h. ¬ Covers h x) hs)
collision_exact hs rc n m = (
  λ e x. All-no-shared hs rc x (collision→Apart hs rc e),
  λ f. Apart→collision hs rc (no-shared-All hs rc n m f),
)

-- A collision is a matter of the two offsets.
pub is_range_collision-token :
    (hs : List RangeCode) (rc : RangeCode) (token : Bytes)
    → is_range_collision hs (record rc { token = token }) ≡ is_range_collision hs rc
unfolding is_range_collision
is_range_collision-token [] rc token = refl
is_range_collision-token (h ∷ hs) rc token = rw (is_range_collision-token hs rc token) refl
