-- ===== src/Prelude/Int.antt =====
-- Signed integers over the native numbers, under the library's names (its ℤ stands on the unary
-- ℕ). Go's int32 and int64 values are such integers.
use Prim.Native.Nat.{ℕ, suc, ◌+◌, ◌-◌, ◌%◌, ◌^◌, ◌≤◌, ◌<◌}
use mathlib.Core.Path.{◌≡◌, refl}
use mathlib.Core.Bool.{Bool}
use native.Mathlib.Omega.{arith}
use riverpass.Prelude.Tests.{ltb, leb, ◌==◌, if◌then◌else◌, lt→ltb}

-- `negsuc n` is -(n + 1).
pub data ℤ : Type 0 where
  pos : ℕ → ℤ
  negsuc : ℕ → ℤ

abbrev pub pos_part : ℤ → ℕ
pos_part (pos n) = n
pos_part (negsuc n) = 0

abbrev pub neg_part : ℤ → ℕ
neg_part (pos n) = 0
neg_part (negsuc n) = suc n

abbrev pub sub_ℕ : ℕ → ℕ → ℤ
sub_ℕ a b = if leb b a then pos (a - b) else negsuc (b - a - 1)

infixl 65 ◌+ℤ◌ ◌-ℤ◌
infix 50 ◌≤ℤ◌ ◌<ℤ◌
unfoldable pub ◌+ℤ◌ : ℤ → ℤ → ℤ
a +ℤ b = sub_ℕ (pos_part a + pos_part b) (neg_part a + neg_part b)

unfoldable pub ◌-ℤ◌ : ℤ → ℤ → ℤ
a -ℤ b = sub_ℕ (pos_part a + neg_part b) (neg_part a + pos_part b)

abbrev pub ◌≤ℤ◌ : ℤ → ℤ → Type 0
a ≤ℤ b = pos_part a + neg_part b ≤ pos_part b + neg_part a

abbrev pub ◌<ℤ◌ : ℤ → ℤ → Type 0
a <ℤ b = pos_part a + neg_part b < pos_part b + neg_part a

abbrev pub leb_ℤ : ℤ → ℤ → Bool
leb_ℤ a b = leb (pos_part a + neg_part b) (pos_part b + neg_part a)

abbrev pub ltb_ℤ : ℤ → ℤ → Bool
ltb_ℤ a b = ltb (pos_part a + neg_part b) (pos_part b + neg_part a)

abbrev pub eqb_ℤ : ℤ → ℤ → Bool
eqb_ℤ a b = (pos_part a + neg_part b) == (pos_part b + neg_part a)

-- One lemma for each operation lets `omega` work with the operations shut.
pub +ℤ_parts :
    (a b : ℤ)
    → pos_part (a +ℤ b) + neg_part a + neg_part b ≡ neg_part (a +ℤ b) + pos_part a + pos_part b
unfolding ◌+ℤ◌
+ℤ_parts a b = ground arith

pub -ℤ_parts :
    (a b : ℤ)
    → pos_part (a -ℤ b) + neg_part a + pos_part b ≡ neg_part (a -ℤ b) + pos_part a + neg_part b
unfolding ◌-ℤ◌
-ℤ_parts a b = ground arith

pub eq_of_parts : (a b : ℤ) → pos_part a + neg_part b ≡ pos_part b + neg_part a → a ≡ b
eq_of_parts a b h = ground arith

-- `int32(n)` of a length.
abbrev pub to_int32 : ℕ → ℤ
to_int32 n = let m = n % 2 ^ 32 in if ltb m (2 ^ 31) then pos m else negsuc (2 ^ 32 - m - 1)

-- The int32 that an exact result wraps around to.
unfoldable pub wrap32 : ℤ → ℤ
wrap32 (pos n) = to_int32 n
wrap32 (negsuc n) = to_int32 (2 ^ 32 - 1 - n % 2 ^ 32)

pub to_int32_small : (n : ℕ) → n < 2 ^ 31 → to_int32 n ≡ pos n
to_int32_small n h = let e : n % 2 ^ 32 ≡ n = omega arith in rw e (rw (lt→ltb n (2 ^ 31) h) refl)

-- Sums and differences that fit do not wrap.
pub wrap32-+ℤ : (a b : ℕ) → a + b < 2 ^ 31 → wrap32 (pos a +ℤ pos b) ≡ pos (a + b)
unfolding wrap32 ◌+ℤ◌
wrap32-+ℤ a b h =
    let e : (pos a +ℤ pos b) ≡ pos (a + b) = ground arith in rw e (to_int32_small (a + b) h)

pub wrap32--ℤ : (a b : ℕ) → b ≤ a → a < 2 ^ 31 → wrap32 (pos a -ℤ pos b) ≡ pos (a - b)
unfolding wrap32 ◌-ℤ◌
wrap32--ℤ a b le h =
    let e : (pos a -ℤ pos b) ≡ pos (a - b) = ground arith in
    rw e (to_int32_small (a - b) (omega arith))

pub ruleset int_laws = (arith, +ℤ_parts, -ℤ_parts, eq_of_parts)
