-- ===== src/Binary/Words.antt =====
-- Little-endian integers and fixed-size arrays, as `encoding/binary` and `copy` use them.
use riverpass.Prelude.{
  ℕ, zero, suc, ◌+◌, ◌-◌, ◌*◌, ◌/◌, ◌%◌, ◌^◌, ◌≤◌, ◌<◌, ◌≡◌, refl, ap, [], ◌∷◌, ◌++◌, arith, ltb,
  if◌then◌else◌, length, take, replicate, length-append, length-take, length-replicate, take_all,
  take-append_length, append-nil,
}
use native.Mathlib.Nat.{pow-suc}
use riverpass.Prelude.Int.{ℤ, pos, negsuc}
use riverpass.Prelude.Text.{Bytes}

-- The lowest `w` bytes of a number, the lowest first.
unfoldable pub le_bytes : ℕ → ℕ → Bytes
le_bytes zero n = []
le_bytes (suc w) n = (n % 256) ∷ le_bytes w (n / 256)

unfoldable pub le_value : Bytes → ℕ
le_value [] = 0
le_value (b ∷ bs) = b + 256 * le_value bs

-- The int64 with the bit pattern `v`.
unfoldable pub to_int64 : ℕ → ℤ
to_int64 v = if ltb v (2 ^ 63) then pos v else negsuc (2 ^ 64 - 1 - v)

-- `copy` into a new array of `n` zero bytes: what does not fit is left out.
unfoldable pub copy_new : ℕ → Bytes → Bytes
copy_new n s = take n s ++ replicate (n - length s) 0

pub length-le_bytes : (w n : ℕ) → length (le_bytes w n) ≡ w
unfolding le_bytes
length-le_bytes zero n = refl
length-le_bytes (suc w) n = ap suc (length-le_bytes w (n / 256))

pub le_value-le_bytes : (w n : ℕ) → n < 256 ^ w → le_value (le_bytes w n) ≡ n
unfolding le_bytes le_value
le_value-le_bytes zero n h = omega arith
le_value-le_bytes (suc w) n h =
    omega (arith, le_value-le_bytes w (n / 256) (omega (arith, pow-suc 256 w)))

pub length-copy_new : (n : ℕ) (s : Bytes) → length (copy_new n s) ≡ n
unfolding copy_new
length-copy_new n s = omega (
  arith,
  length-append (take n s) (replicate (n - length s) 0),
  length-take n s,
  length-replicate (n - length s) (zero),
)

-- What fits stands at the front.
pub take-copy_new : (n k : ℕ) (s : Bytes) → k ≡ length s → k ≤ n → take k (copy_new n s) ≡ s
unfolding copy_new
take-copy_new n k s e h = rw (take_all n s (omega arith)) (take-append_length s _ k e)

pub copy_new_exact : (n : ℕ) (s : Bytes) → n ≡ length s → copy_new n s ≡ s
unfolding copy_new
copy_new_exact n s e =
    let z : n - length s ≡ 0 = omega arith in rw (take_all n s (omega arith), z, append-nil)

pub to_int64_small : (n : ℕ) → n < 2 ^ 63 → to_int64 n ≡ pos n
unfolding to_int64
to_int64_small n h = ground arith

pub copy_new_fits :
    (n : ℕ) (s : Bytes) → length s ≤ n → copy_new n s ≡ s ++ replicate (n - length s) 0
unfolding copy_new
copy_new_fits n s h = rw (take_all n s h)
