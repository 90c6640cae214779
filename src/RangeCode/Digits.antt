-- ===== src/RangeCode/Digits.antt =====
-- The padded offset of a segment name is the nine-digit decimal form.
use riverpass.Prelude.{
  ℕ, zero, suc, ◌+◌, ◌-◌, ◌/◌, ◌%◌, ◌^◌, ◌≤◌, ◌<◌, ◌≡◌, refl, ap, inl, inr, true, false, Bool-cases,
  [], ◌∷◌, ◌++◌, append_assoc, arith, ltb, ◌==◌, replicate,
}
use native.Mathlib.Nat.{pow-suc}
use riverpass.Prelude.Int.{pos}
use riverpass.Prelude.Text.{Bytes}
use riverpass.RangeCode.{count_loop, count_digits, dec_digits, itoa}

-- `w` decimal digits, the leading ones zeros.
unfoldable pub fixed : ℕ → ℕ → Bytes
fixed zero n = []
fixed (suc w) n = fixed w (n / 10) ++ (b'0' + n % 10) ∷ []

replicate-snoc : (n a : ℕ) → replicate n a ++ a ∷ [] ≡ a ∷ replicate n a
replicate-snoc zero a = refl
replicate-snoc (suc n) a = ap (◌∷◌ a) (replicate-snoc n a)

fixed-zero : (w : ℕ) → fixed w 0 ≡ replicate w b'0'
unfolding fixed
fixed-zero zero = refl
fixed-zero (suc w) = rw (fixed-zero w) (replicate-snoc w b'0')

-- Nothing is left to count at zero, whatever the fuel.
count_loop-zero : (f r : ℕ) → count_loop f 0 r ≡ r
unfolding count_loop
count_loop-zero zero r = refl
count_loop-zero (suc f) r = refl

-- `r` digits were counted before; `w` are enough for the number that is left.
abbrev Padded : ℕ → ℕ → ℕ → ℕ → Type 0
Padded f n r w =
    (count_loop f n r ≤ r + w)
    × (replicate (w + r - count_loop f n r) b'0' ++ dec_digits f n ≡ fixed w n)

module _ (f n r w : ℕ) (positive : (n == 0) ≡ false) where
  small-Padded : n < 10 → Padded (suc f) n r (suc w)
  unfolding count_loop dec_digits fixed
  small-Padded h =
      let d : n / 10 ≡ 0 = omega arith in
      let m : n % 10 ≡ n = omega arith in
      let k : suc w + r - (r + 1) ≡ w = omega arith in
      let t : ltb n 10 ≡ true = ground arith in
      rw (positive, d, count_loop-zero, t) (omega arith, rw (k, m, fixed-zero))

  large-Padded : (ltb n 10 ≡ false) → Padded f (n / 10) (r + 1) w → Padded (suc f) n r (suc w)
  unfolding count_loop dec_digits fixed
  large-Padded t p =
      let c : ℕ = count_loop f (n / 10) (r + 1) in
      let k : suc w + r - c ≡ w + (r + 1) - c = omega arith in
      rw (positive, t) (omega arith, rw (k, ← append_assoc, p.1))

number-Padded : (w f n r : ℕ) → n < 10 ^ w → n ≤ f → (n == 0) ≡ false → Padded f n r w
number-Padded zero f n r lt fuel ne = absurd (ground arith)
number-Padded (suc w) zero n r lt fuel ne = absurd (ground arith)
number-Padded (suc w) (suc f) n r lt fuel ne = elim (Bool-cases (ltb n 10)) [
  | inl t ↦ small-Padded f n r w ne (ground arith)
  | inr t ↦ large-Padded f n r w ne t (
      number-Padded w f (n / 10) (r + 1) (omega (arith, pow-suc 10 w)) (ground arith)
        (ground arith))
]

-- Below a billion the zeros and the decimal digits of an offset are its nine-digit form.
pub padded-fixed :
    (n : ℕ) → n < 10 ^ 9 → replicate (9 - count_digits (pos n)) b'0' ++ itoa (pos n) ≡ fixed 9 n
unfolding count_digits itoa
padded-fixed zero h = unfold fixed in refl
padded-fixed (suc n) h = (number-Padded 9 (suc n) (suc n) 0 h (omega arith) (ground arith)).1
