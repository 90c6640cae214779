-- ===== src/Binary/Files.antt =====
-- A file read at an offset (`os.File.ReadAt`), and slices of concatenated bytes.
use riverpass.Prelude.{
  ℕ, ◌+◌, ◌-◌, ◌≤◌, ◌≡◌, refl, ap, inl, inr, Bool-cases, true, false, [], ◌∷◌, ◌++◌, arith, leb,
  le→leb, leb→le, ◌==◌, if◌then◌else◌, length, take, drop, length-append, take-append_length,
  drop-append_length, zero, suc,
}
use riverpass.Prelude.Text.{Bytes, slice}
use riverpass.Prelude.Result.{Result, ok, crash}

-- `ReadAt` fills its whole buffer or fails; an empty buffer needs nothing of the file. All its
-- callers end the process on a failure.
unfoldable pub read_at : Bytes → ℕ → ℕ → Result Bytes
read_at file off n =
    if n == 0
    then ok []
    else if leb (off + n) (length file)
    then ok (slice file off (off + n))
    else crash

pub slice-mid :
    (p x q : Bytes) (lo hi : ℕ)
    → lo ≡ length p
    → hi ≡ lo + length x
    → slice (p ++ (x ++ q)) lo hi ≡ x
slice-mid p x q lo hi e f =
    rw (drop-append_length p (x ++ q) lo e) (take-append_length x q (hi - lo) (omega arith))

pub read_at-mid :
    (p x q : Bytes) (off n : ℕ)
    → off ≡ length p
    → n ≡ length x
    → read_at (p ++ (x ++ q)) off n ≡ ok x
unfolding read_at
read_at-mid p [] q off n e f = let z : (n == 0) ≡ true = ground arith in rw z
read_at-mid p (b ∷ x) q off n e f =
    let nz : (n == 0) ≡ false = ground arith in
    let fits : leb (off + n) (length (p ++ (b ∷ x ++ q))) ≡ true =
      le→leb _ _ (omega (arith, length-append p (b ∷ x ++ q), length-append (b ∷ x) q)) in
    rw (nz, fits, slice-mid p (b ∷ x) q off (off + n) e (omega arith))

take-append_left : (n : ℕ) (xs ys : Bytes) → n ≤ length xs → take n (xs ++ ys) ≡ take n xs
take-append_left zero xs ys h = refl
take-append_left (suc n) [] ys h = absurd (omega arith)
take-append_left (suc n) (x ∷ xs) ys h = ap (◌∷◌ x) (take-append_left n xs ys (omega arith))

window-append :
    (lo n : ℕ) (xs ys : Bytes)
    → lo + n ≤ length xs
    → take n (drop lo (xs ++ ys)) ≡ take n (drop lo xs)
window-append zero n xs ys h = take-append_left n xs ys (omega arith)
window-append (suc lo) n [] ys h = absurd (omega arith)
window-append (suc lo) n (x ∷ xs) ys h = window-append lo n xs ys (omega arith)

-- What has been read once is read again after the file has grown.
pub read_at-append :
    (xs ys : Bytes) (off n : ℕ) (out : Bytes)
    → read_at xs off n ≡ ok out
    → read_at (xs ++ ys) off n ≡ ok out
unfolding read_at
read_at-append xs ys off n out h = elim (Bool-cases (n == 0)) [
  | inl z ↦ rw z (rw z at h)
  | inr nz ↦ elim (Bool-cases (leb (off + n) (length xs))) [
    | inl fits ↦
        let more : leb (off + n) (length (xs ++ ys)) ≡ true =
          le→leb _ _ (omega (arith, leb→le _ _ fits, length-append xs ys)) in
        let same : slice (xs ++ ys) off (off + n) ≡ slice xs off (off + n) =
          window-append off (off + n - off) xs ys (omega (arith, leb→le _ _ fits)) in
        rw (nz, more, same) (rw (nz, fits) at h)
    | inr short ↦ cc (rw (nz, short) at h)
  ]
]
