-- ===== src/RangeCode/Order.antt =====
-- The segment table is read `ORDER BY child_name`: names sort as the offsets that they begin with.
use native.Mathlib.Nat.{pow-suc}
use riverpass.Prelude.{
  ℕ, zero, suc, ◌/◌, ◌%◌, ◌^◌, ◌<◌, ◌≡◌, inl, inr, Bool, true, false, ◌&&◌, ◌||◌, Bool-cases, [],
  ◌∷◌, ◌++◌, append_assoc, arith, ltb, ◌==◌,
}
use riverpass.Prelude.Int.{pos}
use riverpass.Prelude.Text.{Bytes, codes}
use riverpass.RangeCode.{RangeCode, to_db_entry}
use riverpass.RangeCode.Digits.{fixed, padded-fixed}

-- The byte order of a binary collation.
unfoldable pub lex_lt : Bytes → Bytes → Bool
lex_lt [] [] = false
lex_lt [] (y ∷ ys) = true
lex_lt (x ∷ xs) [] = false
lex_lt (x ∷ xs) (y ∷ ys) = ltb x y || ((x == y) && lex_lt xs ys)

lex_lt-append : (p s t : Bytes) → lex_lt s t ≡ true → lex_lt (p ++ s) (p ++ t) ≡ true
unfolding lex_lt
lex_lt-append [] s t h = h
lex_lt-append (x ∷ p) s t h = ground (arith, lex_lt-append p s t h)

-- Forms of one width sort as their numbers, whatever follows.
lex_lt-fixed :
    (w a b : ℕ) (s t : Bytes) → a < b → b < 10 ^ w → lex_lt (fixed w a ++ s) (fixed w b ++ t) ≡ true
unfolding fixed
lex_lt-fixed zero a b s t h lt = absurd (omega arith)
lex_lt-fixed (suc w) a b s t h lt =
    rw (append_assoc, append_assoc)
      (elim (Bool-cases (ltb (a / 10) (b / 10))) [
        | inl front ↦
            lex_lt-fixed w (a / 10) (b / 10) _ _ (ground arith) (omega (arith, pow-suc 10 w))
        | inr same ↦
            let e : a / 10 ≡ b / 10 = ground arith in
            let d : a % 10 < b % 10 = omega arith in
            rw e (lex_lt-append (fixed w (b / 10)) _ _ (unfold lex_lt in ground arith))
      ])

module _ (x y : RangeCode) (a b : ℕ) (at_x : x.start ≡ pos a) (at_y : y.start ≡ pos b) where
  -- Of two segments whose offsets are below 1_000_000_000, the one with the smaller offset has
  -- the name that sorts first, whatever the tokens are.
  pub to_db_entry-sorted : a < b → b < 10 ^ 9 → lex_lt (to_db_entry x) (to_db_entry y) ≡ true
  unfolding to_db_entry
  to_db_entry-sorted h lt =
      rw (at_x, at_y, padded-fixed a (omega arith), padded-fixed b lt)
        (lex_lt-append (codes "rg(") _ _ (lex_lt-fixed 9 a b _ _ h lt))
