-- ===== src/RangeCode.antt =====
-- common/range_code/range_code.go: the range of a file that one blob holds, and the name under
-- which the segment table sorts it.
pub mod Digits
pub mod Order
mod Tests
use riverpass.Prelude.{
  ℕ, zero, suc, ◌+◌, ◌-◌, ◌/◌, ◌%◌, List, [], ◌∷◌, ◌++◌, ltb, ◌==◌, if◌then◌else◌, replicate,
}
use riverpass.Prelude.Int.{ℤ, pos, negsuc}
use riverpass.Prelude.Text.{Bytes, codes}

-- `Start` and `End` are int32 values, `End` is exclusive.
pub record RangeCode : Type 0 where
  pub start : ℤ
  pub end : ℤ
  pub token : Bytes

-- The loop `for num > 0 { num /= 10; ret += 1 }`. The fuel is at least `num`.
count_loop : ℕ → ℕ → ℕ → ℕ
count_loop zero num ret = ret
count_loop (suc fuel) num ret =
    let rest = count_loop fuel (num / 10) (ret + 1) in if num == 0 then ret else rest

-- A negative number never enters the loop.
pub count_digits : ℤ → ℕ
unfolding count_loop
count_digits (pos zero) = 1
count_digits (pos (suc n)) = count_loop (suc n) (suc n) 0
count_digits (negsuc n) = 0

-- `strconv.Itoa`, first of a natural number: its decimal digits, with `n` fuel.
dec_digits : ℕ → ℕ → Bytes
dec_digits zero n = (b'0' + n % 10) ∷ []
dec_digits (suc fuel) n =
    let front = dec_digits fuel (n / 10) in
    if ltb n 10 then (b'0' + n) ∷ [] else front ++ (b'0' + n % 10) ∷ []

unfoldable pub itoa : ℤ → Bytes
unfolding dec_digits
itoa (pos n) = dec_digits n n
itoa (negsuc n) = b'-' ∷ dec_digits (suc n) (suc n)

-- `rg(<start, padded to nine digits>)_tk(<token>)`
pub to_db_entry : RangeCode → Bytes
unfolding count_digits itoa
to_db_entry rc =
    codes "rg("
    ++ ((replicate (9 - count_digits rc.start) b'0' ++ itoa rc.start)
        ++ (codes ")_tk(" ++ (rc.token ++ codes ")")))
