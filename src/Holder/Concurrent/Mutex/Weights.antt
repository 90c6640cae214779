-- ===== src/Holder/Concurrent/Mutex/Weights.antt =====
-- What the proofs on the calls sum up over their stages.
use riverpass.Prelude.{ℕ, ◌+◌, ◌≡◌, refl, ap, ◌∙◌, Bool, true, false, List, [], ◌∷◌, ◌++◌, arith}
use riverpass.Holder.Concurrent.Mutex.{
  Stage, waits, inside, tested, reserved, holds, added, refused,
}

abbrev pub amount : ℕ → ℕ
amount n = 8 + n + 252 + 202 + 4

unfoldable pub sum : (Stage → ℕ) → List Stage → ℕ
sum w [] = 0
sum w (c ∷ cs) = w c + sum w cs

-- The steps that are left to a call at most.
abbrev pub left : Stage → ℕ
left (waits n) = 6
left (inside n) = 5
left (tested n) = 4
left (reserved n) = 3
left (holds n) = 2
left (added n) = 1
left refused = 1

-- One if the call is between the lock and the unlock.
abbrev pub critical : Stage → ℕ
critical (waits n) = 0
critical (inside n) = 1
critical (tested n) = 1
critical (reserved n) = 1
critical (holds n) = 0
critical (added n) = 0
critical refused = 1

-- The reservation, if it is made and the bytes are not added.
abbrev pub promised : Stage → ℕ
promised (waits n) = 0
promised (inside n) = 0
promised (tested n) = 0
promised (reserved n) = amount n
promised (holds n) = amount n
promised (added n) = 0
promised refused = 0

-- The reservation of a call whose bytes are added.
abbrev pub adding : Stage → ℕ
adding (waits n) = 0
adding (inside n) = 0
adding (tested n) = 0
adding (reserved n) = 0
adding (holds n) = 0
adding (added n) = amount n
adding refused = 0

-- The room that a call has seen and not yet reserved.
abbrev pub claimed : Stage → ℕ
claimed (waits n) = 0
claimed (inside n) = 0
claimed (tested n) = amount n
claimed (reserved n) = 0
claimed (holds n) = 0
claimed (added n) = 0
claimed refused = 0

sum-append : (w : Stage → ℕ) (xs ys : List Stage) → sum w (xs ++ ys) ≡ sum w xs + sum w ys
unfolding sum
sum-append w [] ys = omega arith
sum-append w (x ∷ xs) ys = omega (arith, sum-append w xs ys)

-- What one step does to a sum.
pub sum-before :
    (w : Stage → ℕ) (front back : List Stage) (c : Stage) (calls : List Stage)
    → calls ≡ front ++ c ∷ back
    → sum w calls ≡ w c + (sum w front + sum w back)
unfolding sum
sum-before w front back c calls e =
    let h : sum w calls ≡ sum w front + (w c + sum w back) =
      ap (sum w) e ∙ sum-append w front (c ∷ back) in
    omega arith

pub sum-after :
    (w : Stage → ℕ) (front back next : List Stage)
    → sum w (front ++ (next ++ back)) ≡ sum w next + (sum w front + sum w back)
sum-after w front back next =
    omega (arith, sum-append w front (next ++ back), sum-append w next back)

-- Nobody else has a claim while the others are outside the mutex.
pub unclaimed : (cs : List Stage) → sum critical cs ≡ 0 → sum claimed cs ≡ 0
unfolding sum
unclaimed [] e = refl
unclaimed (waits n ∷ cs) e = omega (arith, unclaimed cs (omega arith))
unclaimed (inside n ∷ cs) e = absurd (omega arith)
unclaimed (tested n ∷ cs) e = absurd (omega arith)
unclaimed (reserved n ∷ cs) e = absurd (omega arith)
unclaimed (holds n ∷ cs) e = omega (arith, unclaimed cs (omega arith))
unclaimed (added n ∷ cs) e = omega (arith, unclaimed cs (omega arith))
unclaimed (refused ∷ cs) e = absurd (omega arith)

abbrev pub held_by : Bool → ℕ
held_by true = 1
held_by false = 0
