-- ===== src/Holder/Concurrent/Mutex.antt =====
-- Calls of PhyBH.Put that run at once, with the mutex: the lock, the test, the reservation, the unlock
-- and the later atomic additions are a step each, so that the additions of other calls can come
-- between the test and the reservation.
pub mod Weights
pub mod Turns
pub mod Live
mod Tests
use riverpass.Prelude.{ℕ, suc, ◌+◌, ◌≤◌, ◌≡◌, Bool, true, false, List, [], ◌∷◌, ◌++◌}
use riverpass.Prelude.Int.{ℤ, pos, ◌+ℤ◌, ◌-ℤ◌, ltb_ℤ}
use riverpass.Holder.Put.{max_alloc_size}

-- Where a call is, with its payload size: before the lock, behind it, behind the test, behind the
-- reservation, behind the unlock, behind the addition of its bytes; or refused and before the unlock.
pub data Stage : Type 0 where
  waits : ℕ → Stage
  inside : ℕ → Stage
  tested : ℕ → Stage
  reserved : ℕ → Stage
  holds : ℕ → Stage
  added : ℕ → Stage
  refused : Stage

-- The step of one call, from `totalBytes` and whether the mutex is held to both after it; the list
-- has the call's next stage, or is empty when it returns.
pub data Turn (cache_max : ℤ) : ℤ → Bool → Stage → ℤ → Bool → List Stage → Type 0 where
  locks : {total : ℤ} (n : ℕ) → Turn cache_max total false (waits n) total true (inside n ∷ [])
  passes :
      {total : ℤ} {locked : Bool} (n : ℕ)
      → ltb_ℤ (cache_max -ℤ total) (max_alloc_size n) ≡ false
      → Turn cache_max total locked (inside n) total locked (tested n ∷ [])
  refuses :
      {total : ℤ} {locked : Bool} (n : ℕ)
      → ltb_ℤ (cache_max -ℤ total) (max_alloc_size n) ≡ true
      → Turn cache_max total locked (inside n) total locked (refused ∷ [])
  leaves : {total : ℤ} {locked : Bool} → Turn cache_max total locked refused total false []
  reserves :
      {total : ℤ} {locked : Bool} (n : ℕ)
      → Turn cache_max total locked (tested n) (total +ℤ max_alloc_size n) locked (reserved n ∷ [])
  unlocks :
      {total : ℤ} {locked : Bool} (n : ℕ)
      → Turn cache_max total locked (reserved n) total false (holds n ∷ [])
  gives_up :
      {total : ℤ} {locked : Bool} (n : ℕ)
      → Turn cache_max total locked (holds n) (total -ℤ max_alloc_size n) locked []
  adds :
      {total : ℤ} {locked : Bool} (n size idx_bytes mf_bytes : ℕ)
      → size + idx_bytes ≤ 8 + 252 + 4
      → mf_bytes ≤ 202
      → Turn cache_max total locked
          (holds n)
          (total +ℤ pos (size + n + idx_bytes + mf_bytes))
          locked
          (added n ∷ [])
  releases :
      {total : ℤ} {locked : Bool} (n : ℕ)
      → Turn cache_max total locked (added n) (total -ℤ max_alloc_size n) locked []

pub record Callers : Type 0 where
  pub total_bytes : ℤ
  pub locked : Bool
  pub calls : List Stage

-- Any call may be the next.
pub data Move (cache_max : ℤ) (s : Callers) : Callers → Type 0 where
  moves :
      (front back : List Stage) {c : Stage} {total : ℤ} {locked : Bool} {next : List Stage}
      → s.calls ≡ front ++ c ∷ back
      → Turn cache_max s.total_bytes s.locked c total locked next
      → Move cache_max s
          (record { total_bytes = total; locked = locked; calls = front ++ (next ++ back) })

-- A run of a number of steps.
pub data Moves (cache_max : ℤ) : ℕ → Callers → Callers → Type 0 where
  done : {s : Callers} → Moves cache_max 0 s s
  next_move :
      {k : ℕ} {s t u : Callers}
      → Move cache_max s t
      → Moves cache_max k t u
      → Moves cache_max (suc k) s u
