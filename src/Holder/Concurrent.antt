-- ===== src/Holder/Concurrent.antt =====
-- Calls of PhyBH.Put that run at once, as far as they touch `totalBytes`: the test and the
-- reservation are one step under the mutex, every later atomic addition is a step of its own, and
-- the steps of the calls interleave in any order. Mutex takes the test and the
-- reservation apart. Single says which of these steps the whole function `put` takes.
pub mod Safety
pub mod Single
pub mod Mutex
mod Tests
use riverpass.Prelude.{ℕ, suc, ◌+◌, ◌≤◌, ◌≡◌, false, List, [], ◌∷◌, ◌++◌}
use riverpass.Prelude.Int.{ℤ, pos, ◌+ℤ◌, ◌-ℤ◌, ltb_ℤ}
use riverpass.Holder.Put.{max_alloc_size}

-- A call holds its reservation, or has added its bytes and holds it still.
pub data Phase : Type 0 where
  holds : ℕ → Phase
  added : ℕ → Phase

pub record Account : Type 0 where
  pub total_bytes : ℤ
  pub running : List Phase

-- What a step does to the account: a call of a payload size reserves, gives its reservation back on
-- an error, adds a number of bytes, or gives its reservation back after it.
pub data Label : Type 0 where
  reserve : ℕ → Label
  give_up : ℕ → Label
  add : ℕ → ℕ → Label
  give_back : ℕ → Label

-- The steps of a call that has its reservation: an error gives it back; a success first adds the
-- bytes and then gives it back.
pub data Finish (s : Account) : Label → Account → Type 0 where
  gives_up :
      (front back : List Phase) (payload_size : ℕ)
      → s.running ≡ front ++ holds payload_size ∷ back
      → Finish s (give_up payload_size) (record {
        total_bytes = s.total_bytes -ℤ max_alloc_size payload_size;
        running = front ++ back;
      })
  adds :
      (front back : List Phase) (payload_size size idx_bytes mf_bytes : ℕ)
      → s.running ≡ front ++ holds payload_size ∷ back
      → size + idx_bytes ≤ 8 + 252 + 4
      → mf_bytes ≤ 202
      → Finish s (add payload_size (size + payload_size + idx_bytes + mf_bytes)) (record {
        total_bytes = s.total_bytes +ℤ pos (size + payload_size + idx_bytes + mf_bytes);
        running = front ++ added payload_size ∷ back;
      })
  releases :
      (front back : List Phase) (payload_size : ℕ)
      → s.running ≡ front ++ added payload_size ∷ back
      → Finish s (give_back payload_size) (record {
        total_bytes = s.total_bytes -ℤ max_alloc_size payload_size;
        running = front ++ back;
      })

-- A new call that is refused takes no step.
pub data Step (cache_max : ℤ) (s : Account) : Label → Account → Type 0 where
  reserves :
      (payload_size : ℕ)
      → ltb_ℤ (cache_max -ℤ s.total_bytes) (max_alloc_size payload_size) ≡ false
      → Step cache_max s (reserve payload_size) (record {
        total_bytes = s.total_bytes +ℤ max_alloc_size payload_size;
        running = holds payload_size ∷ s.running;
      })
  goes_on : {l : Label} {t : Account} → Finish s l t → Step cache_max s l t

pub data Runs (cache_max : ℤ) (s : Account) : Account → Type 0 where
  start : Runs cache_max s s
  later :
      {l : Label} {t u : Account} → Runs cache_max s t → Step cache_max t l u → Runs cache_max s u

-- The steps of a run, the first one first.
pub data Trace (cache_max : ℤ) : List Label → Account → Account → Type 0 where
  ends : {s : Account} → Trace cache_max [] s s
  takes :
      {l : Label} {ls : List Label} {s t u : Account}
      → Step cache_max s l t
      → Trace cache_max ls t u
      → Trace cache_max (l ∷ ls) s u
