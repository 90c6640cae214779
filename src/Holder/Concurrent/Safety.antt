-- ===== src/Holder/Concurrent/Safety.antt =====
-- The limit holds in every interleaving.
use riverpass.Prelude.{ℕ, ◌+◌, ◌≡◌, List, [], ◌∷◌}
use riverpass.Prelude.Int.{ℤ, pos, ◌≤ℤ◌}
use riverpass.Holder.Concurrent.{Phase, holds, added, Account}

abbrev pub amount : ℕ → ℕ
amount payload_size = 8 + payload_size + 252 + 202 + 4

-- The reservations of the calls that have not added their bytes, and of those that have.
unfoldable pub held : List Phase → ℕ
held [] = 0
held (holds n ∷ ps) = amount n + held ps
held (added n ∷ ps) = held ps

unfoldable pub adding : List Phase → ℕ
adding [] = 0
adding (holds n ∷ ps) = adding ps
adding (added n ∷ ps) = amount n + adding ps

-- The account is the bytes that are there and all reservations; the bytes and the reservations of
-- the calls that have not added theirs are within the limit.
pub record IsSafe (cache_max : ℤ) (s : Account) : Type 0 where
  pub settled : ℕ
  pub account : s.total_bytes ≡ pos (settled + held s.running + adding s.running)
  pub within : pos (settled + held s.running) ≤ℤ cache_max
