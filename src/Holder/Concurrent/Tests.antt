-- ===== src/Holder/Concurrent/Tests.antt =====
-- Two calls whose steps interleave.
use riverpass.Prelude.{◌+◌, [], ◌∷◌}
use riverpass.Prelude.Int.{pos, ◌+ℤ◌}
use riverpass.Holder.Concurrent.{holds, added, Account}

abbrev empty : Account
empty = record { total_bytes = pos 0; running = [] }

abbrev first : Account
first = record {
  total_bytes = empty.total_bytes +ℤ pos (8 + 10 + 252 + 202 + 4);
  running = holds 10 ∷ [];
}

abbrev both : Account
both = record {
  total_bytes = first.total_bytes +ℤ pos (8 + 20 + 252 + 202 + 4);
  running = holds 20 ∷ holds 10 ∷ [];
}

abbrev one_added : Account
one_added = record {
  total_bytes = both.total_bytes +ℤ pos (8 + 10 + 252 + 202);
  running = holds 20 ∷ added 10 ∷ [];
}
