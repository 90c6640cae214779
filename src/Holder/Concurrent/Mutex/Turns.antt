-- ===== src/Holder/Concurrent/Mutex/Turns.antt =====
-- The sums in the step of one call.
use riverpass.Prelude.{ℕ, ◌+◌, ◌≤◌, ◌≡◌, refl, ap, ◌∙◌, Bool, true, false, List, arith, ltb}
use riverpass.Prelude.Int.{ℤ, pos, ◌-ℤ◌, ◌≤ℤ◌, pos_part, neg_part, eq_of_parts, int_laws}
use riverpass.Holder.Concurrent.Mutex.{
  Stage, Turn, locks, passes, refuses, leaves, reserves, unlocks, gives_up, adds, releases,
}
use riverpass.Holder.Concurrent.Mutex.Weights.{
  amount, sum, left, critical, promised, adding, claimed, held_by,
}

not_ltb : (a b : ℕ) → ltb a b ≡ false → b ≤ a
not_ltb a b h = ground arith

module _ (cache_max : ℤ) where
  -- Each step is one of those that are left to its call.
  pub turn-left :
      {c : Stage} {total total2 : ℤ} {locked locked2 : Bool} {next : List Stage}
      → Turn cache_max total locked c total2 locked2 next
      → 1 + sum left next ≤ left c
  unfolding sum
  turn-left (locks n) = omega arith
  turn-left (passes n h) = omega arith
  turn-left (refuses n h) = omega arith
  turn-left leaves = omega arith
  turn-left (reserves n) = omega arith
  turn-left (unlocks n) = omega arith
  turn-left (gives_up n) = omega arith
  turn-left (adds n size idx mf b d) = omega arith
  turn-left (releases n) = omega arith

  -- `others` are the calls in the critical section besides the one that steps.
  pub turn-critical :
      {c : Stage} {total total2 : ℤ} {locked locked2 : Bool} {next : List Stage} (others : ℕ)
      → critical c + others ≡ held_by locked
      → Turn cache_max total locked c total2 locked2 next
      → sum critical next + others ≡ held_by locked2
  unfolding sum
  turn-critical others e (locks n) = omega arith
  turn-critical others e (passes n h) = omega arith
  turn-critical others e (refuses n h) = omega arith
  turn-critical {locked = true} others e leaves = omega arith
  turn-critical {locked = false} others e leaves = absurd (omega arith)
  turn-critical others e (reserves n) = omega arith
  turn-critical {locked = true} others e (unlocks n) = omega arith
  turn-critical {locked = false} others e (unlocks n) = absurd (omega arith)
  turn-critical others e (gives_up n) = omega arith
  turn-critical others e (adds n size idx mf b d) = omega arith
  turn-critical others e (releases n) = omega arith

  -- The account is the bytes that are there and all reservations; the bytes, the reservations of the
  -- calls that have not added theirs, and the room that was seen are within the limit.
  abbrev pub Fits : ℤ → ℕ → ℕ → ℕ → Type 0
  Fits total p a t =
      (settled : ℕ) × (total ≡ pos (settled + p + a)) × (pos (settled + p + t) ≤ℤ cache_max)

  pub turn-Fits :
      {c : Stage} {total total2 : ℤ} {locked locked2 : Bool} {next : List Stage} (p a t : ℕ)
      → (critical c ≡ 1 → t ≡ 0)
      → Turn cache_max total locked c total2 locked2 next
      → Fits total (promised c + p) (adding c + a) (claimed c + t)
      → Fits total2 (sum promised next + p) (sum adding next + a) (sum claimed next + t)
  unfolding sum
  turn-Fits p a t alone (locks n) (st, e, w) = (st, e ∙ ap pos (omega arith), omega (arith, w))
  turn-Fits {total = total} p a t alone (passes n room) (st, e, w) =
      let x : pos_part total ≡ st + (0 + p) + (0 + a) = ap pos_part e in
      let y : neg_part total ≡ 0 = ap neg_part e in
      let z : t ≡ 0 = alone refl in
      let left_room : ℤ = cache_max -ℤ total in
      let fits : amount n + neg_part left_room ≤ pos_part left_room + 0 =
        not_ltb (pos_part left_room + 0) (amount n + neg_part left_room) room in
      (st, e ∙ ap pos (omega arith), omega (arith, int_laws, fits))
  turn-Fits p a t alone (refuses n h) (st, e, w) = (st, e ∙ ap pos (omega arith), omega (arith, w))
  turn-Fits p a t alone leaves (st, e, w) = (st, e ∙ ap pos (omega arith), omega (arith, w))
  turn-Fits {total = total} p a t alone (reserves n) (st, e, w) =
      let x : pos_part total ≡ st + (0 + p) + (0 + a) = ap pos_part e in
      let y : neg_part total ≡ 0 = ap neg_part e in
      (st, eq_of_parts _ _ (omega (arith, int_laws)), omega (arith, w))
  turn-Fits p a t alone (unlocks n) (st, e, w) = (st, e ∙ ap pos (omega arith), omega (arith, w))
  turn-Fits {total = total} p a t alone (gives_up n) (st, e, w) =
      let x : pos_part total ≡ st + (amount n + p) + (0 + a) = ap pos_part e in
      let y : neg_part total ≡ 0 = ap neg_part e in
      (st, eq_of_parts _ _ (omega (arith, int_laws)), omega (arith, w))
  turn-Fits {total = total} p a t alone (adds n size idx mf b d) (st, e, w) =
      let x : pos_part total ≡ st + (amount n + p) + (0 + a) = ap pos_part e in
      let y : neg_part total ≡ 0 = ap neg_part e in
      (st + (size + n + idx + mf), eq_of_parts _ _ (omega (arith, int_laws)), omega (arith, w))
  turn-Fits {total = total} p a t alone (releases n) (st, e, w) =
      let x : pos_part total ≡ st + (0 + p) + (amount n + a) = ap pos_part e in
      let y : neg_part total ≡ 0 = ap neg_part e in
      (st, eq_of_parts _ _ (omega (arith, int_laws)), omega (arith, w))
