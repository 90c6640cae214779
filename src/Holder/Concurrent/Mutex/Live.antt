-- ===== src/Holder/Concurrent/Mutex/Live.antt =====
-- The limit, the mutual exclusion, and the end of every run of the calls.
use riverpass.Prelude.{
  ℕ, ◌+◌, ◌*◌, ◌≤◌, ◌≡◌, refl, sym, ap, ◌∙◌, Bool, true, false, inl, inr, Bool-cases, ◌⊎◌, List, [],
  ◌∷◌, ◌++◌, arith, map, length,
}
use riverpass.Prelude.Int.{ℤ, pos, ◌+ℤ◌, ◌-ℤ◌, ltb_ℤ, ◌≤ℤ◌, pos_part, neg_part, int_laws}
use riverpass.Holder.Put.{max_alloc_size}
use riverpass.Holder.Concurrent.Mutex.{
  Stage, waits, inside, tested, reserved, holds, added, refused, Turn, locks, passes, refuses,
  leaves, reserves, unlocks, gives_up, releases, Callers, Move, moves, Moves, done, next_move,
}
use riverpass.Holder.Concurrent.Mutex.Weights.{
  sum, left, critical, promised, adding, claimed, sum-before, sum-after, unclaimed, held_by,
}
use riverpass.Holder.Concurrent.Mutex.Turns.{turn-left, turn-critical, Fits, turn-Fits}

module _ (cache_max : ℤ) where
  Fits-eq :
      (total : ℤ) (p p2 a a2 t t2 : ℕ)
      → p ≡ p2
      → a ≡ a2
      → t ≡ t2
      → Fits cache_max total p a t
      → Fits cache_max total p2 a2 t2
  Fits-eq total p p2 a a2 t t2 x y z (st, e, w) = (st, e ∙ ap pos (omega arith), omega (arith, w))

  fits-within : (total : ℤ) (p a t : ℕ) → Fits cache_max total p a t → total ≤ℤ (cache_max +ℤ pos a)
  fits-within total p a t (st, e, w) =
      let x : pos_part total ≡ st + p + a = ap pos_part e in
      let y : neg_part total ≡ 0 = ap neg_part e in omega (arith, int_laws, w)

  record IsSound (s : Callers) : Type 0 where
    exclusive : sum critical s.calls ≡ held_by s.locked
    fits :
        Fits cache_max s.total_bytes
          (sum promised s.calls)
          (sum adding s.calls)
          (sum claimed s.calls)

  held_once : (locked : Bool) → held_by locked ≤ 1
  held_once true = omega arith
  held_once false = omega arith

  others_unclaimed :
      (c : Stage) (locked : Bool) (front back : List Stage)
      → critical c + (sum critical front + sum critical back) ≡ held_by locked
      → critical c ≡ 1
      → sum claimed front + sum claimed back ≡ 0
  others_unclaimed c locked front back e one =
      let once = held_once locked in
      omega (arith, unclaimed front (omega arith), unclaimed back (omega arith))

  Move-IsSound : (s t : Callers) → Move cache_max s t → IsSound s → IsSound t
  Move-IsSound s t (moves front back {c = c} {next = next} e turn) i =
      let x : critical c + (sum critical front + sum critical back) ≡ held_by s.locked =
        sym (sum-before critical front back c s.calls e) ∙ i.exclusive in
      let before =
        Fits-eq s.total_bytes _ _ _ _ _ _ (sum-before promised front back c s.calls e)
          (sum-before adding front back c s.calls e) (sum-before claimed front back c s.calls e)
          i.fits in
      let f =
        turn-Fits cache_max (sum promised front + sum promised back)
          (sum adding front + sum adding back) (sum claimed front + sum claimed back)
          (others_unclaimed c s.locked front back x) turn before in
      record {
        exclusive =
            sum-after critical front back next
            ∙ turn-critical cache_max (sum critical front + sum critical back) x turn;
        fits =
            Fits-eq t.total_bytes _ _ _ _ _ _ (sym (sum-after promised front back next))
              (sym (sum-after adding front back next)) (sym (sum-after claimed front back next)) f;
      }

  Moves-IsSound : (k : ℕ) (s t : Callers) → Moves cache_max k s t → IsSound s → IsSound t
  Moves-IsSound k s t done i = i
  Moves-IsSound k s u (next_move {k = n} {t = t} m ms) i =
      Moves-IsSound n t u ms (Move-IsSound s t m i)

  Move-left : (s t : Callers) → Move cache_max s t → 1 + sum left t.calls ≤ sum left s.calls
  Move-left s t (moves front back {c = c} {next = next} e turn) = omega (
    arith,
    sum-before left front back c s.calls e,
    sum-after left front back next,
    turn-left cache_max turn,
  )

  Moves-left :
      (k : ℕ) (s t : Callers) → Moves cache_max k s t → k + sum left t.calls ≤ sum left s.calls
  Moves-left k s t done = omega arith
  Moves-left k s u (next_move {k = n} {t = t} m ms) =
      omega (arith, Move-left s t m, Moves-left n t u ms)

  critical_call :
      (cs : List Stage)
      → 1 ≤ sum critical cs
      → (front : List Stage) × (c : Stage) × (back : List Stage) × (cs ≡ front ++ c ∷ back)
        × (critical c ≡ 1)
  unfolding sum
  critical_call [] h = absurd (omega arith)
  critical_call (inside n ∷ cs) h = ([], inside n, cs, refl, refl)
  critical_call (tested n ∷ cs) h = ([], tested n, cs, refl, refl)
  critical_call (reserved n ∷ cs) h = ([], reserved n, cs, refl, refl)
  critical_call (refused ∷ cs) h = ([], refused, cs, refl, refl)
  critical_call (waits n ∷ cs) h =
      let (front, c, back, e, one) = critical_call cs (omega arith) in
      (waits n ∷ front, c, back, ap (λ z. waits n ∷ z) e, one)
  critical_call (holds n ∷ cs) h =
      let (front, c, back, e, one) = critical_call cs (omega arith) in
      (holds n ∷ front, c, back, ap (λ z. holds n ∷ z) e, one)
  critical_call (added n ∷ cs) h =
      let (front, c, back, e, one) = critical_call cs (omega arith) in
      (added n ∷ front, c, back, ap (λ z. added n ∷ z) e, one)

  abbrev CanTurn : ℤ → Bool → Stage → Type 0
  CanTurn total locked c =
      (total2 : ℤ) × (locked2 : Bool) × (next : List Stage) × Turn cache_max total locked c total2
        locked2 next

  critical-CanTurn :
      (total : ℤ) (locked : Bool) (c : Stage) → critical c ≡ 1 → CanTurn total locked c
  critical-CanTurn total locked (waits n) e = absurd (omega arith)
  critical-CanTurn total locked (inside n) e =
      elim (Bool-cases (ltb_ℤ (cache_max -ℤ total) (max_alloc_size n))) [
        | inl full ↦ (_, _, _, refuses n full)
        | inr room ↦ (_, _, _, passes n room)
      ]
  critical-CanTurn total locked (tested n) e = (_, _, _, reserves n)
  critical-CanTurn total locked (reserved n) e = (_, _, _, unlocks n)
  critical-CanTurn total locked (holds n) e = absurd (omega arith)
  critical-CanTurn total locked (added n) e = absurd (omega arith)
  critical-CanTurn total locked refused e = (_, _, _, leaves)

  -- A call that does not hold the mutex can step when nobody holds it.
  free-CanTurn : (total : ℤ) (c : Stage) → CanTurn total false c
  free-CanTurn total (waits n) = (_, _, _, locks n)
  free-CanTurn total (inside n) = critical-CanTurn total false (inside n) refl
  free-CanTurn total (tested n) = (_, _, _, reserves n)
  free-CanTurn total (reserved n) = (_, _, _, unlocks n)
  free-CanTurn total (holds n) = (_, _, _, gives_up n)
  free-CanTurn total (added n) = (_, _, _, releases n)
  free-CanTurn total refused = (_, _, _, leaves)

  -- While there is a call, some call can step.
  progress :
      (total : ℤ) (locked : Bool) (calls : List Stage)
      → sum critical calls ≡ held_by locked
      → (calls ≡ [])
        ⊎ ((u : Callers) × Move cache_max
              (record { total_bytes = total; locked = locked; calls = calls })
              u)
  progress total true calls i =
      let (front, c, back, e, one) = critical_call calls (omega arith) in
      let (total2, locked2, next, turn) = critical-CanTurn total true c one in
      inr (_, moves front back e turn)
  progress total false [] i = inl refl
  progress total false (c ∷ cs) i =
      let (total2, locked2, next, turn) = free-CanTurn total c in inr (_, moves [] cs refl turn)

  starting :
      (w : Stage → ℕ) (m : ℕ) (sizes : List ℕ)
      → ((n : ℕ) → w (waits n) ≡ m)
      → sum w (map waits sizes) ≡ length sizes * m
  unfolding sum
  starting w m [] h = omega arith
  starting w m (n ∷ sizes) h = omega (arith, h n, starting w m sizes h)

  -- Calls of `Put` that begin together, from an account within the limit and a free mutex, in a run
  -- of any number of their steps in any order, with the test and the reservation apart: the account
  -- exceeds the limit by no more than the reservations of the calls that have added their bytes and
  -- not given the reservation back; at most one call is between its lock and its unlock; the steps so
  -- far are at most six for each call; and as long as a call has not returned, some call can step.
  pub Moves-live :
      (k n : ℕ) (sizes : List ℕ) (t : Callers)
      → pos n ≤ℤ cache_max
      → Moves cache_max k
          (record { total_bytes = pos n; locked = false; calls = map waits sizes })
          t
      → (t.total_bytes ≤ℤ (cache_max +ℤ pos (sum adding t.calls)))
        × (sum critical t.calls ≤ 1)
        × (k + sum left t.calls ≤ length sizes * 6)
        × ((t.calls ≡ []) ⊎ ((u : Callers) × Move cache_max t u))
  Moves-live k n sizes t within run =
      let calls : List Stage = map waits sizes in
      let s : Callers = record { total_bytes = pos n; locked = false; calls = calls } in
      let none_critical = starting critical 0 sizes (λ m. refl) in
      let i = Moves-IsSound k s t run (record {
        exclusive = omega (arith, none_critical);
        fits = (
          n,
          ap pos (
              omega (
                arith,
                starting promised 0 sizes (λ m. refl),
                starting adding 0 sizes (λ m. refl),
              )),
          omega (
            arith,
            within,
            starting promised 0 sizes (λ m. refl),
            starting claimed 0 sizes (λ m. refl),
          ),
        );
      }) in
      let once = held_once t.locked in
      (
        fits-within t.total_bytes (sum promised t.calls) (sum adding t.calls) (sum claimed t.calls)
            i.fits,
        omega (arith, i.exclusive),
        omega (arith, Moves-left k s t run, starting left 6 sizes (λ m. refl)),
        progress t.total_bytes t.locked t.calls i.exclusive,
      )
