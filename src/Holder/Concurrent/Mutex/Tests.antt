-- ===== src/Holder/Concurrent/Mutex/Tests.antt =====
-- Three calls: one is between its test and its reservation while another adds its bytes.
use riverpass.Prelude.{
  ℕ, ◌+◌, ◌*◌, ◌≤◌, ◌≡◌, refl, true, false, List, [], ◌∷◌, ◌⊎◌, arith, map, length,
}
use riverpass.Prelude.Int.{pos, ◌+ℤ◌, ◌-ℤ◌, ◌≤ℤ◌}
use riverpass.Holder.Concurrent.Mutex.{
  waits, tested, holds, added, locks, passes, reserves, unlocks, adds, Callers, Move, moves, Moves,
  done, next_move,
}
use riverpass.Holder.Concurrent.Mutex.Weights.{sum, left, critical, adding}
use riverpass.Holder.Concurrent.Mutex.Live.{Moves-live}

abbrev sizes : List ℕ
sizes = 10 ∷ 20 ∷ 5 ∷ []

abbrev first : Callers
first = record { total_bytes = pos 0; locked = false; calls = map waits sizes }

abbrev last : Callers
last = record {
  total_bytes = pos 0 +ℤ pos (8 + 10 + 252 + 202 + 4) +ℤ pos (8 + 10 + 252 + 202);
  locked = true;
  calls = added 10 ∷ tested 20 ∷ waits 5 ∷ [];
}

steps : Moves (pos 1100) 7 first last
unfolding ◌+ℤ◌ ◌-ℤ◌
steps = next_move (moves [] (waits 20 ∷ waits 5 ∷ []) refl (locks 10)) (
    next_move (moves [] (waits 20 ∷ waits 5 ∷ []) refl (passes 10 refl)) (
      next_move (moves [] (waits 20 ∷ waits 5 ∷ []) refl (reserves 10)) (
        next_move (moves [] (waits 20 ∷ waits 5 ∷ []) refl (unlocks 10)) (
          next_move (moves (holds 10 ∷ []) (waits 5 ∷ []) refl (locks 20)) (
            next_move (moves (holds 10 ∷ []) (waits 5 ∷ []) refl (passes 20 refl)) (
              next_move
                (moves [] (tested 20 ∷ waits 5 ∷ []) refl
                  (adds 10 8 252 202 (omega arith) (omega arith)))
                done))))))

Moves-live_example :
    (last.total_bytes ≤ℤ (pos 1100 +ℤ pos (sum adding last.calls)))
    × (sum critical last.calls ≤ 1)
    × (7 + sum left last.calls ≤ length sizes * 6)
    × ((last.calls ≡ []) ⊎ ((u : Callers) × Move (pos 1100) last u))
Moves-live_example = Moves-live (pos 1100) 7 0 sizes last (omega arith) steps
