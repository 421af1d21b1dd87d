-- ===== src/Container/CircularBuffer/Tests.antt =====
-- The theorems on `CircularBuffer` at a ring of two places.
use clia.Prelude.{ℕ, ◌≡◌, refl, [], ◌∷◌, ok, arith}
use clia.Container.CircularBuffer.{CircularBuffer, push_back, pop_front, front}
use clia.Container.CircularBuffer.Fifo.{Holds}
use clia.Container.CircularBuffer.Runs.{pushes, takes, run, run_queue, Matches, run-Matches}

abbrev two : CircularBuffer ℕ
two = record { start = 0; finish = 0; count = 0; buffer = 0 ∷ 0 ∷ [] }

two-Holds : Holds [] two
two-Holds = record {
  count = refl;
  fits = omega arith;
  inside = omega arith;
  behind = refl;
  items = λ i l. absurd (omega arith);
  small = omega arith;
}

run-Matches_example :
    Matches
      (run two (pushes 7 ∷ pushes 8 ∷ takes ∷ pushes 9 ∷ takes ∷ []))
      (run_queue 2 [] (pushes 7 ∷ pushes 8 ∷ takes ∷ pushes 9 ∷ takes ∷ []))
run-Matches_example =
    run-Matches (pushes 7 ∷ pushes 8 ∷ takes ∷ pushes 9 ∷ takes ∷ []) [] two two-Holds

-- The third element goes to the front of the vector.
run-wraps :
    run two (pushes 7 ∷ pushes 8 ∷ takes ∷ pushes 9 ∷ takes ∷ [])
    ≡ ok (7 ∷ 8 ∷ [], record { start = 0; finish = 1; count = 1; buffer = 9 ∷ 8 ∷ [] })
unfolding run push_back pop_front front
run-wraps = refl
