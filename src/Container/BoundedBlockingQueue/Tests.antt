-- ===== src/Container/BoundedBlockingQueue/Tests.antt =====
-- The theorems on `BoundedBlockingQueue` at queues of one and of two places.
use clia.Prelude.{ℕ, ◌≡◌, refl, List, [], ◌∷◌, none, ok, Returns, arith}
use clia.Container.CircularBuffer.Fifo.{Holds}
use clia.Container.BoundedBlockingQueue.{BoundedBlockingQueue, put, take}
use clia.Container.BoundedBlockingQueue.Waiting.{Left, put-Left, put-take}

abbrev queue : ℕ → ℕ → List ℕ → BoundedBlockingQueue ℕ
queue n end items = record {
  buffer = record { start = 0; finish = end; count = n; buffer = items };
}

one-Holds : Holds (7 ∷ []) (queue 1 1 (7 ∷ 0 ∷ [])).buffer
one-Holds = record {
  count = refl;
  fits = omega arith;
  inside = omega arith;
  behind = refl;
  items = λ i l. let first : i ≡ 0 = omega arith in rw first refl;
  small = omega arith;
}

none-Holds : Holds [] (queue 0 0 (0 ∷ 0 ∷ [])).buffer
none-Holds = record {
  count = refl;
  fits = omega arith;
  inside = omega arith;
  behind = refl;
  items = λ i l. absurd (omega arith);
  small = omega arith;
}

put-Left_example : Returns (put (queue 1 1 (7 ∷ 0 ∷ [])) 8) (Left (7 ∷ 8 ∷ []))
put-Left_example = put-Left (7 ∷ []) (queue 1 1 (7 ∷ 0 ∷ [])) 8 one-Holds (omega arith)

full-Holds : Holds (7 ∷ []) (queue 1 0 (7 ∷ [])).buffer
full-Holds = record {
  count = refl;
  fits = omega arith;
  inside = omega arith;
  behind = refl;
  items = λ i l. let first : i ≡ 0 = omega arith in rw first refl;
  small = omega arith;
}

put-take_example : (put (queue 1 0 (7 ∷ [])) 8 ≡ ok none) × (take (queue 1 0 (7 ∷ [])) ≡ ok none)
put-take_example = put-take (7 ∷ []) (queue 1 0 (7 ∷ [])) 8 full-Holds (omega arith)
