-- ===== src/Container/BoundedBlockingQueue.antt =====
-- clia/clia/container/bounded_blocking_queue.h: `BoundedBlockingQueue<Tp>`. A call is the section under
-- the mutex; `none` stands for a caller that waits on a condition variable with everything as it was.
pub mod Waiting
mod Tests
use clia.Prelude.{ℕ, Bool, true, false, Option, none, some, if◌then◌else◌, Outcome, ok, ◌>>=◌}
use clia.Container.CircularBuffer
use clia.Container.CircularBuffer.{CircularBuffer, full, push_back, front, pop_front}

-- The mutex and the condition variables have no state of their own between two calls.
pub record BoundedBlockingQueue {ℓ} (A : Type ℓ) : Type ℓ where
  pub buffer : CircularBuffer A

module _ {ℓ} {A : Type ℓ} where
  unfoldable pub create : A → ℕ → BoundedBlockingQueue A
  create a capacity = record { buffer = CircularBuffer.create a capacity }

  unfoldable pub put : BoundedBlockingQueue A → A → Outcome (Option (BoundedBlockingQueue A))
  put s val =
      if full s.buffer
      then ok none
      else do c ← push_back s.buffer val; ok (some (record { buffer = c }))

  unfoldable pub take : BoundedBlockingQueue A → Outcome (Option (A × BoundedBlockingQueue A))
  take s =
      if full s.buffer
      then ok none
      else do val ← front s.buffer; c ← pop_front s.buffer; ok (some (val, record { buffer = c }))
