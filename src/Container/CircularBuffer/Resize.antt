-- ===== src/Container/CircularBuffer/Resize.antt =====
-- `resize` leaves the indices of a `CircularBuffer` as they are.
use clia.Prelude.{ℕ, ◌≤◌, ◌≡◌, ◌≢◌, length-resize, err, Fault, arith}
use clia.Container.CircularBuffer.{CircularBuffer, resize, push_back}

-- After the vector was made so small that the next place for an element is behind its end, an element
-- that the ring takes is written outside of the vector; only a ring that now holds just as many
-- elements as the vector has refuses it.
pub resize_shrinks :
    {A : Type 0} (c : CircularBuffer A) (a b : A) (n : ℕ)
    → n ≤ c.finish
    → (n ≢ c.count → push_back (resize a c n) b ≡ err Fault.bad_access)
      × (n ≡ c.count → push_back (resize a c n) b ≡ err Fault.assertion)
unfolding push_back resize
resize_shrinks c a b n h = (
  λ k. rw (length-resize c.buffer n a) (ground arith),
  λ k. rw (length-resize c.buffer n a) (ground arith),
)
