-- ===== src/Container/CircularBuffer.antt =====
-- clia/clia/container/circular_buffer.h: `CircularBuffer<Tp>`, a ring of elements in a vector.
pub mod Fifo
pub mod Runs
pub mod Resize
mod Tests
use clia.Prelude.{
  ℕ, Bool, true, false, not, List, length, get_elem?, set, replicate, Option, none, some, ◌==◌, ltb,
  if◌then◌else◌, Outcome, ok, err, Fault, ◌>>=◌, ◌>>◌, assert, accessible, add_size, sub_size,
}
use clia.Prelude

pub record CircularBuffer {ℓ} (A : Type ℓ) : Type ℓ where
  pub start : ℕ
  pub finish : ℕ
  pub count : ℕ
  pub buffer : List A

module _ {ℓ} {A : Type ℓ} where
  -- The constructor; `a` is the value of `Tp()`.
  unfoldable pub create : A → ℕ → CircularBuffer A
  create a n = record { start = 0; finish = 0; count = 0; buffer = replicate n a }

  abbrev pub size : CircularBuffer A → ℕ
  size c = c.count

  abbrev pub capacity : CircularBuffer A → ℕ
  capacity c = length c.buffer

  abbrev pub empty : CircularBuffer A → Bool
  empty c = 0 == c.count

  abbrev pub full : CircularBuffer A → Bool
  full c = capacity c == c.count

  unfoldable pub resize : A → CircularBuffer A → ℕ → CircularBuffer A
  resize a c n = record c { buffer = Prelude.resize c.buffer n a }

  -- The step of an index, with its return to 0.
  abbrev pub next : CircularBuffer A → ℕ → ℕ
  next c i = if capacity c == add_size i 1 then 0 else add_size i 1

  unfoldable pub push_back : CircularBuffer A → A → Outcome (CircularBuffer A)
  push_back c val = do
    assert (not (full c))
    accessible (ltb c.finish (length c.buffer))
    ok (record c {
      buffer = set c.buffer c.finish val;
      finish = next c c.finish;
      count = add_size c.count 1;
    })

  abbrev pub at : Option A → Outcome A
  at none = err Fault.bad_access
  at (some a) = ok a

  unfoldable pub front : CircularBuffer A → Outcome A
  front c = do assert (not (empty c)); at (get_elem? c.buffer c.start)

  unfoldable pub pop_front : CircularBuffer A → Outcome (CircularBuffer A)
  pop_front c = do
    assert (not (empty c))
    ok (record c { start = next c c.start; count = sub_size c.count 1 })
