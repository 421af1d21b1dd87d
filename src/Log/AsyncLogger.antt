-- ===== src/Log/AsyncLogger.antt =====
-- clia/src/log/async_logger.cc: `AsyncLogger`. Producers fill buffers under a mutex, and one thread
-- swaps them out and hands them to the appender. `nm` is the capacity of a buffer (`kBufferSize`).
-- A moved-from `std::unique_ptr` is `none`. What the appender is asked to do is a list of calls.
pub mod Buffers
pub mod System
pub mod Delivery
pub mod Partway
pub mod Leaving
pub mod NoLoss
mod Tests
use clia.Prelude.{
  ℕ, ◌+◌, ◌-◌, ◌*◌, ◌==◌, Bool, true, false, ◌||◌, ◌&&◌, not, Option, none, some, List, [], ◌∷◌,
  ◌++◌, length, take, ltb, leb, if◌then◌else◌, Outcome, ok, err, Fault, ◌>>=◌, ◌>>◌, assert,
  replicate,
}
use clia.Container.FixedBuffer
use clia.Container.FixedBuffer.{FixedBuffer}
use clia.Container.FixedBuffer.Contents.{contents}

abbrev pub Buffer : Type 0
Buffer = FixedBuffer ℕ

abbrev pub buffer_size : ℕ
buffer_size = 4 * 1024 * 1024

-- The members that the mutex guards, with the level and the `running_` flag.
pub record AsyncLogger : Type 0 where
  pub level : ℕ
  pub current : Option Buffer
  pub next : Option Buffer
  pub buffers : List Buffer
  pub running : Bool

-- What an appender is asked to do.
pub data Call : Type 0 where
  appends : List ℕ → Call
  flushes : Call

module _ (nm : ℕ) where
  -- `new Buffer`: an array that nobody has written to.
  unfoldable pub new_buffer : Buffer
  new_buffer = FixedBuffer.create (replicate nm 0)

  unfoldable pub create : ℕ → AsyncLogger
  create level = record {
    level = level;
    current = some new_buffer;
    next = some new_buffer;
    buffers = [];
    running = true;
  }

  -- The test at the head of `log`; a null message is `none`. It is made without the mutex.
  unfoldable pub accepts : AsyncLogger → ℕ → Option (List ℕ) → Bool
  accepts s level none = false
  accepts s level (some message) =
      leb s.level level && not (length message == 0) && leb (length message) nm && s.running

  -- Append to the buffer that a pointer holds; C++ does not check the pointer.
  unfoldable pub append_to : Option Buffer → List ℕ → Outcome (Option Buffer)
  append_to none message = err Fault.bad_access
  append_to (some b) message = FixedBuffer.append nm true b message >>= λ b'. ok (some b')

  -- The buffer that takes the place of a full one.
  unfoldable pub replacement : Option Buffer → Option Buffer
  replacement none = some new_buffer
  replacement (some b) = some b

  -- `buffers_.emplace_back(std::move(current_buffer_))`
  abbrev pub move_full : AsyncLogger → Buffer → AsyncLogger
  move_full s b = record s { buffers = s.buffers ++ b ∷ []; current = none }

  -- The buffer that follows the full one.
  abbrev pub take_next : AsyncLogger → AsyncLogger
  take_next s = record s { next = none; current = replacement s.next }

  abbrev pub append_current : AsyncLogger → List ℕ → Outcome AsyncLogger
  append_current s message = append_to s.current message >>= λ c. ok (record s { current = c })

  -- The part of `log` under the mutex, by the buffer that `current_buffer_` holds.
  unfoldable pub log_into : AsyncLogger → List ℕ → Option Buffer → Outcome AsyncLogger
  log_into s message none = err Fault.bad_access
  log_into s message (some b) =
      if ltb (length message) (FixedBuffer.avail nm b)
      then (append_to (some b) message >>= λ c. ok (record s { current = c }))
      else append_current (take_next (move_full s b)) message

  unfoldable pub log_locked : AsyncLogger → List ℕ → Outcome AsyncLogger
  log_locked s message = log_into s message s.current

  pub log : AsyncLogger → ℕ → Option (List ℕ) → Outcome AsyncLogger
  log s level none = ok s
  log s level (some message) = if accepts s level (some message) then log_locked s message else ok s

-- The destructor, up to the join of the thread.
unfoldable pub stop : AsyncLogger → AsyncLogger
stop s = record s { running = false }

-- The variables of `sync_thread`.
pub record Worker : Type 0 where
  pub new_buffer1 : Option Buffer
  pub new_buffer2 : Option Buffer
  pub write_buffers : List Buffer

-- `ptr && ptr->size() == 0`
abbrev pub is_blank : Option Buffer → Bool
is_blank none = false
is_blank (some b) = FixedBuffer.size b == 0

abbrev pub is_empty : List Buffer → Bool
is_empty [] = true
is_empty (b ∷ bs) = false

-- `current_buffer_->size() != 0`
unfoldable pub is_filled : Option Buffer → Outcome Bool
is_filled none = err Fault.bad_access
is_filled (some b) = ok (not (FixedBuffer.size b == 0))

-- The condition of the loop of `sync_thread`. It takes no mutex.
unfoldable pub wants_more : AsyncLogger → Outcome Bool
wants_more s = if s.running then ok true else is_filled s.current

-- `if (!next_buffer_) next_buffer_ = std::move(new_buffer2);`: both pointers afterwards.
unfoldable pub hand_over : Option Buffer → Option Buffer → Option Buffer × Option Buffer
hand_over none spare = (spare, none)
hand_over (some n) spare = (some n, spare)

-- What the swap under the mutex leaves, given the buffer of `current_buffer_`.
unfoldable pub swap_from : AsyncLogger → Worker → Option Buffer → Outcome (AsyncLogger × Worker)
swap_from s w none = err Fault.bad_access
swap_from s w (some b) =
    let (next, spare) = hand_over s.next w.new_buffer2 in
    ok (
      record s { current = w.new_buffer1; next = next; buffers = [] },
      record { new_buffer1 = none; new_buffer2 = spare; write_buffers = s.buffers ++ b ∷ [] },
    )

-- The head of an iteration of `sync_thread`: its assertions, and the section under the mutex. The
-- wait on the condition variable gives the mutex up: what the producers do meanwhile comes before
-- this step.
unfoldable pub swap : AsyncLogger → Worker → Outcome (AsyncLogger × Worker)
swap s w = do
  assert (is_blank w.new_buffer1)
  assert (is_blank w.new_buffer2)
  assert (is_empty w.write_buffers)
  swap_from s w s.current

-- `back()` and `pop_back()` of a vector.
unfoldable pub pop_back {ℓ} : {A : Type ℓ} → List A → Option (List A × A)
pop_back [] = none
pop_back (x ∷ xs) = elim (pop_back xs) [ none ↦ some ([], x) | some (init, y) ↦ some (x ∷ init, y) ]

-- A spare buffer for the next iteration: the one that is still there, or the last one written.
unfoldable pub refill : Option Buffer → List Buffer → Outcome (Option Buffer × List Buffer)
refill (some b) bs = ok (some b, bs)
refill none bs = elim (pop_back bs) [
  | none ↦ err Fault.assertion
  | some (init, b) ↦ ok (some (FixedBuffer.reset b), init)
]

-- One append for each buffer that is not empty.
unfoldable pub write_all : List Buffer → List Call
write_all [] = []
write_all (b ∷ bs) =
    let rest = write_all bs in if FixedBuffer.size b == 0 then rest else appends (contents b) ∷ rest

-- More than 25 buffers are cut to the first two, after a notice, whose text has the time and the
-- number of buffers dropped in it.
unfoldable pub cut : (ℕ → List ℕ) → List Buffer → List Call × List Buffer
cut notice bs =
    if ltb 25 (length bs) then (appends (notice (length bs - 2)) ∷ [], take 2 bs) else ([], bs)

-- The rest of the iteration, without the mutex.
unfoldable pub write_out : (ℕ → List ℕ) → Worker → Outcome (List Call × Worker)
write_out notice w = do
  assert (not (is_empty w.write_buffers))
  let (said, kept) = cut notice w.write_buffers
  spare1 ← refill w.new_buffer1 kept
  spare2 ← refill w.new_buffer2 spare1.1
  ok (
    said ++ write_all kept ++ flushes ∷ [],
    record { new_buffer1 = spare1.0; new_buffer2 = spare2.0; write_buffers = [] },
  )
