-- ===== src/Log/AsyncLogger/System.antt =====
-- The producers and the thread of an `AsyncLogger` as interleaved steps. A section under the mutex is
-- one step, except that the test of the loop, which takes no mutex, may come between the moves of the
-- buffers in `log`, which are steps of their own too. The test of `running_` in `log` is made before the
-- section, so that a message may come in after `running_` was cleared, and even after the thread has
-- ended.
use clia.Prelude.{ℕ, ◌<◌, ◌≡◌, Bool, true, false, ◌||◌, some, List, [], ◌∷◌, ◌++◌, length, ltb, ok}
use clia.Log.AsyncLogger.{
  AsyncLogger, Buffer, Worker, Call, flushes, new_buffer, create, move_full, take_next,
  append_current, log_locked, stop, wants_more, swap, write_out,
}
use clia.Log.AsyncLogger.Buffers.{all_bytes, pending, IsSound}
use clia.Log.AsyncLogger.Delivery.{delivered, IsRested, IsBusy}
use clia.Log.AsyncLogger.Partway.{Moved, Taken}
use clia.Container.FixedBuffer

-- Where the thread stands: at the test of its loop, between the test and the swap, between the swap
-- and the next test, behind the loop.
pub data Phase : Type 0 where
  top waiting writing done : Phase

-- Where the holder of the mutex stands: no producer is between the moves of the buffers; one has moved
-- the full buffer; one has the next buffer and is to append its message.
pub data Section : Type 0 where
  free : Section
  moved taken : List ℕ → Section

-- `logged` and `dropped` are no state of the program: they tell which bytes were taken in so far, and
-- whether an iteration found more than 25 buffers.
pub record System : Type 0 where
  pub logger : AsyncLogger
  pub worker : Worker
  pub phase : Phase
  pub section : Section
  pub calls : List Call
  pub logged : List ℕ
  pub dropped : Bool

unfoldable pub start : ℕ → ℕ → System
start nm level = record {
  logger = create nm level;
  worker = record {
    new_buffer1 = some (new_buffer nm);
    new_buffer2 = some (new_buffer nm);
    write_buffers = [];
  };
  phase = top;
  section = free;
  calls = [];
  logged = [];
  dropped = false;
}

module _ (nm : ℕ) (notice : ℕ → List ℕ) where
  pub data Step (s t : System) : Type 0 where
    inserts :
        (message : List ℕ) (l : AsyncLogger)
        → 0 < length message
        → length message < nm
        → s.section ≡ free
        → log_locked nm s.logger message ≡ ok l
        → t ≡ record s { logger = l; logged = s.logged ++ message }
        → Step s t
    moves :
        (message : List ℕ) (b : Buffer)
        → 0 < length message
        → length message < nm
        → s.section ≡ free
        → s.logger.current ≡ some b
        → ltb (length message) (FixedBuffer.avail nm b) ≡ false
        → t ≡ record s { logger = move_full nm s.logger b; section = moved message }
        → Step s t
    takes :
        (message : List ℕ)
        → s.section ≡ moved message
        → t ≡ record s { logger = take_next nm s.logger; section = taken message }
        → Step s t
    appends_moved :
        (message : List ℕ) (l : AsyncLogger)
        → s.section ≡ taken message
        → append_current nm s.logger message ≡ ok l
        → t ≡ record s { logger = l; section = free; logged = s.logged ++ message }
        → Step s t
    stops : t ≡ record s { logger = stop s.logger } → Step s t
    enters :
        s.phase ≡ top → wants_more s.logger ≡ ok true → t ≡ record s { phase = waiting } → Step s t
    swaps :
        (l : AsyncLogger) (w : Worker)
        → s.phase ≡ waiting
        → s.section ≡ free
        → swap s.logger s.worker ≡ ok (l, w)
        → t ≡ record s { logger = l; worker = w; phase = writing }
        → Step s t
    writes :
        (cs : List Call) (w : Worker)
        → s.phase ≡ writing
        → write_out notice s.worker ≡ ok (cs, w)
        → t ≡ record s {
          worker = w;
          phase = top;
          calls = s.calls ++ cs;
          dropped = s.dropped || ltb 25 (length s.worker.write_buffers);
        }
        → Step s t
    ends :
        s.phase ≡ top
        → wants_more s.logger ≡ ok false
        → t ≡ record s { phase = done; calls = s.calls ++ flushes ∷ [] }
        → Step s t

  pub data Steps (s : System) : System → Type 0 where
    here : Steps s s
    next : {t u : System} → Steps s t → Step t u → Steps s u

  abbrev pub PhaseInv : Phase → Worker → Type 0
  PhaseInv top w = IsRested nm w
  PhaseInv waiting w = IsRested nm w
  PhaseInv writing w = IsBusy nm w
  PhaseInv done w = IsRested nm w

  abbrev pub SectionInv : Section → AsyncLogger → Type 0
  SectionInv free l = IsSound nm l
  SectionInv (moved message) l = Moved nm message l
  SectionInv (taken message) l = Taken nm message l

  -- Unless buffers were dropped, every byte taken in is with the appender, in the hands of the thread,
  -- or pending, in the order in which the messages came in.
  pub record Inv (s : System) : Type 0 where
    pub sound : SectionInv s.section s.logger
    pub thread : PhaseInv s.phase s.worker
    pub balance :
        s.dropped ≡ false
        → s.logged ≡ delivered s.calls ++ (all_bytes s.worker.write_buffers ++ pending s.logger)
