-- ===== src/Log/AsyncLogger/Tests.antt =====
-- The theorems on `AsyncLogger` at a run with buffers of four bytes.
use clia.Prelude.{
  ℕ, ◌<◌, ◌≡◌, refl, List, [], ◌∷◌, ◌++◌, length, ltb, ◌||◌, Outcome, ok, err, Fault, Option, some,
  none, false, Returns, arith, overwrite,
}
use clia.Container.FixedBuffer
use clia.Log.AsyncLogger.{
  Buffer, new_buffer, create, append_to, replacement, log_into, log_locked, stop, wants_more,
  is_filled, move_full, take_next, append_current, hand_over, swap_from, swap, pop_back, refill,
  write_all, cut, write_out,
}
use clia.Log.AsyncLogger.Buffers.{IsSound, all_bytes, pending}
use clia.Log.AsyncLogger.Delivery.{delivered, IsRested}
use clia.Log.AsyncLogger.System.{
  System, free, moved, taken, moves, takes, top, waiting, writing, start, inserts, stops, enters,
  swaps, writes, Steps, here, next,
}
use clia.Log.AsyncLogger.NoLoss.{no_byte_lost, complete_at_end, never_faults}
use clia.Log.AsyncLogger.Leaving.{leaves_early}

abbrev no_notice : ℕ → List ℕ
no_notice k = []

-- The value of a call, or `a` if it faults.
abbrev value_or {ℓ} : {A : Type ℓ} → A → Outcome A → A
value_or a (ok b) = b
value_or a (err e) = a

-- The buffer that a pointer holds.
abbrev filled_buffer : Option Buffer → Buffer
filled_buffer none = new_buffer 4
filled_buffer (some b) = b

abbrev inserted : System → List ℕ → System
inserted s message = record s {
  logger = value_or s.logger (log_locked 4 s.logger message);
  logged = s.logged ++ message;
}

-- Two messages, of which the second does not fit behind the first.
abbrev queued : System
queued = inserted (inserted (start 4 0) (1 ∷ 2 ∷ [])) (3 ∷ 4 ∷ 5 ∷ [])

abbrev swapped : System
swapped =
    let (l, w) = value_or (queued.logger, queued.worker) (swap queued.logger queued.worker) in
    record queued { logger = l; worker = w; phase = writing }

abbrev written : System
written =
    let (cs, w) = value_or ([], swapped.worker) (write_out no_notice swapped.worker) in
    record swapped {
      worker = w;
      phase = top;
      calls = swapped.calls ++ cs;
      dropped = swapped.dropped || ltb 25 (length swapped.worker.write_buffers);
    }

abbrev stopped : System
stopped = record written { logger = stop written.logger }

to_queued : Steps 4 no_notice (start 4 0) queued
unfolding start create new_buffer FixedBuffer.create log_locked log_into append_to replacement
    FixedBuffer.append FixedBuffer.append_copy FixedBuffer.add overwrite
to_queued =
    next (next here (inserts (1 ∷ 2 ∷ []) _ (omega arith) (omega arith) refl refl refl))
      (inserts (3 ∷ 4 ∷ 5 ∷ []) _ (omega arith) (omega arith) refl refl refl)

to_stopped : Steps 4 no_notice (start 4 0) stopped
unfolding start create new_buffer FixedBuffer.create log_locked log_into append_to replacement
    FixedBuffer.append FixedBuffer.append_copy FixedBuffer.add overwrite wants_more is_filled swap
    swap_from hand_over write_out cut refill pop_back write_all FixedBuffer.reset stop
to_stopped =
    next
      (next (next (next to_queued (enters refl refl refl)) (swaps _ _ refl refl refl refl))
        (writes _ _ refl refl refl))
      (stops refl)

no_byte_lost_example :
    queued.logged
    ≡ delivered queued.calls ++ (all_bytes queued.worker.write_buffers ++ pending queued.logger)
unfolding start
no_byte_lost_example = no_byte_lost 4 no_notice (omega arith) 0 to_queued refl

complete_at_end_example : delivered stopped.calls ≡ 1 ∷ 2 ∷ 3 ∷ 4 ∷ 5 ∷ []
unfolding start create new_buffer FixedBuffer.create log_locked log_into append_to replacement
    FixedBuffer.append FixedBuffer.append_copy FixedBuffer.add overwrite wants_more is_filled swap
    swap_from hand_over write_out cut refill pop_back write_all FixedBuffer.reset stop
complete_at_end_example = complete_at_end 4 no_notice (omega arith) 0 to_stopped refl refl refl refl

never_faults_example :
    (queued.section ≡ free
      → (message : List ℕ) → 0 < length message
      → length message < 4
      → Returns (log_locked 4 queued.logger message) (IsSound 4))
    × (queued.phase ≡ waiting
        → queued.section ≡ free
        → Returns (swap queued.logger queued.worker) (λ r. IsSound 4 r.0))
    × (queued.phase ≡ writing → Returns (write_out no_notice queued.worker) (λ r. IsRested 4 r.1))
    × ((message : List ℕ)
        → queued.section ≡ taken message
        → Returns (append_current 4 queued.logger message) (IsSound 4))
never_faults_example = never_faults 4 no_notice (omega arith) 0 to_queued

-- A stop while a producer is between the moves of the buffers.
abbrev filled : System
filled = inserted (start 4 0) (1 ∷ 2 ∷ [])

abbrev halfway : System
halfway = record filled {
  logger = stop (take_next 4 (move_full 4 filled.logger (filled_buffer filled.logger.current)));
  section = taken (3 ∷ 4 ∷ 5 ∷ []);
}

to_halfway : Steps 4 no_notice (start 4 0) halfway
unfolding start create new_buffer FixedBuffer.create log_locked log_into append_to replacement
    FixedBuffer.append FixedBuffer.append_copy FixedBuffer.add overwrite stop
to_halfway =
    next
      (next
        (next (next here (inserts (1 ∷ 2 ∷ []) _ (omega arith) (omega arith) refl refl refl)) (
          moves (3 ∷ 4 ∷ 5 ∷ []) (filled_buffer filled.logger.current) (omega arith) (omega arith)
            refl refl refl refl))
        (takes (3 ∷ 4 ∷ 5 ∷ []) refl refl))
      (stops refl)

leaves_early_example :
    ((message : List ℕ)
      → halfway.section ≡ taken message
      → (wants_more halfway.logger ≡ ok false)
        × (halfway.dropped ≡ false → length (delivered halfway.calls) < length halfway.logged))
    × ((message : List ℕ)
        → halfway.section ≡ moved message
        → wants_more halfway.logger ≡ err Fault.bad_access)
unfolding start stop
leaves_early_example = leaves_early 4 no_notice (omega arith) 0 to_halfway refl refl
