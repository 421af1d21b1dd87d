-- ===== src/Log/Pipeline/Tests.antt =====
-- The theorem on the pipeline at one message of two bytes, in buffers of four.
use clia.Prelude.{
  ℕ, ◌+◌, ◌/◌, ◌%◌, ◌≡◌, refl, true, false, inl, ltb, ◌||◌, List, [], ◌∷◌, ◌++◌, length, codes,
  none, Outcome, ok, err, Returns, overwrite, arith,
}
use clia.Util.Timestamp.{Tm}
use clia.Container.FixedBuffer
use clia.Log.AsyncLogger
use clia.Log.AsyncLogger.{
  new_buffer, append_to, replacement, log_into, log_locked, stop, wants_more, is_filled, hand_over,
  swap_from, swap, pop_back, refill, write_all, cut, write_out,
}
use clia.Log.AsyncLogger.System.{
  System, top, writing, start, inserts, stops, enters, swaps, writes, Steps, here, next,
}
use clia.Log.FileAppender.{RollAnswers}
use clia.Log.FileAppender
use clia.Log.FileAppender.Writing.{text}
use clia.Log.FileAppender.Rolling.{Ends}
use clia.Log.Pipeline.{Request, asks_append, asks_flush, serve_all}
use clia.Log.Pipeline.Written.{serve_all-logged}

abbrev value_or {ℓ} : {A : Type ℓ} → A → Outcome A → A
value_or a (ok b) = b
value_or a (err e) = a

abbrev no_notice : ℕ → List ℕ
no_notice k = []

abbrev queued : System
queued = record (start 4 0) {
  logger = value_or (start 4 0).logger (log_locked 4 (start 4 0).logger (1 ∷ 2 ∷ []));
  logged = 1 ∷ 2 ∷ [];
}

abbrev swapped : System
swapped =
    let (l, w) = value_or (queued.logger, queued.worker) (swap queued.logger queued.worker) in
    record queued { logger = l; worker = w; phase = writing }

abbrev stopped : System
stopped =
    let (cs, w) = value_or ([], swapped.worker) (write_out no_notice swapped.worker) in
    record swapped {
      worker = w;
      phase = top;
      calls = swapped.calls ++ cs;
      dropped = swapped.dropped || ltb 25 (length swapped.worker.write_buffers);
      logger = stop swapped.logger;
    }

to_stopped : Steps 4 no_notice (start 4 0) stopped
unfolding start AsyncLogger.create new_buffer FixedBuffer.create log_locked log_into append_to
    replacement FixedBuffer.append FixedBuffer.append_copy FixedBuffer.add overwrite wants_more
    is_filled swap swap_from hand_over write_out cut refill pop_back write_all FixedBuffer.reset
    stop
to_stopped =
    next
      (next
        (next
          (next (next here (inserts (1 ∷ 2 ∷ []) _ (omega arith) (omega arith) refl refl refl))
            (enters refl refl refl))
          (swaps _ _ refl refl refl refl))
        (writes _ _ refl refl refl))
      (stops refl)

-- A calendar of one month.
abbrev calendar : ℕ → Tm
calendar t = record {
  tm_year = 119;
  tm_mon = 4;
  tm_mday = 1 + t / 86400;
  tm_hour = t / 3600 % 24;
  tm_min = t / 60 % 60;
  tm_sec = t % 60;
}

abbrev rolled_at : ℕ → RollAnswers
rolled_at t = record { now = t; name_time = t; delete_time = t; is_opened = true; entries = none }

-- Written in two calls.
abbrev requests : List Request
requests =
    asks_append (record {
      buf = 1 ∷ 2 ∷ [];
      check_time = 10;
      roll = rolled_at 10;
      answers = (1, false) ∷ (1, false) ∷ [];
    })
    ∷ asks_flush
    ∷ []

serve_all-logged_example :
    Returns
      (FileAppender.create calendar 7 (codes "/tmp") (codes "a") 2 1 180 1024 true (rolled_at 9))
      (λ f. Ends (serve_all calendar 7 f requests) (λ f'. text f'.calls ≡ 1 ∷ 2 ∷ []))
unfolding start AsyncLogger.create new_buffer FixedBuffer.create log_locked log_into append_to
    replacement FixedBuffer.append FixedBuffer.append_copy FixedBuffer.add overwrite wants_more
    is_filled swap swap_from hand_over write_out cut refill pop_back write_all FixedBuffer.reset
    stop
serve_all-logged_example =
    serve_all-logged calendar 7 4 no_notice 0 (codes "/tmp") (codes "a") 2 1 180 1024 true
      (rolled_at 9) requests (omega arith) to_stopped refl refl refl refl refl (omega arith)
      (
        (
          (omega arith, inl (omega arith), (omega arith, inl (omega arith), tt)),
          (refl, (refl, tt)),
          omega arith,
        ),
        tt,
      )
