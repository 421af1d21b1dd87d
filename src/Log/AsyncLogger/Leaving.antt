-- ===== src/Log/AsyncLogger/Leaving.antt =====
-- The test of the loop of `sync_thread` between the moves of the buffers in `log`.
use clia.Prelude.{
  ℕ, ◌<◌, ◌≤◌, ◌≡◌, refl, ap, ◌∙◌, subst, false, Option, some, none, List, ◌++◌, length,
  length-append, ok, err, Fault, arith, max_size,
}
use clia.Container.FixedBuffer
use clia.Container.FixedBuffer.Contents.{size-length}
use clia.Log.AsyncLogger.{AsyncLogger, Buffer, is_filled, wants_more}
use clia.Log.AsyncLogger.Buffers.{all_bytes, bytes_of, pending, Blank}
use clia.Log.AsyncLogger.Delivery.{delivered}
use clia.Log.AsyncLogger.System.{System, moved, taken, top, start, Steps, PhaseInv, SectionInv}
use clia.Log.AsyncLogger.NoLoss.{IsRested-nothing, start-Inv, Steps-Inv}

module _ (nm : ℕ) (notice : ℕ → List ℕ) (small : nm ≤ max_size) where
  is_filled-Blank : (o : Option Buffer) → Blank nm o → is_filled o ≡ ok false
  unfolding is_filled
  is_filled-Blank none v = absurd v
  is_filled-Blank (some b) v =
      let empty : FixedBuffer.size b ≡ 0 =
        omega (arith, size-length nm b v.valid, ap length v.elements) in
      rw empty refl

  stopped_by : (s : AsyncLogger) → s.running ≡ false → wants_more s ≡ is_filled s.current
  unfolding wants_more
  stopped_by s h = rw h refl

  null_test : (s : AsyncLogger) → s.current ≡ none → is_filled s.current ≡ err Fault.bad_access
  unfolding is_filled
  null_test s e = rw e refl

  -- After the stop, the test of the loop, which takes no mutex, can come while a producer that passed
  -- the test of `running_` before is between the moves of the buffers: when it has moved the full buffer
  -- and taken the next, the thread leaves, and, unless an iteration dropped buffers, bytes that were
  -- taken in have not come to the appender; when it has moved the full one alone, the test uses a null
  -- pointer.
  pub leaves_early :
      (level : ℕ) {s : System}
      → Steps nm notice (start nm level) s
      → s.phase ≡ top
      → s.logger.running ≡ false
      → ((message : List ℕ)
          → s.section ≡ taken message
          → (wants_more s.logger ≡ ok false)
            × (s.dropped ≡ false → length (delivered s.calls) < length s.logged))
        × ((message : List ℕ)
            → s.section ≡ moved message
            → wants_more s.logger ≡ err Fault.bad_access)
  leaves_early level {s} r p h =
      let v = Steps-Inv nm notice small (start-Inv nm notice small level) r in
      let idle = subst (λ q. PhaseInv nm notice q s.worker) p v.thread in
      (
        λ message c.
            let half = subst (λ q. SectionInv nm notice q s.logger) c v.sound in
            (
              stopped_by s.logger h ∙ is_filled-Blank s.logger.current half.current_blank,
              λ d. omega (
                arith,
                half.partway.full,
                ap length (v.balance d),
                ap length (IsRested-nothing nm s.worker idle),
                length-append (delivered s.calls)
                    (all_bytes s.worker.write_buffers ++ pending s.logger),
                length-append (all_bytes s.worker.write_buffers) (pending s.logger),
                length-append (all_bytes s.logger.buffers) (bytes_of s.logger.current),
              ),
            ),
        λ message c.
            let half = subst (λ q. SectionInv nm notice q s.logger) c v.sound in
            stopped_by s.logger h ∙ null_test s.logger half.current_null,
      )
