-- ===== src/Log/AsyncLogger/NoLoss.antt =====
-- Where the bytes are in every interleaving of the producers and the thread of an `AsyncLogger`.
use clia.Prelude.{
  not, ◌==◌, ok, ℕ, ◌<◌, ◌≤◌, ◌≡◌, refl, sym, ap, ◌∙◌, subst, Bool, true, false, ◌||◌, Option, some,
  none, List, [], ◌∷◌, ◌++◌, length, ltb, Returns, Returns-ok, Returns-mono, take, arith, max_size,
  append_assoc, append-nil,
}
use clia.Log.AsyncLogger.{
  AsyncLogger, Buffer, Worker, Call, flushes, log_locked, stop, wants_more, swap, write_out,
  is_filled, move_full, take_next, append_current,
}
use clia.Container.FixedBuffer
use clia.Log.AsyncLogger.Buffers.{
  all_bytes, pending, bytes_of, IsSound, Logged, create-IsSound, log_locked-Logged,
  new_buffer-Holds, Points,
}
use clia.Log.AsyncLogger.Delivery.{
  delivered, delivered-append, IsRested, Swapped, swap-Swapped, Wrote, write_out-Wrote,
}
use clia.Log.AsyncLogger.Partway.{Partway, move_full-Moved, take_next-Taken, append_current-Logged}
use clia.Log.AsyncLogger.System.{
  Section, free, moved, taken, moves, takes, appends_moved, SectionInv, System, top, waiting,
  writing, start, Step, inserts, stops, enters, swaps, writes, ends, Steps, here, next, PhaseInv,
  Inv,
}

pub IsRested-nothing : (nm : ℕ) (w : Worker) → IsRested nm w → all_bytes w.write_buffers ≡ []
IsRested-nothing nm w v = rw v.written

or_eq_false : (a b : Bool) → (a || b) ≡ false → (a ≡ false) × (b ≡ false)
or_eq_false a b h = ground arith

module _ (nm : ℕ) (notice : ℕ → List ℕ) (small : nm ≤ max_size) where
  pub start-Inv : (level : ℕ) → Inv nm notice (start nm level)
  unfolding start
  start-Inv level = record {
    sound = (create-IsSound nm small level).0;
    thread = record {
      first = new_buffer-Holds nm small;
      second = new_buffer-Holds nm small;
      written = refl;
    };
    balance = λ _. sym (create-IsSound nm small level).1;
  }

  inserts-Inv :
      (s : System) (message : List ℕ) (l : AsyncLogger)
      → Inv nm notice s
      → Logged nm small s.logger message l
      → Inv nm notice (record s { logger = l; section = free; logged = s.logged ++ message })
  inserts-Inv s message l v k = record {
    sound = k.sound;
    thread = v.thread;
    balance = λ d.
        rw (v.balance d, k.queued)
          (append_assoc (delivered s.calls) _ message
            ∙ ap (◌++◌ (delivered s.calls))
                (append_assoc (all_bytes s.worker.write_buffers) (pending s.logger) message));
  }

  stop-IsSound : (s : AsyncLogger) → IsSound nm s → IsSound nm (stop s)
  unfolding stop
  stop-IsSound s v = record {
    current_valid = v.current_valid;
    next_blank = v.next_blank;
    buffers_valid = v.buffers_valid;
    spare_waits = v.spare_waits;
    current_used = v.current_used;
  }

  stop-Partway :
      (s : AsyncLogger) (message : List ℕ) → Partway nm message s → Partway nm message (stop s)
  unfolding stop
  stop-Partway s message v = record {
    pos = v.pos;
    short = v.short;
    next_blank = v.next_blank;
    buffers_valid = v.buffers_valid;
    waits = v.waits;
    full = v.full;
  }

  stop-SectionInv :
      (c : Section) (s : AsyncLogger) → SectionInv nm notice c s → SectionInv nm notice c (stop s)
  unfolding stop
  stop-SectionInv free s v = stop-IsSound s v
  stop-SectionInv (moved message) s v = record {
    partway = stop-Partway s message v.partway;
    current_null = v.current_null;
  }
  stop-SectionInv (taken message) s v = record {
    partway = stop-Partway s message v.partway;
    current_blank = v.current_blank;
    next_null = v.next_null;
  }

  -- A move of the buffers in `log` keeps the bytes that are pending.
  within-Inv :
      (s : System) (c : Section) (l : AsyncLogger)
      → Inv nm notice s
      → SectionInv nm notice c l
      → pending l ≡ pending s.logger
      → Inv nm notice (record s { logger = l; section = c })
  within-Inv s c l v k e = record {
    sound = k;
    thread = v.thread;
    balance = λ d. rw e (v.balance d);
  }

  stops-Inv : (s : System) → Inv nm notice s → Inv nm notice (record s { logger = stop s.logger })
  unfolding stop
  stops-Inv s v = record {
    sound = stop-SectionInv s.section s.logger v.sound;
    thread = v.thread;
    balance = v.balance;
  }

  swaps-Inv :
      (s : System) (r : AsyncLogger × Worker)
      → Inv nm notice s
      → s.section ≡ free
      → IsRested nm s.worker
      → Swapped nm s.logger r
      → Inv nm notice (record s { logger = r.0; worker = r.1; phase = writing })
  swaps-Inv s r v f idle k = record {
    sound = subst (λ c. SectionInv nm notice c r.0) (sym f) k.sound;
    thread = k.busy;
    balance = λ d.
        rw
          (
            v.balance d,
            k.taken,
            k.emptied,
            IsRested-nothing nm s.worker idle,
            append-nil (pending s.logger),
          )
          refl;
  }

  writes-Inv :
      (s : System) (cs : List Call) (w : Worker)
      → Inv nm notice s
      → Wrote nm notice s.worker (cs, w)
      → Inv nm notice (record s {
        worker = w;
        phase = top;
        calls = s.calls ++ cs;
        dropped = s.dropped || ltb 25 (length s.worker.write_buffers);
      })
  writes-Inv s cs w v k = record {
    sound = v.sound;
    thread = k.rested;
    balance = λ d.
        let (d1, d2) = or_eq_false s.dropped (ltb 25 (length s.worker.write_buffers)) d in
        v.balance d1
        ∙ sym
            (append_assoc (delivered s.calls) (all_bytes s.worker.write_buffers) (pending s.logger))
        ∙ rw (delivered-append s.calls cs, IsRested-nothing nm w k.rested, k.bytes, d2) refl;
  }

  at_rest : (s : System) → Inv nm notice s → s.section ≡ free → IsSound nm s.logger
  at_rest s v c = subst (λ q. SectionInv nm notice q s.logger) c v.sound

  -- Every step keeps the invariant.
  pub Step-Inv : {s t : System} → Step nm notice s t → Inv nm notice s → Inv nm notice t
  Step-Inv {s} (inserts message l pos short c e f) v = subst (Inv nm notice) (sym f) (
      subst
        (λ q. Inv nm notice (record s { logger = l; section = q; logged = s.logged ++ message }))
        (sym c)
        (inserts-Inv s message l v (
          Returns-ok _ l _ (log_locked-Logged nm small s.logger message (at_rest s v c) pos short)
            e)))
  Step-Inv {s} (moves message b pos short c e full f) v = subst (Inv nm notice) (sym f) (
      let (k, same) =
        move_full-Moved nm small s.logger message b (at_rest s v c) pos short e full in
      within-Inv s (moved message) (move_full nm s.logger b) v k same)
  Step-Inv {s} (takes message c f) v = subst (Inv nm notice) (sym f) (
      let half = subst (λ q. SectionInv nm notice q s.logger) c v.sound in
      let (k, same) = take_next-Taken nm small s.logger message half in
      within-Inv s (taken message) (take_next nm s.logger) v k same)
  Step-Inv {s} (appends_moved message l c e f) v = subst (Inv nm notice) (sym f) (
      let half = subst (λ q. SectionInv nm notice q s.logger) c v.sound in
      inserts-Inv s message l v
        (Returns-ok _ l _ (append_current-Logged nm small s.logger message half) e))
  Step-Inv {s} (stops f) v = subst (Inv nm notice) (sym f) (stops-Inv s v)
  Step-Inv {s} (enters p m f) v = subst (Inv nm notice) (sym f) (record {
    sound = v.sound;
    thread = subst (λ q. PhaseInv nm notice q s.worker) p v.thread;
    balance = v.balance;
  })
  Step-Inv {s} (swaps l w p c e f) v =
      let idle = subst (λ q. PhaseInv nm notice q s.worker) p v.thread in
      subst (Inv nm notice) (sym f) (
        swaps-Inv s (l, w) v c idle
          (Returns-ok _ (l, w) _ (swap-Swapped nm s.logger s.worker (at_rest s v c) idle) e))
  Step-Inv {s} (writes cs w p e f) v =
      let busy = subst (λ q. PhaseInv nm notice q s.worker) p v.thread in
      subst (Inv nm notice) (sym f)
        (writes-Inv s cs w v (Returns-ok _ (cs, w) _ (write_out-Wrote nm notice s.worker busy) e))
  Step-Inv {s} (ends p m f) v = subst (Inv nm notice) (sym f) (record {
    sound = v.sound;
    thread = subst (λ q. PhaseInv nm notice q s.worker) p v.thread;
    balance = λ d.
        v.balance d
        ∙ rw (delivered-append s.calls (flushes ∷ []), append-nil (delivered s.calls)) refl;
  })

  pub Steps-Inv : {s t : System} → Inv nm notice s → Steps nm notice s t → Inv nm notice t
  Steps-Inv v here = v
  Steps-Inv v (next r st) = Step-Inv st (Steps-Inv v r)

  -- In every interleaving of producers and thread, unless an iteration dropped buffers, the bytes
  -- taken in are those that the appender got, then those in the hands of the thread, then those
  -- pending: none is lost, doubled or moved before another.
  pub no_byte_lost :
      (level : ℕ) {s : System}
      → Steps nm notice (start nm level) s
      → s.dropped ≡ false
      → s.logged ≡ delivered s.calls ++ (all_bytes s.worker.write_buffers ++ pending s.logger)
  no_byte_lost level r d = (Steps-Inv (start-Inv level) r).balance d

  quiet_buffers :
      (s : AsyncLogger) (bs : List Buffer)
      → s.buffers ≡ bs
      → IsSound nm s
      → bytes_of s.current ≡ []
      → bs ≡ []
  quiet_buffers s [] e v h = refl
  quiet_buffers s (b ∷ bs) e v h = absurd (v.current_used (λ f. cc) h)

  empty_bytes : (o : Option Buffer) → Points nm o → is_filled o ≡ ok false → bytes_of o ≡ []
  unfolding is_filled
  empty_bytes none v h = absurd v
  empty_bytes (some b) v h =
      let e : FixedBuffer.size b ≡ 0 = size_none (FixedBuffer.size b) h in
      ap (λ n. take n b.items) e
    where
      size_none : (n : ℕ) → ok (not (n == 0)) ≡ ok false → n ≡ 0
      size_none n h = let e : not (n == 0) ≡ false = cc in ground arith

  pub stopped_test :
      (s : AsyncLogger) (o : Bool)
      → wants_more s ≡ ok false
      → s.running ≡ o
      → is_filled s.current ≡ ok false
  unfolding wants_more
  stopped_test s true m e = cc (rw e at m)
  stopped_test s false m e = rw e at m

  wants_nothing : (s : AsyncLogger) → IsSound nm s → wants_more s ≡ ok false → pending s ≡ []
  wants_nothing s v m =
      let blank = empty_bytes s.current v.current_valid (stopped_test s s.running m refl) in
      rw (quiet_buffers s s.buffers refl v blank) blank

  -- When the thread leaves its loop while no producer is between the moves of the buffers in `log`,
  -- unless an iteration dropped buffers, the appender has got every byte that was taken in until then.
  pub complete_at_end :
      (level : ℕ) {s : System}
      → Steps nm notice (start nm level) s
      → s.phase ≡ top
      → s.section ≡ free
      → wants_more s.logger ≡ ok false
      → s.dropped ≡ false
      → delivered s.calls ≡ s.logged
  complete_at_end level {s} r p c m d =
      let v = Steps-Inv (start-Inv level) r in
      let idle = subst (λ q. PhaseInv nm notice q s.worker) p v.thread in
      sym (
        v.balance d
        ∙ rw
            (
              IsRested-nothing nm s.worker idle,
              wants_nothing s.logger (at_rest s v c) m,
              append-nil (delivered s.calls),
            )
            refl)

  -- In every reachable state in which nobody is between the moves of the buffers in `log` a producer
  -- can log any message shorter than a buffer, and there and in the others the thread passes the
  -- assertions of its next section, and a producer between the moves ends its own: no null pointer, no
  -- spare buffer missing or filled.
  pub never_faults :
      (level : ℕ) {s : System}
      → Steps nm notice (start nm level) s
      → (s.section ≡ free
          → (message : List ℕ) → 0 < length message
          → length message < nm
          → Returns (log_locked nm s.logger message) (IsSound nm))
        × (s.phase ≡ waiting
            → s.section ≡ free
            → Returns (swap s.logger s.worker) (λ r. IsSound nm r.0))
        × (s.phase ≡ writing → Returns (write_out notice s.worker) (λ r. IsRested nm r.1))
        × ((message : List ℕ)
            → s.section ≡ taken message
            → Returns (append_current nm s.logger message) (IsSound nm))
  never_faults level {s} r =
      let v = Steps-Inv (start-Inv level) r in
      (
        λ c message pos short.
            Returns-mono _ _ (IsSound nm)
              (log_locked-Logged nm small s.logger message (at_rest s v c) pos short)
              (λ l k. k.sound),
        λ p c.
            Returns-mono _ _ (λ r. IsSound nm r.0)
              (swap-Swapped nm s.logger s.worker (at_rest s v c)
                (subst (λ q. PhaseInv nm notice q s.worker) p v.thread))
              (λ r k. k.sound),
        λ p.
            Returns-mono _ _ (λ r. IsRested nm r.1)
              (write_out-Wrote nm notice s.worker
                (subst (λ q. PhaseInv nm notice q s.worker) p v.thread))
              (λ r k. k.rested),
        λ message c.
            Returns-mono _ _ (IsSound nm)
              (append_current-Logged nm small s.logger message
                (subst (λ q. SectionInv nm notice q s.logger) c v.sound))
              (λ l k. k.sound),
      )
