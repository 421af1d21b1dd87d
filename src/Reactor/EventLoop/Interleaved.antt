-- ===== src/Reactor/EventLoop/Interleaved.antt =====
-- The steps of the loop's own thread and the queue, and every interleaving.
use clia.Prelude.{
  ℕ, suc, ◌≡◌, refl, sym, ap, ◌∙◌, Bool, true, false, Bool-cases, inl, inr, ◌&&◌, List, [], ◌∷◌,
  ◌++◌, append-nil, append_assoc, Option, ◌==◌, ok, Returns-ok, ok-bind, some, arith,
}
use clia.Reactor.Channel.{Channel, Events, Callback, handle_event}
use clia.Reactor.Epoller
use clia.Reactor.Epoller.{Epoller, enable_reading, poll}
use clia.Reactor.EventLoop.{
  EventLoop, checks, polls, handles, runs, handle_read, enter, polled, deliver, handle_next, swap,
  run_next, finish, check, update_channel, remove_channel, does_read, may_remove,
}
use clia.Reactor.EventLoop.Queue.{
  left, is_handling, is_running, Reached, created, pushes, wakes, queues, queues_outside, quits,
  enters, poll_returns, handles_next, swaps, runs_next, finishes, checks_quit, updates, removes,
  KeepsQueue, create-KeepsQueue, push-KeepsQueue, wakeup-KeepsQueue, queue_in_loop-KeepsQueue,
  early-KeepsQueue, quit-KeepsQueue,
}

enter-KeepsQueue :
    (q : List ℕ) (w : ℕ) (y : Bool) (s t : EventLoop)
    → KeepsQueue q w y s
    → enter true s ≡ ok t
    → KeepsQueue q w y t
unfolding enter
enter-KeepsQueue q w y s t v h = elim (Bool-cases s.looping) [
  | inl x ↦ cc (rw x at h)
  | inr n ↦
      let idle = v.stopped n in
      Returns-ok (ok (record s { looping = true; quitting = false; phase = checks })) t
        (KeepsQueue q w y)
        (record {
          order = ap (λ f. s.executed ++ (left f ++ s.pending_functors)) (sym idle) ∙ v.order;
          awake = λ i e l. v.awake (ap is_handling idle) e l;
          calling = v.calling ∙ ap is_running idle;
          stopped = λ l. cc;
        })
        (rw n at h)
]

-- While the loop's thread waits in the poll or handles channels it is in `loop`, and calls no functor.
polled-KeepsQueue :
    (q : List ℕ) (w : ℕ) (y : Bool) (s t : EventLoop) (answer : Option (List (ℕ × Events)))
    → KeepsQueue q w y s
    → s.phase ≡ polls
    → polled s answer ≡ ok t
    → KeepsQueue q w y t
unfolding polled
polled-KeepsQueue q w y s t answer v i h =
    let (r, a, b) = ok-bind (poll s.poller answer) h in
    Returns-ok _ t (KeepsQueue q w y)
      (record {
        order = ap (λ f. s.executed ++ (left f ++ s.pending_functors)) (sym i) ∙ v.order;
        awake = λ j e l. cc;
        calling = v.calling ∙ ap is_running i;
        stopped = λ l. cc (v.stopped l);
      })
      b

deliver-KeepsQueue :
    (q : List ℕ) (w : ℕ) (y : Bool) (s : EventLoop) (p : ℕ) (cs : List Callback)
    → KeepsQueue q w y s
    → is_handling s.phase ≡ true
    → KeepsQueue q w y (deliver s p cs)
unfolding deliver handle_read
deliver-KeepsQueue q w y s p cs v h = elim (Bool-cases ((p == s.wakeup_channel) && does_read cs)) [
  | inl x ↦
      rw x
        (record { order = v.order; awake = λ i e l. cc; calling = v.calling; stopped = v.stopped })
  | inr n ↦
      rw n (record { order = v.order; awake = v.awake; calling = v.calling; stopped = v.stopped })
]

handle_next-KeepsQueue :
    (q : List ℕ) (w : ℕ) (y : Bool) (s : EventLoop) (p : ℕ) (rest : List ℕ) (alive : Bool)
    → KeepsQueue q w y s
    → s.phase ≡ handles (p ∷ rest)
    → KeepsQueue q w y (handle_next s p rest alive)
unfolding handle_next
handle_next-KeepsQueue q w y s p rest alive v i =
    deliver-KeepsQueue q w y (record s { current_active_channel = some p; phase = handles rest }) p
      (handle_event alive (s.poller.store p))
      (record {
        order = ap (λ f. s.executed ++ (left f ++ s.pending_functors)) (sym i) ∙ v.order;
        awake = λ j e l. cc;
        calling = v.calling ∙ ap is_running i;
        stopped = λ l. cc (v.stopped l);
      })
      refl

swap-KeepsQueue :
    (q : List ℕ) (w : ℕ) (y : Bool) (s : EventLoop)
    → KeepsQueue q w y s
    → s.phase ≡ handles []
    → KeepsQueue q w false (swap s)
unfolding swap
swap-KeepsQueue q w y s v i = record {
  order =
      ap (◌++◌ s.executed) (append-nil s.pending_functors)
      ∙ (ap (λ f. s.executed ++ (left f ++ s.pending_functors)) (sym i) ∙ v.order);
  awake = λ j e l. absurd (omega arith);
  calling = refl;
  stopped = λ l. cc (v.stopped l);
}

run_next-KeepsQueue :
    (q : List ℕ) (w : ℕ) (y : Bool) (s : EventLoop) (cb : ℕ) (rest : List ℕ)
    → KeepsQueue q w y s
    → s.phase ≡ runs (cb ∷ rest)
    → KeepsQueue q w y (run_next s cb rest)
unfolding run_next
run_next-KeepsQueue q w y s cb rest v i = record {
  order =
      append_assoc s.executed (cb ∷ []) (rest ++ s.pending_functors)
      ∙ (ap (λ f. s.executed ++ (left f ++ s.pending_functors)) (sym i) ∙ v.order);
  awake = λ j e l. v.awake (ap is_handling i) e l;
  calling = v.calling ∙ ap is_running i;
  stopped = λ l. cc (v.stopped l);
}

finish-KeepsQueue :
    (q : List ℕ) (w : ℕ) (y : Bool) (s : EventLoop)
    → KeepsQueue q w y s
    → s.phase ≡ runs []
    → KeepsQueue q w y (finish s)
unfolding finish
finish-KeepsQueue q w y s v i = record {
  order = ap (λ f. s.executed ++ (left f ++ s.pending_functors)) (sym i) ∙ v.order;
  awake = λ j e l. v.awake (ap is_handling i) e l;
  calling = refl;
  stopped = λ l. cc (v.stopped l);
}

check-KeepsQueue :
    (q : List ℕ) (w : ℕ) (y : Bool) (s : EventLoop)
    → KeepsQueue q w y s
    → s.phase ≡ checks
    → KeepsQueue q w y (check s)
unfolding check
check-KeepsQueue q w y s v i =
    let ordered : s.executed ++ s.pending_functors ≡ q =
      ap (λ f. s.executed ++ (left f ++ s.pending_functors)) (sym i) ∙ v.order in
    elim (Bool-cases s.quitting) [
      | inl x ↦ rw x (record {
        order = ordered;
        awake = λ j e l. v.awake (ap is_handling i) e l;
        calling = v.calling ∙ ap is_running i;
        stopped = λ l. refl;
      })
      | inr n ↦ rw n (record {
        order = ordered;
        awake = λ j e l. v.awake (ap is_handling i) e l;
        calling = v.calling ∙ ap is_running i;
        stopped = λ l. cc (v.stopped l);
      })
    ]

poller-KeepsQueue :
    (q : List ℕ) (w : ℕ) (y : Bool) (s : EventLoop) (e : Epoller)
    → KeepsQueue q w y s
    → KeepsQueue q w y (record s { poller = e })
poller-KeepsQueue q w y s e v = record {
  order = v.order;
  awake = v.awake;
  calling = v.calling;
  stopped = v.stopped;
}

update_channel-KeepsQueue :
    (q : List ℕ) (w : ℕ) (y : Bool) (s t : EventLoop) (p : ℕ) (c : Channel)
    → KeepsQueue q w y s
    → update_channel true s p c ≡ ok t
    → KeepsQueue q w y t
unfolding update_channel
update_channel-KeepsQueue q w y s t p c v h =
    let (r, a, b) = ok-bind (Epoller.update_channel s.poller p c) h in
    Returns-ok (ok (record s { poller = r })) t (KeepsQueue q w y) (poller-KeepsQueue q w y s r v) b

remove_channel-KeepsQueue :
    (q : List ℕ) (w : ℕ) (y : Bool) (s t : EventLoop) (p : ℕ) (c : Channel)
    → KeepsQueue q w y s
    → remove_channel true s p c ≡ ok t
    → KeepsQueue q w y t
unfolding remove_channel
remove_channel-KeepsQueue q w y s t p c v h = elim (Bool-cases (may_remove s p)) [
  | inl x ↦
      let (r, a, b) = ok-bind (Epoller.remove_channel s.poller p c) (rw x at h) in
      Returns-ok (ok (record s { poller = r })) t (KeepsQueue q w y) (poller-KeepsQueue q w y s r v)
        b
  | inr n ↦ cc (rw n at h)
]

-- In every interleaving, the functors that ran, those that were taken out of the queue, and those in it
-- are the ones that were queued, in their order. When the loop's thread waits in the poll, or will come to
-- it without another look into the queue, a functor in the queue has made the eventfd readable, or the
-- thread that put it there is about to, unless the loop's own thread has queued outside of `loop` since
-- its last look.
pub Reached-KeepsQueue :
    {q : List ℕ} {w : ℕ} {y : Bool} {s : EventLoop} → Reached q w y s → KeepsQueue q w y s
Reached-KeepsQueue (created {s} e p fd h) = create-KeepsQueue e p fd s h
Reached-KeepsQueue (pushes {q} {w} {y} {s} r cb) = push-KeepsQueue q w y s cb (Reached-KeepsQueue r)
Reached-KeepsQueue (wakes {q} {w} {y} {s} r) =
    wakeup-KeepsQueue q (suc w) w y s (Reached-KeepsQueue r)
Reached-KeepsQueue (queues {q} {w} {y} {s} r cb h) =
    queue_in_loop-KeepsQueue q w y s cb (Reached-KeepsQueue r) h
Reached-KeepsQueue (queues_outside {q} {w} {y} {s} r cb h) =
    early-KeepsQueue q w y s cb (Reached-KeepsQueue r) h
Reached-KeepsQueue (quits {q} {w} {y} {s} r on_loop) =
    quit-KeepsQueue q w y s on_loop (Reached-KeepsQueue r)
Reached-KeepsQueue (enters {q} {w} {y} {s} {t} r h) =
    enter-KeepsQueue q w y s t (Reached-KeepsQueue r) h
Reached-KeepsQueue (poll_returns {q} {w} {y} {s} {t} r i answer h) =
    polled-KeepsQueue q w y s t answer (Reached-KeepsQueue r) i h
Reached-KeepsQueue (handles_next {q} {w} {y} {s} r p rest alive i) =
    handle_next-KeepsQueue q w y s p rest alive (Reached-KeepsQueue r) i
Reached-KeepsQueue (swaps {q} {w} {y} {s} r i) = swap-KeepsQueue q w y s (Reached-KeepsQueue r) i
Reached-KeepsQueue (runs_next {q} {w} {y} {s} r cb rest i) =
    run_next-KeepsQueue q w y s cb rest (Reached-KeepsQueue r) i
Reached-KeepsQueue (finishes {q} {w} {y} {s} r i) =
    finish-KeepsQueue q w y s (Reached-KeepsQueue r) i
Reached-KeepsQueue (checks_quit {q} {w} {y} {s} r i) =
    check-KeepsQueue q w y s (Reached-KeepsQueue r) i
Reached-KeepsQueue (updates {q} {w} {y} {s} {t} r p c h) =
    update_channel-KeepsQueue q w y s t p c (Reached-KeepsQueue r) h
Reached-KeepsQueue (removes {q} {w} {y} {s} {t} r p c h) =
    remove_channel-KeepsQueue q w y s t p c (Reached-KeepsQueue r) h
