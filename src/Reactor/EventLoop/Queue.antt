-- ===== src/Reactor/EventLoop/Queue.antt =====
-- The queue of functors under every interleaving of the loop's thread and others. A call of
-- `queue_in_loop` by another thread is two steps: the section under the mutex, and the wakeup.
use clia.Prelude.{
  ℕ, suc, ◌+◌, ◌<◌, ◌≡◌, refl, sym, ap, ◌∙◌, Bool, true, false, ◌||◌, List, [], ◌∷◌, ◌++◌,
  append_assoc, length, Option, if◌then◌else◌, ok, Returns-ok, ok-bind, arith,
}
use clia.Reactor.Channel.{Channel, Events}
use clia.Reactor.Epoller.{Epoller, enable_reading}
use clia.Reactor.EventLoop.{
  EventLoop, Phase, outside, checks, polls, handles, runs, create, push, wakeup, queue_in_loop,
  quit, enter, polled, handle_next, swap, run_next, finish, check, update_channel, remove_channel,
}

-- The functors that were taken out of the queue and did not run yet.
abbrev pub left : Phase → List ℕ
left outside = []
left checks = []
left polls = []
left (handles ps) = []
left (runs cbs) = cbs

abbrev pub is_handling : Phase → Bool
is_handling outside = false
is_handling checks = false
is_handling polls = false
is_handling (handles ps) = true
is_handling (runs cbs) = false

abbrev pub is_running : Phase → Bool
is_running outside = false
is_running checks = false
is_running polls = false
is_running (handles ps) = false
is_running (runs cbs) = true

-- `Reached queued waking early s`: the functors `queued` were put into the queue, in this order, and
-- `waking` other threads stand before the wakeup that follows. A functor or a callback on the loop's own
-- thread may queue as well, change channels, and quit. `early` tells whether the loop's own thread has
-- queued outside of `loop` since it looked into the queue last.
pub data Reached : List ℕ → ℕ → Bool → EventLoop → Type 0 where
  created :
      {s : EventLoop} (e : Epoller) (p fd : ℕ) → create false e p fd ≡ ok s → Reached [] 0 false s
  pushes :
      {q : List ℕ} {w : ℕ} {y : Bool} {s : EventLoop}
      → Reached q w y s
      → (cb : ℕ) → Reached (q ++ cb ∷ []) (suc w) y (push s cb)
  wakes :
      {q : List ℕ} {w : ℕ} {y : Bool} {s : EventLoop}
      → Reached q (suc w) y s
      → Reached q w y (wakeup s)
  queues :
      {q : List ℕ} {w : ℕ} {y : Bool} {s : EventLoop}
      → Reached q w y s
      → (cb : ℕ) → (is_handling s.phase || is_running s.phase) ≡ true
      → Reached (q ++ cb ∷ []) w y (queue_in_loop true s cb)
  queues_outside :
      {q : List ℕ} {w : ℕ} {y : Bool} {s : EventLoop}
      → Reached q w y s
      → (cb : ℕ) → s.phase ≡ outside
      → Reached (q ++ cb ∷ []) w true (queue_in_loop true s cb)
  quits :
      {q : List ℕ} {w : ℕ} {y : Bool} {s : EventLoop}
      → Reached q w y s
      → (on_loop : Bool) → Reached q w y (quit on_loop s)
  enters :
      {q : List ℕ} {w : ℕ} {y : Bool} {s t : EventLoop}
      → Reached q w y s
      → enter true s ≡ ok t
      → Reached q w y t
  poll_returns :
      {q : List ℕ} {w : ℕ} {y : Bool} {s t : EventLoop}
      → Reached q w y s
      → s.phase ≡ polls
      → (answer : Option (List (ℕ × Events))) → polled s answer ≡ ok t
      → Reached q w y t
  handles_next :
      {q : List ℕ} {w : ℕ} {y : Bool} {s : EventLoop}
      → Reached q w y s
      → (p : ℕ) (rest : List ℕ) (alive : Bool) → s.phase ≡ handles (p ∷ rest)
      → Reached q w y (handle_next s p rest alive)
  swaps :
      {q : List ℕ} {w : ℕ} {y : Bool} {s : EventLoop}
      → Reached q w y s
      → s.phase ≡ handles []
      → Reached q w false (swap s)
  runs_next :
      {q : List ℕ} {w : ℕ} {y : Bool} {s : EventLoop}
      → Reached q w y s
      → (cb : ℕ) (rest : List ℕ) → s.phase ≡ runs (cb ∷ rest)
      → Reached q w y (run_next s cb rest)
  finishes :
      {q : List ℕ} {w : ℕ} {y : Bool} {s : EventLoop}
      → Reached q w y s
      → s.phase ≡ runs []
      → Reached q w y (finish s)
  checks_quit :
      {q : List ℕ} {w : ℕ} {y : Bool} {s : EventLoop}
      → Reached q w y s
      → s.phase ≡ checks
      → Reached q w y (check s)
  updates :
      {q : List ℕ} {w : ℕ} {y : Bool} {s t : EventLoop}
      → Reached q w y s
      → (p : ℕ) (c : Channel) → update_channel true s p c ≡ ok t
      → Reached q w y t
  removes :
      {q : List ℕ} {w : ℕ} {y : Bool} {s t : EventLoop}
      → Reached q w y s
      → (p : ℕ) (c : Channel) → remove_channel true s p c ≡ ok t
      → Reached q w y t

-- `order`: the functors run in the order in which they were queued. `awake`: unless the thread is
-- handling channels, after which it looks into the queue, or has queued outside of `loop`, a functor in the queue has the eventfd
-- readable, or a thread that is about to write to it.
pub record KeepsQueue (q : List ℕ) (w : ℕ) (y : Bool) (s : EventLoop) : Type 0 where
  pub order : s.executed ++ (left s.phase ++ s.pending_functors) ≡ q
  pub awake :
      is_handling s.phase ≡ false
      → y ≡ false
      → 0 < length s.pending_functors
      → 0 < s.wakeup_count + w
  pub calling : s.calling_pending_functors ≡ is_running s.phase
  pub stopped : s.looping ≡ false → s.phase ≡ outside

pub create-KeepsQueue :
    (e : Epoller) (p fd : ℕ) (s : EventLoop) → create false e p fd ≡ ok s → KeepsQueue [] 0 false s
unfolding create
create-KeepsQueue e p fd s h =
    let (e', a, b) = ok-bind (enable_reading _ p) h in
    Returns-ok _ s (KeepsQueue [] 0 false)
      (record { order = refl; awake = λ i e l. l; calling = refl; stopped = λ l. refl }) b

queued_behind :
    (s : EventLoop) (q : List ℕ) (cb : ℕ)
    → s.executed ++ (left s.phase ++ s.pending_functors) ≡ q
    → s.executed ++ (left s.phase ++ (s.pending_functors ++ cb ∷ [])) ≡ q ++ cb ∷ []
queued_behind s q cb h =
    ap (◌++◌ s.executed) (sym (append_assoc (left s.phase) s.pending_functors (cb ∷ [])))
    ∙ (sym (append_assoc s.executed (left s.phase ++ s.pending_functors) (cb ∷ []))
        ∙ ap (λ r. r ++ cb ∷ []) h)

pub push-KeepsQueue :
    (q : List ℕ) (w : ℕ) (y : Bool) (s : EventLoop) (cb : ℕ)
    → KeepsQueue q w y s
    → KeepsQueue (q ++ cb ∷ []) (suc w) y (push s cb)
unfolding push
push-KeepsQueue q w y s cb v = record {
  order = queued_behind s q cb v.order;
  awake = λ i e l. omega arith;
  calling = v.calling;
  stopped = v.stopped;
}

pub wakeup-KeepsQueue :
    (q : List ℕ) (w u : ℕ) (y : Bool) (s : EventLoop)
    → KeepsQueue q w y s
    → KeepsQueue q u y (wakeup s)
unfolding wakeup
wakeup-KeepsQueue q w u y s v = record {
  order = v.order;
  awake = λ i e l. omega arith;
  calling = v.calling;
  stopped = v.stopped;
}

push_handling :
    (q : List ℕ) (w : ℕ) (y : Bool) (s : EventLoop) (cb : ℕ)
    → KeepsQueue q w y s
    → is_handling s.phase ≡ true
    → KeepsQueue (q ++ cb ∷ []) w y (push s cb)
unfolding push
push_handling q w y s cb v h = record {
  order = queued_behind s q cb v.order;
  awake = λ i e l. cc;
  calling = v.calling;
  stopped = v.stopped;
}

pub queue_in_loop-KeepsQueue :
    (q : List ℕ) (w : ℕ) (y : Bool) (s : EventLoop) (cb : ℕ)
    → KeepsQueue q w y s
    → (is_handling s.phase || is_running s.phase) ≡ true
    → KeepsQueue (q ++ cb ∷ []) w y (queue_in_loop true s cb)
unfolding queue_in_loop
queue_in_loop-KeepsQueue q w y s cb v h = go s.calling_pending_functors refl
  where
    handling :
        (f : Phase)
        → (is_handling f || is_running f) ≡ true
        → is_running f ≡ false
        → is_handling f ≡ true
    handling outside a b = cc
    handling checks a b = cc
    handling polls a b = cc
    handling (handles ps) a b = refl
    handling (runs cbs) a b = cc

    go :
        (b : Bool)
        → s.calling_pending_functors ≡ b
        → KeepsQueue (q ++ cb ∷ []) w y (if b then wakeup (push s cb) else push s cb)
    go true r =
        wakeup-KeepsQueue (q ++ cb ∷ []) (suc w) w y (push s cb) (push-KeepsQueue q w y s cb v)
    go false n = push_handling q w y s cb v (handling s.phase h (sym v.calling ∙ n))

-- Outside of `loop` its own thread makes no wakeup.
pub early-KeepsQueue :
    (q : List ℕ) (w : ℕ) (y : Bool) (s : EventLoop) (cb : ℕ)
    → KeepsQueue q w y s
    → s.phase ≡ outside
    → KeepsQueue (q ++ cb ∷ []) w true (queue_in_loop true s cb)
unfolding queue_in_loop push
early-KeepsQueue q w y s cb v h =
    let idle : s.calling_pending_functors ≡ false = v.calling ∙ ap is_running h in
    rw idle (record {
      order = queued_behind s q cb v.order;
      awake = λ i e l. cc;
      calling = ap is_running (sym h);
      stopped = v.stopped;
    })

pub quit-KeepsQueue :
    (q : List ℕ) (w : ℕ) (y : Bool) (s : EventLoop) (on_loop : Bool)
    → KeepsQueue q w y s
    → KeepsQueue q w y (quit on_loop s)
unfolding quit wakeup
quit-KeepsQueue q w y s true v = record {
  order = v.order;
  awake = v.awake;
  calling = v.calling;
  stopped = v.stopped;
}
quit-KeepsQueue q w y s false v = record {
  order = v.order;
  awake = λ i e l. omega arith;
  calling = v.calling;
  stopped = v.stopped;
}
