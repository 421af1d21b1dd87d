-- ===== src/Reactor/EventLoopThread/Joining.antt =====
-- What the destructor of an `EventLoopThread` waits for.
use clia.Prelude.{
  ℕ, ◌≡◌, ◌≢◌, ◌⊎◌, inl, inr, refl, sym, ap, ◌∙◌, subst, Bool, Bool-cases, true, false, not, ◌&&◌,
  ◌||◌, ◌==◌, Option, none, some, List, ok, assert, Returns-ok, ok-bind,
}
use clia.Reactor.Channel.{Callback, handle_event}
use clia.Reactor.Epoller.{poll}
use clia.Reactor.EventLoop
use clia.Reactor.EventLoop.{
  EventLoop, Phase, outside, checks, polls, handles, runs, polled, handle_next, swap, run_next,
  finish, check, queue_in_loop, deliver, does_read, push, wakeup,
}
use clia.Reactor.EventLoopThread.{
  EventLoopThread, ThreadPhase, unborn, constructs, calls_back, publishes, enters, loops, clears,
  destructs, ended, joins, construct, call_back, publish, enter, clear, join, is_over,
}
use clia.Reactor.EventLoopThread.Published.{with_loop-ok}
use clia.Reactor.EventLoopThread.Steps.{
  Turn, poll_returns, handles_next, swaps, runs_next, finishes, checks_quit, queues, Step, starts,
  tests, destroys, destroys_unused, quits_loop, tries_join, is_made, is_called, is_set, is_entered,
  turns, returns, is_reset, is_destructed, Steps, stays, steps,
}

-- The thread was started, and is not in `loop.loop()` yet.
abbrev pub is_starting : ThreadPhase → Bool
is_starting unborn = false
is_starting constructs = true
is_starting calls_back = true
is_starting publishes = true
is_starting enters = true
is_starting loops = false
is_starting clears = false
is_starting destructs = false
is_starting ended = false

abbrev is_inside : Phase → Bool
is_inside outside = false
is_inside checks = true
is_inside polls = true
is_inside (handles ps) = true
is_inside (runs cbs) = true

-- A loop that runs, and was not told to quit.
record IsTurning (l : EventLoop) : Type 0 where
  quitting : l.quitting ≡ false
  inside : is_inside l.phase ≡ true

deliver-IsTurning :
    (l : EventLoop) (p : ℕ) (cs : List Callback) → IsTurning l → IsTurning (deliver l p cs)
unfolding deliver EventLoop.handle_read
deliver-IsTurning l p cs v = elim (Bool-cases ((p == l.wakeup_channel) && does_read cs)) [
  | inl y ↦ rw y (record { quitting = v.quitting; inside = v.inside })
  | inr n ↦ rw n (record { quitting = v.quitting; inside = v.inside })
]

Turn-IsTurning : {l m : EventLoop} → Turn l m → IsTurning l → IsTurning m
unfolding polled handle_next swap run_next finish check queue_in_loop push wakeup
Turn-IsTurning (poll_returns {l} {m} h answer k) v =
    let ((active, e), a, b) = ok-bind (poll l.poller answer) k in
    Returns-ok _ m IsTurning (record { quitting = v.quitting; inside = refl }) b
Turn-IsTurning (handles_next {l} p rest alive h) v =
    deliver-IsTurning (record l { current_active_channel = some p; phase = handles rest }) p
      (handle_event alive (l.poller.store p)) (record { quitting = v.quitting; inside = refl })
Turn-IsTurning (swaps h) v = record { quitting = v.quitting; inside = refl }
Turn-IsTurning (runs_next cb rest h) v = record { quitting = v.quitting; inside = refl }
Turn-IsTurning (finishes h) v = record { quitting = v.quitting; inside = refl }
Turn-IsTurning (checks_quit h) v = rw v.quitting (record { quitting = refl; inside = refl })
Turn-IsTurning (queues {l} on_loop cb) v =
    elim (Bool-cases (not on_loop || l.calling_pending_functors)) [
      | inl y ↦ rw y (record { quitting = v.quitting; inside = v.inside })
      | inr n ↦ rw n (record { quitting = v.quitting; inside = v.inside })
    ]

-- The owner waits in `join` for a thread whose loop nobody has told to quit since it was entered.
record IsStuck (s : EventLoopThread) : Type 0 where
  owner : s.owner ≡ joins
  thread :
      (is_starting s.thread ≡ true)
      ⊎ ((s.thread ≡ loops) × ((l : EventLoop) × (s.local ≡ some l) × IsTurning l))

stuck_alone :
    {s : EventLoopThread}
    → IsStuck s
    → (is_over s.thread ≡ false) × (s.thread ≢ clears) × (s.thread ≢ destructs)
stuck_alone {s} v = elim v.thread [
  | inl h ↦ (
    starting s.thread h,
    (λ e. cc (sym h ∙ ap is_starting e)),
    (λ e. cc (sym h ∙ ap is_starting e)),
  )
  | inr (h, k) ↦ (ap is_over h, (λ e. cc (sym h ∙ e)), (λ e. cc (sym h ∙ e)))
]
  where
    starting : (p : ThreadPhase) → is_starting p ≡ true → is_over p ≡ false
    starting unborn h = cc
    starting constructs h = refl
    starting calls_back h = refl
    starting publishes h = refl
    starting enters h = refl
    starting loops h = cc
    starting clears h = cc
    starting destructs h = cc
    starting ended h = cc

abbrev IsThere : Option EventLoop → Type 0
IsThere none = Unit {0}
IsThere (some l) = IsTurning l

-- The object `l` is the loop of a thread that is in `loop.loop()`.
stuck_inside :
    {s : EventLoopThread} {l : EventLoop}
    → IsStuck s
    → s.thread ≡ loops
    → s.local ≡ some l
    → IsTurning l
stuck_inside {s} {l} v h i = elim v.thread [
  | inl k ↦ cc (sym k ∙ ap is_starting h)
  | inr (k, (m, j, t)) ↦ subst (λ o. IsThere o) (sym j ∙ i) t
]

enter-IsTurning : (l m : EventLoop) → EventLoop.enter true l ≡ ok m → IsTurning m
unfolding EventLoop.enter
enter-IsTurning l m h =
    let (u, a, k) = ok-bind (assert (not l.looping && true)) h in
    Returns-ok (ok (record l { looping = true; quitting = false; phase = checks })) m IsTurning
      (record { quitting = refl; inside = refl }) k

Step-IsStuck : {s t : EventLoopThread} → Step false s t → IsStuck s → IsStuck t
unfolding call_back publish enter clear join construct
Step-IsStuck (starts {b} {s} h) v = cc (sym h ∙ v.owner)
Step-IsStuck (tests {b} {s} h) v = cc (sym h ∙ v.owner)
Step-IsStuck (destroys {b} {s} h) v = cc (sym h ∙ v.owner)
Step-IsStuck (destroys_unused {b} {s} h) v = cc (sym h ∙ v.owner)
Step-IsStuck (quits_loop {b} {s} h k) v = cc (sym h ∙ v.owner)
Step-IsStuck (tries_join {b} {s} h) v = rw (stuck_alone v).0 v
Step-IsStuck (is_made {b} {s} {t} e p fd h k) v =
    let (l, a, m) = ok-bind (EventLoop.create false e p fd) k in
    Returns-ok (ok (record s { local = some l; thread = calls_back })) t IsStuck
      (record { owner = v.owner; thread = inl refl }) m
Step-IsStuck (is_called h) v = record { owner = v.owner; thread = inl refl }
Step-IsStuck (is_set h) v = record { owner = v.owner; thread = inl refl }
Step-IsStuck (is_entered {b} {s} {t} h k) v =
    let (l, i, m) = with_loop-ok s.local _ k in
    let (l', a, n) = ok-bind (EventLoop.enter true l) m in
    Returns-ok (ok (record s { local = some l'; thread = loops })) t IsStuck
      (record { owner = v.owner; thread = inr (refl, (l', refl, enter-IsTurning l l' a)) }) n
Step-IsStuck (turns {b} {s} {l} {m} h i k) v = record {
  owner = v.owner;
  thread = inr (h, (m, refl, Turn-IsTurning k (stuck_inside v h i)));
}
Step-IsStuck (returns {b} {s} {l} h i k) v = cc (sym (ap is_inside k) ∙ (stuck_inside v h i).inside)
Step-IsStuck (is_reset {b} {s} h) v = absurd ((stuck_alone v).1 h)
Step-IsStuck (is_destructed {b} {s} {t} h k) v = absurd ((stuck_alone v).2 h)

-- When the owner has come to its `join` before the thread is in `loop.loop()`, whether or not it called
-- `quit` before, it stays there and the thread does not end, as long as nobody else quits the loop.
pub never_joined :
    {s t : EventLoopThread}
    → s.owner ≡ joins
    → is_starting s.thread ≡ true
    → Steps false s t
    → (t.owner ≡ joins) × (is_over t.thread ≡ false)
never_joined {s} {t} o h r = let v = all r in (v.owner, (stuck_alone v).0)
  where
    all : {u : EventLoopThread} → Steps false s u → IsStuck u
    all stays = record { owner = o; thread = inl h }
    all (steps r k) = Step-IsStuck k (all r)
