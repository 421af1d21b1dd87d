-- ===== src/Reactor/EventLoopThread/Published.antt =====
-- What an owner can rely on once `start_loop` has returned.
use clia.Prelude.{
  ℕ, ◌≡◌, ◌≢◌, refl, sym, ap, ◌∙◌, Bool, true, false, ◌&&◌, leb, if-cases, Option, none, some,
  Outcome, ok, err, Fault, Returns-ok, ok-bind,
}
use clia.Reactor.EventLoop
use clia.Reactor.EventLoop.{EventLoop}
use clia.Reactor.EventLoopThread.{
  EventLoopThread, ThreadPhase, OwnerPhase, unborn, constructs, calls_back, publishes, enters,
  loops, clears, destructs, ended, idle, waits, holds, quits, joins, gone, create, start_loop, wait,
  construct, call_back, publish, enter, clear, destruct, destroy, quit_loop, join, is_over,
}
use clia.Reactor.EventLoopThread.Steps.{
  Step, starts, tests, destroys, destroys_unused, quits_loop, tries_join, is_made, is_called,
  is_set, is_entered, turns, is_told, returns, is_reset, is_destructed, Steps, stays, steps,
  Reached,
}

abbrev pub place : ThreadPhase → ℕ
place unborn = 0
place constructs = 1
place calls_back = 2
place publishes = 3
place enters = 4
place loops = 5
place clears = 6
place destructs = 7
place ended = 8

-- The object `loop` exists, the callback was called, `loop_` was set, and it is set.
abbrev pub is_alive : ThreadPhase → Bool
is_alive p = leb 2 (place p) && leb (place p) 7

abbrev pub has_called : ThreadPhase → Bool
has_called p = leb 3 (place p)

abbrev pub is_past : ThreadPhase → Bool
is_past p = leb 4 (place p)

abbrev pub is_serving : ThreadPhase → Bool
is_serving p = leb 4 (place p) && leb (place p) 6

abbrev pub is_holding : OwnerPhase → Bool
is_holding idle = false
is_holding waits = false
is_holding holds = true
is_holding quits = true
is_holding joins = false
is_holding gone = false

abbrev pub exists : Option EventLoop → Bool
exists none = false
exists (some l) = true

pub record IsConsistent (s : EventLoopThread) : Type 0 where
  pub published : s.loop ≡ is_serving s.thread
  pub alive : exists s.local ≡ is_alive s.thread
  pub called : has_called s.thread ≡ true → s.initialised ≡ s.callback
  pub held : is_holding s.owner ≡ true → is_past s.thread ≡ true
  pub unused : s.owner ≡ idle → s.thread ≡ unborn

owner-IsConsistent :
    (s : EventLoopThread) (o : OwnerPhase) (exiting : Bool)
    → (is_holding o ≡ true → is_past s.thread ≡ true)
    → o ≢ idle
    → IsConsistent s
    → IsConsistent (record s { owner = o; exiting = exiting })
owner-IsConsistent s o exiting h n v = record {
  published = v.published;
  alive = v.alive;
  called = v.called;
  held = h;
  unused = λ e. absurd (n e);
}

serving_past : (p : ThreadPhase) → is_serving p ≡ true → is_past p ≡ true
serving_past unborn h = cc
serving_past constructs h = cc
serving_past calls_back h = cc
serving_past publishes h = cc
serving_past enters h = refl
serving_past loops h = refl
serving_past clears h = refl
serving_past destructs h = refl
serving_past ended h = refl

-- The owner is past its start when the thread runs.
busy : (s : EventLoopThread) → IsConsistent s → s.thread ≢ unborn → s.owner ≢ idle
busy s v n e = n (v.unused e)

-- The thread goes on to `p`.
thread-IsConsistent :
    (s : EventLoopThread) (p : ThreadPhase) (loop initialised : Bool) (local : Option EventLoop)
    → s.thread ≢ unborn
    → loop ≡ is_serving p
    → exists local ≡ is_alive p
    → (has_called p ≡ true → initialised ≡ s.callback)
    → (is_past s.thread ≡ true → is_past p ≡ true)
    → IsConsistent s
    → IsConsistent (record s { thread = p; loop = loop; initialised = initialised; local = local })
thread-IsConsistent s p loop initialised local n a b c d v = record {
  published = a;
  alive = b;
  called = c;
  held = λ h. d (v.held h);
  unused = λ e. absurd (n (v.unused e));
}

destroy-IsConsistent : (s : EventLoopThread) → IsConsistent s → IsConsistent (destroy s)
unfolding destroy
destroy-IsConsistent s v =
    if-cases (λ o. IsConsistent (record s { owner = o; exiting = true })) s.loop quits joins
      (λ y.
        owner-IsConsistent s quits true (λ e. serving_past s.thread (sym v.published ∙ y)) (λ e. cc)
          v)
      (λ n. owner-IsConsistent s joins true (λ e. cc) (λ e. cc) v)

-- A use of the object `loop` that returned had one.
pub with_loop-ok :
    {t : EventLoopThread} (o : Option EventLoop) (f : EventLoop → Outcome EventLoopThread)
    → (elim o [ none ↦ err Fault.bad_access | some l ↦ f l ]) ≡ ok t
    → (l : EventLoop) × (o ≡ some l) × (f l ≡ ok t)
with_loop-ok none f h = cc
with_loop-ok (some l) f h = (l, refl, h)

Step-IsConsistent :
    {b : Bool} {s t : EventLoopThread} → Step b s t → IsConsistent s → IsConsistent t
unfolding start_loop wait construct call_back publish enter clear destruct destroy quit_loop join
Step-IsConsistent (starts {b} {s} h) v =
    let u : s.thread ≡ unborn = v.unused h in
    record {
      published = v.published ∙ ap is_serving u;
      alive = v.alive ∙ ap is_alive u;
      called = λ e. cc;
      held = λ e. cc;
      unused = λ e. cc;
    }
Step-IsConsistent (tests {b} {s} h) v =
    if-cases IsConsistent s.loop (record s { owner = holds }) s
      (λ y.
        owner-IsConsistent s holds s.exiting (λ e. serving_past s.thread (sym v.published ∙ y))
          (λ e. cc) v)
      (λ n. v)
Step-IsConsistent (destroys {b} {s} h) v = destroy-IsConsistent s v
Step-IsConsistent (destroys_unused {b} {s} h) v = destroy-IsConsistent s v
Step-IsConsistent (tries_join {b} {s} h) v =
    if-cases IsConsistent (is_over s.thread) (record s { owner = gone }) s
      (λ y. owner-IsConsistent s gone s.exiting (λ e. cc) (λ e. cc) v) (λ n. v)
Step-IsConsistent (is_called {b} {s} h) v =
    thread-IsConsistent s publishes s.loop s.callback s.local (λ e. cc)
      (v.published ∙ ap is_serving h) (v.alive ∙ ap is_alive h) (λ e. refl)
      (λ e. cc (sym (ap is_past h) ∙ e)) v
Step-IsConsistent (is_set {b} {s} h) v =
    thread-IsConsistent s enters true s.initialised s.local (λ e. cc) refl (v.alive ∙ ap is_alive h)
      (λ e. v.called (ap has_called h)) (λ e. refl) v
Step-IsConsistent (turns {b} {s} {l} {m} h i k) v =
    thread-IsConsistent s s.thread s.loop s.initialised (some m) (λ e. cc) v.published
      (sym (ap is_alive h)) v.called (λ e. e) v
Step-IsConsistent (is_told {s} {l} on_loop i) v =
    let a : is_alive s.thread ≡ true = sym v.alive ∙ ap exists i in
    thread-IsConsistent s s.thread s.loop s.initialised (some (EventLoop.quit on_loop l))
      (λ e. cc (sym a ∙ ap is_alive e)) v.published (sym a) v.called (λ e. e) v
Step-IsConsistent (returns {b} {s} {l} h i k) v =
    thread-IsConsistent s clears s.loop s.initialised s.local (λ e. cc)
      (v.published ∙ ap is_serving h) (v.alive ∙ ap is_alive h) (λ e. v.called (ap has_called h))
      (λ e. refl) v
Step-IsConsistent (is_reset {b} {s} h) v =
    thread-IsConsistent s destructs false s.initialised s.local (λ e. cc) refl
      (v.alive ∙ ap is_alive h) (λ e. v.called (ap has_called h)) (λ e. refl) v
Step-IsConsistent (quits_loop {b} {s} {t} h k) v =
    let (l, i, m) =
      with_loop-ok s.local
        (λ l. ok (record s { local = some (EventLoop.quit false l); owner = joins })) k in
    let a : is_alive s.thread ≡ true = sym v.alive ∙ ap exists i in
    Returns-ok (ok (record s { local = some (EventLoop.quit false l); owner = joins })) t
      IsConsistent
      (owner-IsConsistent (record s { local = some (EventLoop.quit false l) }) joins s.exiting
        (λ e. cc) (λ e. cc)
        (thread-IsConsistent s s.thread s.loop s.initialised (some (EventLoop.quit false l))
          (λ e. cc (sym a ∙ ap is_alive e)) v.published (sym a) v.called (λ e. e) v))
      m
Step-IsConsistent (is_made {b} {s} {t} e p fd h k) v =
    let (l, a, m) = ok-bind (EventLoop.create false e p fd) k in
    Returns-ok (ok (record s { local = some l; thread = calls_back })) t IsConsistent
      (thread-IsConsistent s calls_back s.loop s.initialised (some l) (λ e. cc)
        (v.published ∙ ap is_serving h) refl (λ e. cc) (λ e. cc (sym (ap is_past h) ∙ e)) v)
      m
Step-IsConsistent (is_entered {b} {s} {t} h k) v =
    let (l, i, m) = with_loop-ok s.local _ k in
    let (l', a, n) = ok-bind (EventLoop.enter true l) m in
    Returns-ok (ok (record s { local = some l'; thread = loops })) t IsConsistent
      (thread-IsConsistent s loops s.loop s.initialised (some l') (λ e. cc)
        (v.published ∙ ap is_serving h) refl (λ e. v.called (ap has_called h)) (λ e. refl) v)
      n
Step-IsConsistent (is_destructed {b} {s} {t} h k) v =
    let (l, i, m) = with_loop-ok s.local _ k in
    let (e, a, n) = ok-bind (EventLoop.destroy l) m in
    Returns-ok (ok (record s { local = none; thread = ended })) t IsConsistent
      (thread-IsConsistent s ended s.loop s.initialised none (λ e. cc)
        (v.published ∙ ap is_serving h) refl (λ e. v.called (ap has_called h)) (λ e. refl) v)
      n

create-IsConsistent : (cb : Bool) → IsConsistent (create cb)
unfolding create
create-IsConsistent cb = record {
  published = refl;
  alive = refl;
  called = λ e. cc;
  held = λ e. cc;
  unused = λ e. refl;
}

Steps-IsConsistent :
    {b : Bool} {s t : EventLoopThread} → Steps b s t → IsConsistent s → IsConsistent t
Steps-IsConsistent stays v = v
Steps-IsConsistent (steps r k) v = Step-IsConsistent k (Steps-IsConsistent r v)

-- However the owner, the thread and others that quit the loop step, `loop_` is set exactly from when the
-- thread sets it until it resets it, and all that time the loop that it points to exists and the
-- callback, if there is one, was called before; `start_loop` has returned only after `loop_` was set.
pub Reached-IsConsistent : {s : EventLoopThread} → Reached s → IsConsistent s
Reached-IsConsistent (cb, r) = Steps-IsConsistent r (create-IsConsistent cb)

-- When the thread ends by itself between the destructor's test of `loop_` and its `quit`, the `quit`
-- is called on a loop that no longer exists.
pub quit_loop_late :
    {s : EventLoopThread}
    → Reached s
    → s.owner ≡ quits
    → s.thread ≡ ended
    → quit_loop s ≡ err Fault.bad_access
unfolding quit_loop
quit_loop_late {s} r o e = rw (absent s.local ((Reached-IsConsistent r).alive ∙ ap is_alive e)) refl
  where
    absent : (l : Option EventLoop) → exists l ≡ false → l ≡ none
    absent none h = refl
    absent (some l) h = cc
