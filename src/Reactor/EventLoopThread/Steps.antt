-- ===== src/Reactor/EventLoopThread/Steps.antt =====
-- In which order the thread and its owner in clia/src/reactor/event_loop_thread.cc step.
use clia.Prelude.{ℕ, ◌≡◌, Bool, true, List, [], ◌∷◌, Option, some, ok}
use clia.Reactor.Channel.{Events}
use clia.Reactor.Epoller.{Epoller}
use clia.Reactor.EventLoop
use clia.Reactor.EventLoop.{
  EventLoop, outside, checks, polls, handles, runs, polled, handle_next, swap, run_next, finish,
  check, queue_in_loop,
}
use clia.Reactor.EventLoopThread.{
  EventLoopThread, constructs, calls_back, publishes, enters, loops, clears, destructs, idle, waits,
  holds, quits, joins, create, start_loop, wait, construct, call_back, publish, enter, turn, leave,
  clear, destruct, destroy, quit_loop, join,
}

-- What becomes of a loop in `loop`, whoever calls, but for `quit`.
pub data Turn : EventLoop → EventLoop → Type 0 where
  poll_returns :
      {l m : EventLoop}
      → l.phase ≡ polls
      → (answer : Option (List (ℕ × Events))) → polled l answer ≡ ok m
      → Turn l m
  handles_next :
      {l : EventLoop} (p : ℕ) (rest : List ℕ) (alive : Bool)
      → l.phase ≡ handles (p ∷ rest)
      → Turn l (handle_next l p rest alive)
  swaps : {l : EventLoop} → l.phase ≡ handles [] → Turn l (swap l)
  runs_next :
      {l : EventLoop} (cb : ℕ) (rest : List ℕ)
      → l.phase ≡ runs (cb ∷ rest)
      → Turn l (run_next l cb rest)
  finishes : {l : EventLoop} → l.phase ≡ runs [] → Turn l (finish l)
  checks_quit : {l : EventLoop} → l.phase ≡ checks → Turn l (check l)
  queues : {l : EventLoop} (on_loop : Bool) (cb : ℕ) → Turn l (queue_in_loop on_loop l cb)

-- `Step may_quit s t`: with `may_quit`, a functor or another thread may call `quit` on the loop too.
pub data Step : Bool → EventLoopThread → EventLoopThread → Type 0 where
  starts : {b : Bool} {s : EventLoopThread} → s.owner ≡ idle → Step b s (start_loop s)
  tests : {b : Bool} {s : EventLoopThread} → s.owner ≡ waits → Step b s (wait s)
  destroys : {b : Bool} {s : EventLoopThread} → s.owner ≡ holds → Step b s (destroy s)
  destroys_unused : {b : Bool} {s : EventLoopThread} → s.owner ≡ idle → Step b s (destroy s)
  quits_loop :
      {b : Bool} {s t : EventLoopThread} → s.owner ≡ quits → quit_loop s ≡ ok t → Step b s t
  tries_join : {b : Bool} {s : EventLoopThread} → s.owner ≡ joins → Step b s (join s)
  is_made :
      {b : Bool} {s t : EventLoopThread} (e : Epoller) (p wakeup_fd : ℕ)
      → s.thread ≡ constructs
      → construct e p wakeup_fd s ≡ ok t
      → Step b s t
  is_called : {b : Bool} {s : EventLoopThread} → s.thread ≡ calls_back → Step b s (call_back s)
  is_set : {b : Bool} {s : EventLoopThread} → s.thread ≡ publishes → Step b s (publish s)
  is_entered : {b : Bool} {s t : EventLoopThread} → s.thread ≡ enters → enter s ≡ ok t → Step b s t
  turns :
      {b : Bool} {s : EventLoopThread} {l m : EventLoop}
      → s.thread ≡ loops
      → s.local ≡ some l
      → Turn l m
      → Step b s (turn s m)
  is_told :
      {s : EventLoopThread} {l : EventLoop} (on_loop : Bool)
      → s.local ≡ some l
      → Step true s (turn s (EventLoop.quit on_loop l))
  returns :
      {b : Bool} {s : EventLoopThread} {l : EventLoop}
      → s.thread ≡ loops
      → s.local ≡ some l
      → l.phase ≡ outside
      → Step b s (leave s)
  is_reset : {b : Bool} {s : EventLoopThread} → s.thread ≡ clears → Step b s (clear s)
  is_destructed :
      {b : Bool} {s t : EventLoopThread} → s.thread ≡ destructs → destruct s ≡ ok t → Step b s t

pub data Steps : Bool → EventLoopThread → EventLoopThread → Type 0 where
  stays : {b : Bool} {s : EventLoopThread} → Steps b s s
  steps : {b : Bool} {s t u : EventLoopThread} → Steps b s t → Step b t u → Steps b s u

-- `s` can be reached from the constructor, with a callback or without.
abbrev pub Reached : EventLoopThread → Type 0
Reached s = (cb : Bool) × Steps true (create cb) s
