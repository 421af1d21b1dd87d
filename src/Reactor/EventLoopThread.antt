-- ===== src/Reactor/EventLoopThread.antt =====
-- clia/src/reactor/event_loop_thread.cc: the thread that owns a loop, and the object that starts it and
-- ends it. Each function is what one of the two does between two points at which the other may step
-- in; in which order they come is in Reactor/EventLoopThread/Steps.
pub mod Steps
pub mod Published
pub mod Joining
mod Tests
use clia.Prelude.{
  ℕ, Bool, true, false, Option, none, some, if◌then◌else◌, Outcome, ok, err, Fault, ◌>>=◌,
}
use clia.Reactor.Epoller.{Epoller}
use clia.Reactor.EventLoop
use clia.Reactor.EventLoop.{EventLoop, outside}

-- Where `thread_func` stands: before its loop is made, before the callback, before `loop_` is set,
-- before `loop.loop()`, in it, before `loop_` is reset, and before the destructor of its loop.
pub data ThreadPhase : Type 0 where
  unborn constructs calls_back publishes enters loops clears destructs ended : ThreadPhase

-- Where the owner stands: before `start_loop`, waiting in it, after it, in the destructor before the
-- `quit` and before the `join`, and after it.
pub data OwnerPhase : Type 0 where
  idle waits holds quits joins gone : OwnerPhase

-- `loop` is whether `loop_` is set, `local` the object `loop` of `thread_func` while it lives, and
-- `initialised` whether the callback was called.
pub record EventLoopThread : Type 0 where
  pub loop : Bool
  pub exiting : Bool
  pub callback : Bool
  pub initialised : Bool
  pub local : Option EventLoop
  pub thread : ThreadPhase
  pub owner : OwnerPhase

unfoldable pub create : Bool → EventLoopThread
create cb = record {
  loop = false;
  exiting = false;
  callback = cb;
  initialised = false;
  local = none;
  thread = unborn;
  owner = idle;
}

-- `start_loop` up to the wait.
unfoldable pub start_loop : EventLoopThread → EventLoopThread
start_loop s = record s { thread = constructs; owner = waits }

-- One test of `while (!loop_)`, under the mutex.
unfoldable pub wait : EventLoopThread → EventLoopThread
wait s = if s.loop then record s { owner = holds } else s

-- A use of the object `loop`.
abbrev pub with_loop :
    EventLoopThread → (EventLoop → Outcome EventLoopThread) → Outcome EventLoopThread
with_loop s body = elim s.local [ none ↦ err Fault.bad_access | some l ↦ body l ]

-- `EventLoop loop;`
unfoldable pub construct : Epoller → ℕ → ℕ → EventLoopThread → Outcome EventLoopThread
construct e p wakeup_fd s = do
  l ← EventLoop.create false e p wakeup_fd
  ok (record s { local = some l; thread = calls_back })

unfoldable pub call_back : EventLoopThread → EventLoopThread
call_back s = record s { initialised = s.callback; thread = publishes }

unfoldable pub publish : EventLoopThread → EventLoopThread
publish s = record s { loop = true; thread = enters }

-- `loop.loop()` up to its first poll.
unfoldable pub enter : EventLoopThread → Outcome EventLoopThread
enter s =
    with_loop s
      λ l. do l' ← EventLoop.enter true l; ok (record s { local = some l'; thread = loops })

-- The loop is now `l`.
abbrev pub turn : EventLoopThread → EventLoop → EventLoopThread
turn s l = record s { local = some l }

-- `loop.loop()` has returned.
abbrev pub leave : EventLoopThread → EventLoopThread
leave s = record s { thread = clears }

unfoldable pub clear : EventLoopThread → EventLoopThread
clear s = record s { loop = false; thread = destructs }

-- The end of the scope of `loop`.
unfoldable pub destruct : EventLoopThread → Outcome EventLoopThread
destruct s =
    with_loop s λ l. do e ← EventLoop.destroy l; ok (record s { local = none; thread = ended })

-- The destructor up to its test of `loop_`, which takes no lock.
unfoldable pub destroy : EventLoopThread → EventLoopThread
destroy s = record s { exiting = true; owner = if s.loop then quits else joins }

-- `loop_->quit()`, by the owner's thread.
unfoldable pub quit_loop : EventLoopThread → Outcome EventLoopThread
quit_loop s =
    with_loop s λ l. ok (record s { local = some (EventLoop.quit false l); owner = joins })

-- `joinable()` is false before `start_loop`; else `join` returns when the thread has ended.
abbrev pub is_over : ThreadPhase → Bool
is_over unborn = true
is_over constructs = false
is_over calls_back = false
is_over publishes = false
is_over enters = false
is_over loops = false
is_over clears = false
is_over destructs = false
is_over ended = true

unfoldable pub join : EventLoopThread → EventLoopThread
join s = if is_over s.thread then record s { owner = gone } else s
