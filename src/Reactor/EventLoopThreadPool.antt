-- ===== src/Reactor/EventLoopThreadPool.antt =====
-- clia/src/reactor/event_loop_thread_pool.cc. A loop is a number. A method takes first whether its
-- caller is on the thread of the base loop. The number of threads is not negative.
pub mod RoundRobin
mod Tests
use clia.Prelude.{
  ℕ, zero, suc, ◌+◌, Bool, true, false, not, ◌&&◌, List, [], ◌∷◌, ◌++◌, length, get_elem?, Option,
  none, some, leb, ◌==◌, if◌then◌else◌, Outcome, ok, err, Fault, ◌>>=◌, ◌>>◌, assert,
}

-- `called` are the loops that the init callback was called with by the pool itself; the threads call
-- it on their own.
pub record EventLoopThreadPool : Type 0 where
  pub base_loop : ℕ
  pub started : Bool
  pub num_threads : ℕ
  pub next : ℕ
  pub loops : List ℕ
  pub called : List ℕ

unfoldable pub create : ℕ → EventLoopThreadPool
create base_loop = record {
  base_loop = base_loop;
  started = false;
  num_threads = 0;
  next = 0;
  loops = [];
  called = [];
}

unfoldable pub set_thread_num : EventLoopThreadPool → ℕ → EventLoopThreadPool
set_thread_num s num = record s { num_threads = num }

-- The loops of the threads that `start` makes; `start_loop` is the loop of the thread number `i`.
unfoldable pub start_threads : (ℕ → ℕ) → ℕ → ℕ → List ℕ
start_threads start_loop i zero = []
start_threads start_loop i (suc n) = start_loop i ∷ start_threads start_loop (i + 1) n

unfoldable pub start : Bool → EventLoopThreadPool → (ℕ → ℕ) → Bool → Outcome EventLoopThreadPool
unfolding start_threads
start on_loop s start_loop has_callback = do
  assert (not s.started)
  assert on_loop
  let s' : EventLoopThreadPool = record s {
    started = true;
    loops = s.loops ++ start_threads start_loop 0 s.num_threads;
  }
  ok (
      if s.num_threads == 0 && has_callback
      then record s' { called = s.called ++ s.base_loop ∷ [] }
      else s')

-- `loops_[next_]` where there are loops.
unfoldable pub pick : EventLoopThreadPool → Option ℕ → Outcome (ℕ × EventLoopThreadPool)
pick s none = err Fault.bad_access
pick s (some loop) =
    ok (loop, record s { next = if leb (length s.loops) (s.next + 1) then 0 else s.next + 1 })

unfoldable pub get_next_loop : Bool → EventLoopThreadPool → Outcome (ℕ × EventLoopThreadPool)
unfolding pick
get_next_loop on_loop s = do
  assert (on_loop && s.started)
  if length s.loops == 0 then ok (s.base_loop, s) else pick s (get_elem? s.loops s.next)

unfoldable pub get_all_loops : Bool → EventLoopThreadPool → Outcome (List ℕ)
get_all_loops on_loop s = do
  assert (on_loop && s.started)
  ok (if length s.loops == 0 then s.base_loop ∷ [] else s.loops)
