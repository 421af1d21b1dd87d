-- ===== src/Reactor/EventLoopThreadPool/Tests.antt =====
-- The theorem on `EventLoopThreadPool` at a pool of three loops.
use clia.Prelude.{◌+◌, ◌≡◌, refl, true, false, ok, Returns, ◌>>=◌}
use clia.Reactor.EventLoopThreadPool.{
  create, set_thread_num, start, start_threads, get_next_loop, pick,
}
use clia.Reactor.EventLoopThreadPool.RoundRobin.{Rounds, each_loop_once}

each_loop_once_example :
    Returns
      (start true (set_thread_num (create 9) 3) (λ i. 20 + i) false)
      (Rounds (start_threads (λ i. 20 + i) 0 3))
each_loop_once_example = each_loop_once 9 2 (λ i. 20 + i) false

second_loop :
    (start true (set_thread_num (create 9) 3) (λ i. 20 + i) false >>= get_next_loop true >>= λ r.
    get_next_loop true r.1 >>= λ r. ok r.0)
    ≡ ok 21
unfolding create set_thread_num start start_threads get_next_loop pick
second_loop = refl
