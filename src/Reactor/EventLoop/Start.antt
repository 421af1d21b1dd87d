-- ===== src/Reactor/EventLoop/Start.antt =====
-- What happens to a `quit` and to a functor that come before `loop` has started.
use clia.Prelude.{ℕ, ◌≡◌, refl, Bool, true, false, [], ◌∷◌, ◌++◌, Returns}
use clia.Reactor.EventLoop.{EventLoop, checks, quit, enter, push, wakeup, queue_in_loop}

-- A `quit`, by any thread, on a loop that has not started yet is undone when it starts.
pub quit_before_loop :
    (s : EventLoop) (on_loop : Bool)
    → s.looping ≡ false
    → Returns (enter true (quit on_loop s)) (λ t. (t.quitting ≡ false) × (t.phase ≡ checks))
unfolding enter quit wakeup
quit_before_loop s true h = rw h (refl, refl)
quit_before_loop s false h = rw h (refl, refl)

-- A functor that the loop's own thread queues before it starts the loop does not wake it: the loop
-- comes to its first test of `quit_` with the functor in the queue and the eventfd as it was.
pub queue_before_loop :
    (s : EventLoop) (cb : ℕ)
    → s.looping ≡ false
    → s.calling_pending_functors ≡ false
    → Returns (enter true (queue_in_loop true s cb)) (λ t.
      (t.phase ≡ checks)
      × (t.wakeup_count ≡ s.wakeup_count)
      × (t.pending_functors ≡ s.pending_functors ++ cb ∷ []))
unfolding enter queue_in_loop push
queue_before_loop s cb h c = rw (c, h) (refl, refl, refl)
