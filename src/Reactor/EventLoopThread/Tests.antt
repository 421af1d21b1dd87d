-- ===== src/Reactor/EventLoopThread/Tests.antt =====
-- The theorems on `EventLoopThread` at a thread with a callback, whose loop has its wakeup channel at 5.
use clia.Prelude.{◌≡◌, refl, true, false, none, some, Outcome, ok, err, Fault}
use clia.Reactor.Channel
use clia.Reactor.Channel.{join, is_none, none_event}
use clia.Reactor.Epoller
use clia.Reactor.Epoller.{
  change, update_channel, update_by, has_channel, update, put, remove, remove_channel, poll,
}
use clia.Reactor.EventLoop
use clia.Reactor.EventLoop.{EventLoop, check, wakeup}
use clia.Reactor.EventLoopThread.{
  EventLoopThread, joins, create, start_loop, wait, construct, call_back, publish, enter, turn,
  leave, clear, destruct, destroy, quit_loop, is_over,
}
use clia.Reactor.EventLoopThread.Steps.{
  checks_quit, starts, tests, destroys, is_made, is_called, is_set, is_entered, turns, is_told,
  returns, is_reset, is_destructed, Steps, stays, steps, Reached,
}
use clia.Reactor.EventLoopThread.Published.{IsConsistent, Reached-IsConsistent, quit_loop_late}
use clia.Reactor.EventLoopThread.Joining.{never_joined}

abbrev value_or {ℓ} : {A : Type ℓ} → A → Outcome A → A
value_or a (ok b) = b
value_or a (err fault) = a

abbrev e : Epoller.Epoller
e = Epoller.create Channel.create

abbrev started : EventLoopThread
started = start_loop (create true)

abbrev made : EventLoopThread
made = value_or started (construct e 5 7 started)

abbrev set : EventLoopThread
set = publish (call_back made)

-- The owner has left `start_loop` and is in the destructor, before the `quit`.
abbrev ending : EventLoopThread
ending = destroy (wait set)

ending-Steps : Steps true (create true) ending
unfolding create start_loop construct call_back publish wait destroy EventLoop.create change
    update_channel update_by has_channel update put Channel.create Epoller.create is_none join
ending-Steps =
    steps
      (steps
        (steps
          (steps (steps (steps stays (starts refl)) (is_made e 5 7 refl refl)) (is_called refl))
          (is_set refl))
        (tests refl))
      (destroys refl)

ending-Reached : Reached ending
ending-Reached = (true, ending-Steps)

Reached-IsConsistent_example : IsConsistent ending
Reached-IsConsistent_example = Reached-IsConsistent ending-Reached

abbrev told : EventLoopThread
told = value_or ending (quit_loop ending)

abbrev waiting : EventLoopThread
waiting = value_or told (enter told)

waiting-Steps : Steps false told waiting
unfolding create start_loop construct call_back publish wait destroy EventLoop.create change
    update_channel update_by has_channel update put Channel.create Epoller.create is_none join
    quit_loop enter EventLoop.enter EventLoop.quit wakeup
waiting-Steps = steps stays (is_entered refl refl)

never_joined_example : (waiting.owner ≡ joins) × (is_over waiting.thread ≡ false)
unfolding create start_loop construct call_back publish wait destroy EventLoop.create change
    update_channel update_by has_channel update put Channel.create Epoller.create is_none join
    quit_loop
never_joined_example = never_joined refl refl waiting-Steps

abbrev on_loop : (EventLoop → EventLoop) → EventLoopThread → EventLoopThread
on_loop f s = elim s.local [ none ↦ s | some l ↦ turn s (f l) ]

-- Another thread quits the loop, whose thread goes on to its end.
abbrev quitting : EventLoopThread
quitting = on_loop (EventLoop.quit false) (value_or ending (enter ending))

abbrev over : EventLoopThread
over = on_loop check quitting

abbrev late : EventLoopThread
late = value_or over (destruct (clear (leave over)))

late-Reached : Reached late
unfolding create start_loop construct call_back publish wait destroy EventLoop.create change
    update_channel update_by has_channel update put Channel.create Epoller.create is_none join enter
    EventLoop.enter EventLoop.quit wakeup check clear destruct EventLoop.destroy remove
    remove_channel
late-Reached = (
  true,
  steps
      (steps
        (steps
          (steps (steps (steps ending-Steps (is_entered refl refl)) (is_told false refl))
            (turns refl refl (checks_quit refl)))
          (returns refl refl refl))
        (is_reset refl))
      (is_destructed refl refl),
)

quit_loop_late_example : quit_loop late ≡ err Fault.bad_access
unfolding create start_loop construct call_back publish wait destroy EventLoop.create change
    update_channel update_by has_channel update put Channel.create Epoller.create is_none join enter
    EventLoop.enter EventLoop.quit wakeup check clear destruct EventLoop.destroy remove
    remove_channel
quit_loop_late_example = quit_loop_late late-Reached refl refl
