-- ===== src/Reactor/EventLoop/Tests.antt =====
-- The theorems on `EventLoop` at a loop whose wakeup channel is at 5.
use clia.Prelude.{refl, Option, false, [], ◌∷◌, Outcome, ok, err}
use clia.Reactor.Channel
use clia.Reactor.Channel.{join, is_none}
use clia.Reactor.Epoller
use clia.Reactor.Epoller.{Epoller, change, update_channel, update_by, has_channel, update, put}
use clia.Reactor.EventLoop.{EventLoop, outside, create, push}
use clia.Reactor.EventLoop.Queue.{Reached, KeepsQueue, created, pushes}
use clia.Reactor.EventLoop.Interleaved.{Reached-KeepsQueue}

abbrev start : EventLoop
start = record {
  looping = false;
  quitting = false;
  event_handing = false;
  calling_pending_functors = false;
  current_active_channel = Option.none;
  active_channels = [];
  poller = Epoller.create Channel.create;
  wakeup_channel = 5;
  wakeup_count = 0;
  pending_functors = [];
  phase = outside;
  called = [];
  executed = [];
}

abbrev value_or : EventLoop → Outcome EventLoop → EventLoop
value_or s (ok t) = t
value_or s (err fault) = s

abbrev running : EventLoop
running = value_or start (create false (Epoller.create Channel.create) 5 7)

running-Reached : Reached [] 0 false running
unfolding create Epoller.create change update_channel update_by has_channel update put
    Channel.create is_none join
running-Reached = created (Epoller.create Channel.create) 5 7 refl

Reached-KeepsQueue_example : KeepsQueue (9 ∷ []) 1 false (push running 9)
Reached-KeepsQueue_example = Reached-KeepsQueue (pushes running-Reached 9)
