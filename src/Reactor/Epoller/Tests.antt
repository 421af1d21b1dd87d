-- ===== src/Reactor/Epoller/Tests.antt =====
-- The theorems on `Epoller` at an epoller whose channels have their own number for file descriptor.
use clia.Prelude.{◌≡◌, refl, Outcome, ok, err, Fault}
use clia.Reactor.Channel
use clia.Reactor.Channel.{
  Channel, Events, Index, new, read_event, write_event, none_event, is_none_event, is_none,
}
use clia.Reactor.Epoller.{
  Epoller, create, change, remove, update_channel, update_by, has_channel, update, put,
  remove_channel,
}
use clia.Reactor.Epoller.Registry.{IsSound}
use clia.Reactor.Epoller.Reached.{Reached, created, changes, Reached-IsSound}

abbrev fresh : Epoller
fresh = create Channel.create

abbrev get_or : Epoller → Outcome Epoller → Epoller
get_or e (ok d) = d
get_or e (err fault) = e

abbrev reading : Epoller
reading = get_or fresh (change fresh 3 read_event)

fresh-Reached : Reached fresh
unfolding Channel.create
fresh-Reached = created Channel.create (λ p. refl)

reading-Reached : Reached reading
unfolding create change update_channel update_by has_channel update put Channel.create is_none
reading-Reached = changes fresh-Reached 3 read_event refl

Reached-IsSound_example : IsSound reading
Reached-IsSound_example = Reached-IsSound reading-Reached

-- A channel that still waits cannot be removed.
remove-reading : remove reading 3 ≡ err Fault.assertion
unfolding create change update_channel update_by has_channel update put Channel.create is_none
    remove remove_channel
remove-reading = refl
