-- ===== src/Net/TcpConnection/Ending.antt =====
-- The two ways in which a server ends a connection: after `handle_close`, and in its destructor.
use clia.Prelude.{◌≡◌, Bool, true, false, Outcome, ok, err, Fault, Returns}
use clia.Reactor.Epoller.Registry.{IsSound}
use clia.Net.TcpConnection.{TcpConnection, own, destroy}
use clia.Net.TcpConnection.Open.{Open}
use clia.Net.TcpConnection.Reached.{Reached}
use clia.Net.TcpConnection.Closing.{Closed}

-- The connection is closed, and no event of its channel is being handled.
record Left (s : TcpConnection) : Type 0 where
  closed : Closed s
  resting : (own s).event_handling ≡ false

-- The destructor passes, that of the channel as well, and the poller agrees with the kernel.
pub record Gone (s : TcpConnection) : Type 0 where
  pub destroyed : destroy true s ≡ ok tt
  pub poller : IsSound s.poller

-- What `connect_destoryed` comes to, by whether the connection is connected.
abbrev pub Ended : Bool → Outcome TcpConnection → Type 0
Ended true m = Returns m Gone
Ended false m = m ≡ err Fault.assertion
