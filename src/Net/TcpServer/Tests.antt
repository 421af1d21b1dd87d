-- ===== src/Net/TcpServer/Tests.antt =====
-- The theorems on `TcpServer` at a server that accepted one connection.
use clia.Prelude.{ℕ, List, [], ◌∷◌, inl, ◌≡◌, ◌≤◌, refl, true, false, Outcome, ok, err, Returns}
use clia.Reactor.EventLoopThreadPool
use clia.Reactor.EventLoopThreadPool.{start_threads, get_next_loop}
use clia.Reactor.Channel
use clia.Reactor.Epoller
use clia.Net.InetAddress.{InetAddress, inet}
use clia.Net.Socket
use clia.Net.Socket.{AcceptAnswer, accepted, failed, emfile}
use clia.Net.TcpServer.Serving.{Listening, handle_all}
use clia.Net.TcpServer.Serving.Served.{Served, handle_all-Served}
use clia.Net.TcpServer.{TcpServer, create, start, new_connection, destroy}
use clia.Net.TcpServer.Accounts.{
  Reached, created, starts, accepts, IsBalanced, established_destroyed,
}
use clia.Net.TcpServer.Counts.{established, destroyed, InOrder}

abbrev value_or : TcpServer → Outcome TcpServer → TcpServer
value_or s (ok t) = t
value_or s (err fault) = s

abbrev serving : TcpServer
serving = value_or (create 4) (start true (create 4) (λ i. i) false)

abbrev busy : TcpServer
busy = value_or serving (new_connection true serving 7)

busy-Reached : Reached busy
unfolding create EventLoopThreadPool.create start EventLoopThreadPool.start start_threads
    new_connection get_next_loop
busy-Reached = accepts (starts (created 4) (λ i. i) false refl) 7 refl

established_destroyed_example :
    IsBalanced busy
    × Returns (destroy true busy) (λ ts.
      (i : ℕ) → (established i ts ≡ destroyed i ts) × (established i ts ≤ 1) × InOrder i 0 ts)
established_destroyed_example = established_destroyed busy-Reached

abbrev any_port : InetAddress
any_port = record { family = inet; port = 0; address = 0 ∷ 0 ∷ 0 ∷ 0 ∷ [] }

abbrev listening : Listening
listening = record {
  acceptor = record {
    poller = Epoller.create (λ p. Channel.create 0);
    listening = true;
    accept_socket = Socket.create 3;
    accept_channel = 0;
    new_connection_callback = true;
    handled = [];
  };
  server = busy;
}

abbrev answers : List AcceptAnswer
answers = accepted 9 any_port ∷ failed emfile ∷ accepted 8 any_port ∷ []

handle_all-Served_example :
    Returns (handle_all listening answers) (λ m. Served busy (9 ∷ 8 ∷ []) m.server)
unfolding create EventLoopThreadPool.create start EventLoopThreadPool.start start_threads
    new_connection get_next_loop
handle_all-Served_example =
    handle_all-Served answers listening refl (record { started = refl; next_loop = inl refl })
      (refl, tt) (refl, refl, (refl, refl, tt))
