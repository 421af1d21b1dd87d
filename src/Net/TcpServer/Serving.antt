-- ===== src/Net/TcpServer/Serving.antt =====
-- The acceptor of a server: what clia/src/net/acceptor.cc accepts, and the callback that the constructor
-- in clia/src/net/tcp_server.cc gives it.
pub mod Served
use clia.Prelude.{ℕ, Bool, true, false, List, [], ◌∷◌, length, drop, Outcome, ok, err, ◌>>=◌}
use clia.Net.Socket.{AcceptAnswer}
use clia.Net.Acceptor
use clia.Net.Acceptor.{Acceptor, Handled, calls_back, drops, set_new_connection_callback}
use clia.Net.TcpServer.{TcpServer, new_connection}

-- `acceptor_` and the rest of the server.
pub record Listening : Type 0 where
  pub acceptor : Acceptor
  pub server : TcpServer

-- The callback is set in the constructor of the server.
abbrev pub create : Acceptor → TcpServer → Listening
create a s = record { acceptor = set_new_connection_callback a true; server = s }

-- The callback for what the acceptor has handled.
unfoldable pub call_all : Bool → TcpServer → List Handled → Outcome TcpServer
call_all on_loop s [] = ok s
call_all on_loop s (calls_back fd peer_addr ∷ hs) =
    new_connection on_loop s fd >>= λ s'. call_all on_loop s' hs
call_all on_loop s (drops fd ∷ hs) = call_all on_loop s hs

-- The read callback of the acceptor's channel.
unfoldable pub handle_read : Bool → Listening → AcceptAnswer → Outcome Listening
handle_read on_loop l answer = do
  a ← Acceptor.handle_read on_loop l.acceptor answer
  s ← call_all on_loop l.server (drop (length l.acceptor.handled) a.handled)
  ok (record { acceptor = a; server = s })

unfoldable pub handle_all : Listening → List AcceptAnswer → Outcome Listening
handle_all l [] = ok l
handle_all l (answer ∷ answers) = handle_read true l answer >>= λ l'. handle_all l' answers
