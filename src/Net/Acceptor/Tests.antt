-- ===== src/Net/Acceptor/Tests.antt =====
-- The theorem on `Acceptor` on an empty poller, with a connection, an error and another connection.
use clia.Prelude.{List, [], ◌∷◌}
use clia.Reactor.Channel
use clia.Reactor.Epoller
use clia.Reactor.Epoller.{Epoller}
use clia.Net.InetAddress.{InetAddress, inet}
use clia.Net.Socket.{AcceptAnswer, accepted, failed, emfile}

abbrev any_port : InetAddress
any_port = record { family = inet; port = 0; address = 0 ∷ 0 ∷ 0 ∷ 0 ∷ [] }

abbrev empty : Epoller
empty = Epoller.create (λ p. Channel.create 0)

abbrev answers : List AcceptAnswer
answers = accepted 7 any_port ∷ failed emfile ∷ accepted 8 any_port ∷ []
