-- ===== src/Net/Acceptor.antt =====
-- clia/src/net/acceptor.cc: `Acceptor`. It has the poller of its loop and the number of its channel in it.
-- A method takes first whether its caller is on the loop's thread.
pub mod Channels
pub mod Accepting
mod Tests
use clia.Prelude.{
  ℕ, Bool, true, false, not, List, [], ◌∷◌, ◌++◌, Option, none, some, if◌then◌else◌, Outcome, ok,
  err, Fault, ◌>>=◌, ◌>>◌, assert,
}
use clia.Reactor.Channel
use clia.Reactor.Epoller.{Epoller, put, enable_reading, disable_all, remove, destroy_channel}
use clia.Net.InetAddress
use clia.Net.InetAddress.{InetAddress}
use clia.Net.Socket
use clia.Net.Socket.{
  Socket, SystemCall, AcceptAnswer, closes, set_reuse_addr, set_reuse_port, bind_address, accept,
}

-- What becomes of a connection: it is handed to the callback, or closed.
pub data Handled : Type 0 where
  calls_back : ℕ → InetAddress → Handled
  drops : ℕ → Handled

pub record Acceptor : Type 0 where
  pub poller : Epoller
  pub listening : Bool
  pub accept_socket : Socket
  pub accept_channel : ℕ
  pub new_connection_callback : Bool
  pub handled : List Handled

-- The channel is made at the place `p` of the poller; `::socket` answers a descriptor, or none.
unfoldable pub create : Epoller → ℕ → InetAddress → Bool → Option ℕ → Bool → Outcome Acceptor
create e p listen_addr reuseport none bound = err Fault.aborted
create e p listen_addr reuseport (some listenfd) bound = do
  s ←
      bind_address (set_reuse_port (set_reuse_addr (Socket.create listenfd) true) reuseport)
        listen_addr bound
  ok (record {
    poller = put e p (Channel.set_read_callback (Channel.create s.sockfd) true);
    listening = false;
    accept_socket = s;
    accept_channel = p;
    new_connection_callback = false;
    handled = [];
  })

abbrev pub set_new_connection_callback : Acceptor → Bool → Acceptor
set_new_connection_callback s is_set = record s { new_connection_callback = is_set }

-- `accepted` is whether the kernel accepts `::listen`.
unfoldable pub listen : Bool → Acceptor → Bool → Outcome Acceptor
listen on_loop s accepted = do
  assert on_loop
  accept_socket ← Socket.listen s.accept_socket accepted
  e ← enable_reading s.poller s.accept_channel
  ok (record s { listening = true; accept_socket = accept_socket; poller = e })

unfoldable pub handle_read : Bool → Acceptor → AcceptAnswer → Outcome Acceptor
handle_read on_loop s answer = do
  assert on_loop
  (connfd, peer_addr) ← accept InetAddress.create answer
  ok (elim connfd [
    | some fd ↦ record s {
      handled =
          s.handled
          ++ (if s.new_connection_callback then calls_back fd peer_addr else drops fd) ∷ [];
    }
    | none ↦ s
  ])

-- The destructor with those of its members, the channel and then the socket.
unfoldable pub destroy : Bool → Acceptor → Outcome Acceptor
destroy on_loop s = do
  disabled ← disable_all s.poller s.accept_channel
  removed ← remove disabled s.accept_channel
  destroy_channel on_loop removed s.accept_channel
  ok (record s { poller = removed; accept_socket = Socket.destroy s.accept_socket })
