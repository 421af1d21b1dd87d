-- ===== src/Net/Acceptor/Accepting.antt =====
-- The life of an `Acceptor`, from the constructor to the destructor.
use clia.Prelude.{
  ℕ, ◌≡◌, Bool, true, false, List, [], ◌∷◌, ◌++◌, none, some, if◌then◌else◌, Outcome, ok, ◌>>=◌,
}
use clia.Reactor.Channel.{Channel, new, Events, read_event, join}
use clia.Reactor.Channel
use clia.Reactor.Epoller.{Epoller, put}
use clia.Reactor.Epoller.Registry.{IsSound}
use clia.Reactor.Epoller.Changes.{Changed}
use clia.Net.InetAddress.{InetAddress}
use clia.Net.Socket.{
  Socket, SystemCall, AcceptAnswer, AcceptError, accepted, failed, is_named, sets, binds, listens,
  closes, reuse_addr, reuse_port,
}
use clia.Net.Socket
use clia.Net.Acceptor.{
  Acceptor, Handled, calls_back, drops, create, set_new_connection_callback, listen, handle_read,
  destroy,
}

-- The channel of the acceptor can be changed, and its handler does not run.
abbrev pub own : Acceptor → Channel
own s = s.poller.store s.accept_channel

record Ready (s : Acceptor) : Type 0 where
  sound : IsSound s.poller
  quiet : (own s).event_handling ≡ false
  free : (own s).index ≡ new → s.poller.channels (own s).fd ≡ none

-- The poller after a change of the channel's events.
record Turned (p : ℕ) (events : Events) (d : Epoller) : Type 0 where
  changed : Changed p events d
  quiet : (d.store p).event_handling ≡ false

-- At the end the poller is sound, and the descriptor was closed last.
record Ended (s s' : Acceptor) : Type 0 where
  sound : IsSound s'.poller
  same : s'.handled ≡ s.handled
  closed : s'.accept_socket.calls ≡ s.accept_socket.calls ++ closes s.accept_socket.sockfd ∷ []

-- The answers of the kernel, one after the other.
abbrev pub handle_all : Acceptor → List AcceptAnswer → Outcome Acceptor
handle_all s [] = ok s
handle_all s (answer ∷ answers) = handle_read true s answer >>= λ s'. handle_all s' answers

abbrev pub AllNamed : List AcceptAnswer → Type 0
AllNamed [] = Unit {0}
AllNamed (accepted connfd addr ∷ answers) = AllNamed answers
AllNamed (failed error ∷ answers) = (is_named error ≡ true) × AllNamed answers

-- The specification: what becomes of each connection.
abbrev pub outcomes : Bool → List AcceptAnswer → List Handled
outcomes is_set [] = []
outcomes is_set (accepted connfd addr ∷ answers) =
    (if is_set then calls_back connfd addr else drops connfd) ∷ outcomes is_set answers
outcomes is_set (failed error ∷ answers) = outcomes is_set answers

-- Only `handled` changes.
abbrev with_handled : Acceptor → List Handled → Acceptor
with_handled s hs = record s { handled = hs }

-- The calls of the kernel of a whole life.
abbrev pub all_calls : ℕ → InetAddress → Bool → List SystemCall
all_calls listenfd addr reuseport =
    sets listenfd reuse_addr true
    ∷ sets listenfd reuse_port reuseport
    ∷ binds listenfd addr
    ∷ listens listenfd
    ∷ closes listenfd
    ∷ []

module _ (e : Epoller) (p : ℕ) (addr : InetAddress) (reuseport : Bool) (listenfd : ℕ) where
  -- The acceptor as it is made.
  abbrev built : Acceptor
  built = record {
    poller = put e p (Channel.set_read_callback (Channel.create listenfd) true);
    listening = false;
    accept_socket = record {
      sockfd = listenfd;
      calls =
          sets listenfd reuse_addr true
          ∷ sets listenfd reuse_port reuseport
          ∷ binds listenfd addr
          ∷ [];
    };
    accept_channel = p;
    new_connection_callback = false;
    handled = [];
  }

  -- From the constructor on, the callback set or not, and through all answers, to the destructor.
  abbrev pub life : Bool → List AcceptAnswer → Outcome Acceptor
  life is_set answers = create e p addr reuseport (some listenfd) true >>= λ s.
      listen true (set_new_connection_callback s is_set) true >>= λ s.
      handle_all s answers >>= λ s. destroy true s

  -- What is left of it.
  pub record Lived (is_set : Bool) (answers : List AcceptAnswer) (s : Acceptor) : Type 0 where
    pub sound : IsSound s.poller
    pub all_handled : s.handled ≡ outcomes is_set answers
    pub all_closed : s.accept_socket.calls ≡ all_calls listenfd addr reuseport

  abbrev opened_socket : Socket
  opened_socket = record {
    sockfd = listenfd;
    calls =
        sets listenfd reuse_addr true
        ∷ sets listenfd reuse_port reuseport
        ∷ binds listenfd addr
        ∷ listens listenfd
        ∷ [];
  }

  -- Between `listen` and the destructor.
  abbrev accepting : Epoller → Bool → List Handled → Acceptor
  accepting d is_set handled = record {
    poller = d;
    listening = true;
    accept_socket = opened_socket;
    accept_channel = p;
    new_connection_callback = is_set;
    handled = handled;
  }

  -- What `listen` comes to.
  abbrev Accepts : Bool → Acceptor → Type 0
  Accepts is_set s =
      (d : Epoller) × Turned p (join (own built).events read_event) d × (s ≡ accepting d is_set [])
