-- ===== src/Net/TcpConnection/Dispatch.antt =====
-- clia/src/reactor/channel.cc, `handle_event`, for the channel of a connection: its callbacks are the
-- methods that the constructor in clia/src/net/tcp_connection.cc binds.
use clia.Prelude.{
  ℕ, Bool, true, false, not, ◌&&◌, ◌||◌, List, Option, if◌then◌else◌, Outcome, ok, ◌>>=◌,
}
use clia.Reactor.Channel.{Channel, Events}
use clia.Reactor.Epoller.{update_at}
use clia.Net.TcpConnection.{TcpConnection, own, handle_close, handle_read, handle_write}

-- `event_handling_ = …`
abbrev pub set_handling : Bool → TcpConnection → TcpConnection
set_handling b s =
    let c : Channel = record (own s) { event_handling = b } in
    record s { poller = record s.poller { store = update_at s.poller.store s.channel c } }

-- The tests of `revents_`.
abbrev pub hangs_up : Events → Bool
hangs_up r = r.epollhup && not r.epollin

abbrev pub reads_now : Events → Bool
reads_now r = r.epollin || r.epollpri || r.epollrdhup

-- `handle_error` asks the socket for its error and logs it.
abbrev pub handle_error : TcpConnection → TcpConnection
handle_error s = s

-- The four tests, each with its call. `read` and `write` are the answers of `::readv` and `::write`,
-- should they be called.
abbrev pub close_if : Bool → TcpConnection → Outcome TcpConnection
close_if on_loop s =
    if hangs_up (own s).revents && (own s).close_callback then handle_close on_loop s else ok s

abbrev pub error_if : TcpConnection → TcpConnection
error_if s = if (own s).revents.epollerr && (own s).error_callback then handle_error s else s

abbrev pub read_if : Bool → Option (List ℕ) → TcpConnection → Outcome TcpConnection
read_if on_loop read s =
    if reads_now (own s).revents && (own s).read_callback then handle_read on_loop s read else ok s

abbrev pub write_if : Bool → Option ℕ → TcpConnection → Outcome TcpConnection
write_if on_loop write s =
    if (own s).revents.epollout && (own s).write_callback
    then handle_write on_loop s write
    else ok s

unfoldable pub handle_event_with_guard :
    Bool → TcpConnection → Option (List ℕ) → Option ℕ → Outcome TcpConnection
handle_event_with_guard on_loop s read write = do
  s1 ← close_if on_loop (set_handling true s)
  s2 ← read_if on_loop read (error_if s1)
  s3 ← write_if on_loop write s2
  ok (set_handling false s3)

-- `alive` tells whether `tie_.lock()` finds the connection.
unfoldable pub handle_event :
    Bool → Bool → TcpConnection → Option (List ℕ) → Option ℕ → Outcome TcpConnection
handle_event alive on_loop s read write =
    if (own s).tied
    then (if alive then handle_event_with_guard on_loop s read write else ok s)
    else handle_event_with_guard on_loop s read write
