-- ===== src/Net/TcpConnection/Send.antt =====
-- clia/src/net/tcp_connection.cc: the methods `send`, `shutdown` and `send_in_loop`.
use clia.Prelude.{
  ℕ, ◌+◌, ◌^◌, Bool, true, false, not, ◌&&◌, ◌||◌, List, ◌++◌, length, take, slice, ltb, leb, ◌==◌,
  if◌then◌else◌, Outcome, ok, ◌>>=◌, ◌>>◌, assert, sub_size,
}
use clia.Reactor.Channel.{is_writing}
use clia.Reactor.Epoller.{enable_writing}
use clia.Net.Buffer.{readable_bytes, append}
use clia.Net.TcpConnection.{
  TcpConnection, own, emit_if, is_connected, is_disconnected, disconnecting, set_state,
  queues_write_complete, queues_send, queues_shutdown, shutdown_in_loop,
}

-- <errno.h> of Linux
abbrev pub ewouldblock : ℕ
ewouldblock = 11

abbrev pub epipe : ℕ
epipe = 32

abbrev pub econnreset : ℕ
econnreset = 104

-- The answer of `::write`: the number of bytes that it took, or -1 with an `errno`.
pub data Written : Type 0 where
  wrote failed : ℕ → Written

-- The local variables of `send_in_loop`, and the connection after the `::write`.
pub record Attempt : Type 0 where
  pub connection : TcpConnection
  pub nwrote : ℕ
  pub remaining : ℕ
  pub fault_error : Bool

-- `EPIPE == errno || ECONNRESET`, with the constant as a condition, after the test of `EWOULDBLOCK`.
abbrev pub is_fault : ℕ → Bool
is_fault errno = not (errno == ewouldblock) && (errno == epipe || not (econnreset == 0))

unfoldable pub attempt : TcpConnection → List ℕ → Written → Attempt
attempt s bytes (wrote n) = record {
  connection =
      emit_if (sub_size (length bytes) n == 0 && s.write_complete_callback) queues_write_complete
        (record s { sent = s.sent ++ take n bytes });
  nwrote = n;
  remaining = sub_size (length bytes) n;
  fault_error = false;
}
attempt s bytes (failed errno) = record {
  connection = s;
  nwrote = 0;
  remaining = length bytes;
  fault_error = is_fault errno;
}

-- Without the `::write`.
abbrev pub postpone : TcpConnection → List ℕ → Attempt
postpone s bytes = record {
  connection = s;
  nwrote = 0;
  remaining = length bytes;
  fault_error = false;
}

-- The first test of `send_in_loop`.
unfoldable pub try_write : TcpConnection → List ℕ → Written → Attempt
unfolding attempt
try_write s bytes answer =
    if not (is_writing (own s)) && readable_bytes s.output_buffer == 0
    then attempt s bytes answer
    else postpone s bytes

unfoldable pub wait_for_writing : TcpConnection → Outcome TcpConnection
wait_for_writing s =
    if is_writing (own s)
    then ok s
    else do e ← enable_writing s.poller s.channel; ok (record s { poller = e })

-- The rest of `send_in_loop`. `remaining` is signed in its last test.
unfoldable pub keep_rest : List ℕ → Attempt → Outcome TcpConnection
unfolding wait_for_writing
keep_rest bytes a = do
  assert (leb a.remaining (length bytes))
  if not a.fault_error && (ltb 0 a.remaining && ltb a.remaining (2 ^ 63))
      then (do
        output ← append a.connection.output_buffer (slice a.nwrote (a.nwrote + a.remaining) bytes)
        wait_for_writing (record a.connection { output_buffer = output }))
      else ok a.connection

unfoldable pub send_in_loop : Bool → TcpConnection → List ℕ → Written → Outcome TcpConnection
unfolding try_write keep_rest
send_in_loop on_loop s bytes answer = do
  assert on_loop
  if is_disconnected s.state then ok s else keep_rest bytes (try_write s bytes answer)

-- From another thread the pointer and the length are queued, for `send_in_loop` to read later.
unfoldable pub send : Bool → TcpConnection → List ℕ → Written → Outcome TcpConnection
unfolding send_in_loop
send on_loop s bytes answer =
    if is_connected s.state
    then (if on_loop
        then send_in_loop on_loop s bytes answer
        else ok (emit_if true (queues_send bytes) s))
    else ok s

unfoldable pub shutdown : Bool → TcpConnection → Outcome TcpConnection
unfolding shutdown_in_loop
shutdown on_loop s =
    if is_connected s.state
    then (let s' = set_state s disconnecting in
        if on_loop then shutdown_in_loop on_loop s' else ok (emit_if true queues_shutdown s'))
    else ok s
