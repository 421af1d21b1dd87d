-- ===== src/Net/TcpConnection.antt =====
-- clia/src/net/tcp_connection.cc and clia/clia/net/tcp_connection.h. A method takes first whether its
-- caller is on the thread of the loop. The answers of the kernel are arguments; what the user's
-- callbacks and the loop's queue get is a list. What a callback calls in turn is a call of its own.
pub mod Send
pub mod Open
pub mod Sending
pub mod Writing
pub mod Reached
pub mod Closing
pub mod Ending
pub mod Bound
pub mod Dispatch
pub mod Stages
pub mod Dispatched
mod Tests
use clia.Prelude.{
  ℕ, ◌+◌, ◌*◌, Bool, true, false, not, ◌&&◌, ◌||◌, List, [], ◌∷◌, ◌++◌, length, take, drop, slice,
  Option, none, some, ltb, leb, ◌==◌, if◌then◌else◌, Outcome, ok, err, Fault, ◌>>=◌, ◌>>◌, assert,
  sub_size,
}
use clia.Reactor.Channel
use clia.Reactor.Channel.{Channel, is_writing, tie}
use clia.Reactor.Epoller.{
  Epoller, update_at, enable_reading, enable_writing, disable_writing, disable_all, remove,
  destroy_channel,
}
use clia.Net.Buffer.{Buffer, readable_bytes, append, read_fd, write_fd, initial_size}
use clia.Net.Buffer

pub data State : Type 0 where
  disconnected connecting connected disconnecting : State

-- `queues_…` is a call of `queue_in_loop` or, from another thread, of `run_in_loop`.
pub data Effect : Type 0 where
  connects messages closes shuts_down_write : Effect
  queues_write_complete queues_shutdown : Effect
  queues_send : List ℕ → Effect

-- `poller` is that of the loop, in which `channel_` is the object at `channel`. A callback is told by
-- whether it is set. `sent` are the bytes that `::write` took.
pub record TcpConnection : Type 0 where
  pub poller : Epoller
  pub channel : ℕ
  pub state : State
  pub input_buffer : Buffer
  pub output_buffer : Buffer
  pub connection_callback : Bool
  pub message_callback : Bool
  pub write_complete_callback : Bool
  pub close_callback : Bool
  pub effects : List Effect
  pub sent : List ℕ

-- The object `channel_` as the constructor leaves it.
abbrev pub own_channel : ℕ → Channel
own_channel sockfd = record (Channel.create sockfd) {
  read_callback = true;
  write_callback = true;
  close_callback = true;
  error_callback = true;
}

unfoldable pub create : Epoller → ℕ → ℕ → Outcome TcpConnection
create e p sockfd = do
  input ← Buffer.create initial_size
  output ← Buffer.create initial_size
  ok (record {
    poller = record e { store = update_at e.store p (own_channel sockfd) };
    channel = p;
    state = connecting;
    input_buffer = input;
    output_buffer = output;
    connection_callback = false;
    message_callback = false;
    write_complete_callback = false;
    close_callback = false;
    effects = [];
    sent = [];
  })

abbrev pub is_disconnected : State → Bool
is_disconnected disconnected = true
is_disconnected connecting = false
is_disconnected connected = false
is_disconnected disconnecting = false

abbrev pub is_connecting : State → Bool
is_connecting disconnected = false
is_connecting connecting = true
is_connecting connected = false
is_connecting disconnecting = false

abbrev pub is_connected : State → Bool
is_connected disconnected = false
is_connected connecting = false
is_connected connected = true
is_connected disconnecting = false

abbrev pub is_disconnecting : State → Bool
is_disconnecting disconnected = false
is_disconnecting connecting = false
is_disconnecting connected = false
is_disconnecting disconnecting = true

-- The destructor, with that of `channel_`, which `on_loop` tells whether it runs on the loop's thread.
abbrev pub destroy : Bool → TcpConnection → Outcome (Unit {0})
destroy on_loop s = do assert (is_disconnected s.state); destroy_channel on_loop s.poller s.channel

-- The setters of the callbacks, told whether the callback is not empty.
pub set_connection_callback : TcpConnection → Bool → TcpConnection
set_connection_callback s cb = record s { connection_callback = cb }

pub set_message_callback : TcpConnection → Bool → TcpConnection
set_message_callback s cb = record s { message_callback = cb }

pub set_write_complete_callback : TcpConnection → Bool → TcpConnection
set_write_complete_callback s cb = record s { write_complete_callback = cb }

pub set_close_callback : TcpConnection → Bool → TcpConnection
set_close_callback s cb = record s { close_callback = cb }

abbrev pub set_state : TcpConnection → State → TcpConnection
set_state s state = record s { state = state }

-- `if (callback_) { … }`
abbrev pub emit_if : Bool → Effect → TcpConnection → TcpConnection
emit_if is_set effect s = if is_set then record s { effects = s.effects ++ effect ∷ [] } else s

abbrev pub own : TcpConnection → Channel
own s = s.poller.store s.channel

unfoldable pub connect_established : Bool → TcpConnection → Outcome TcpConnection
connect_established on_loop s = do
  assert on_loop
  assert (is_connecting s.state)
  let e : Epoller = record s.poller { store = update_at s.poller.store s.channel (tie (own s)) }
  e' ← enable_reading e s.channel
  ok (emit_if s.connection_callback connects (record s { state = connected; poller = e' }))

-- The part of `connect_destoryed` under its test.
unfoldable pub disconnect : TcpConnection → Outcome TcpConnection
disconnect s = do
  e ← disable_all s.poller s.channel
  ok (emit_if s.connection_callback connects (record s { state = disconnected; poller = e }))

unfoldable pub connect_destoryed : Bool → TcpConnection → Outcome TcpConnection
unfolding disconnect
connect_destoryed on_loop s = do
  assert on_loop
  s' ← if is_connected s.state then disconnect s else ok s
  e ← remove s'.poller s'.channel
  ok (record s' { poller = e })

unfoldable pub handle_close : Bool → TcpConnection → Outcome TcpConnection
handle_close on_loop s = do
  assert on_loop
  assert (is_connected s.state || is_disconnecting s.state)
  e ← disable_all s.poller s.channel
  let s' : TcpConnection =
      emit_if s.connection_callback connects (record s { state = disconnected; poller = e })
  ok (emit_if s.close_callback closes s')

-- `handle_read` after `read_fd`, whose answer is the bytes received, or `none` for -1. `handle_error`
-- only logs.
unfoldable pub received : Bool → TcpConnection → Option (List ℕ) → Outcome TcpConnection
unfolding handle_close
received on_loop s none = ok s
received on_loop s (some []) = handle_close on_loop s
received on_loop s (some (byte ∷ bytes)) = ok (emit_if s.message_callback messages s)

unfoldable pub handle_read : Bool → TcpConnection → Option (List ℕ) → Outcome TcpConnection
unfolding received
handle_read on_loop s answer = do
  assert on_loop
  input ← read_fd s.input_buffer answer
  received on_loop (record s { input_buffer = input }) answer

unfoldable pub shutdown_in_loop : Bool → TcpConnection → Outcome TcpConnection
shutdown_in_loop on_loop s = do
  assert on_loop
  ok (emit_if (not (is_writing (own s))) shuts_down_write s)

-- `handle_write` when all bytes of `output_buffer_` are sent.
unfoldable pub flushed : Bool → TcpConnection → Outcome TcpConnection
unfolding shutdown_in_loop
flushed on_loop s = do
  e ← disable_writing s.poller s.channel
  let s' : TcpConnection =
      emit_if s.write_complete_callback queues_write_complete (record s { poller = e })
  if is_disconnecting s.state then shutdown_in_loop on_loop s' else ok s'

-- The bytes that `output_buffer_.peek()` points at.
abbrev pub peeked : Buffer → List ℕ
peeked b = slice b.reader_index b.writer_index b.buffer

-- `handle_write` with the answer of `::write` in `write_fd`: `none` for -1.
unfoldable pub written : Bool → TcpConnection → Option ℕ → Outcome TcpConnection
unfolding flushed
written on_loop s none = ok s
written on_loop s (some n) = do
  output ← write_fd s.output_buffer (some n)
  let s' : TcpConnection = record s {
    output_buffer = output;
    sent = s.sent ++ take n (peeked s.output_buffer);
  }
  if ltb 0 n && (readable_bytes output == 0) then flushed on_loop s' else ok s'

unfoldable pub handle_write : Bool → TcpConnection → Option ℕ → Outcome TcpConnection
unfolding written
handle_write on_loop s answer = do
  assert on_loop
  if is_writing (own s) then written on_loop s answer else ok s
