-- ===== src/Net/TcpConnection/Tests.antt =====
-- The theorems on `TcpConnection` at a connection on file descriptor 3, and a run of its methods.
use clia.Prelude.{
  ℕ, overwrite, none, some, false, ◌≡◌, refl, true, [], ◌∷◌, ◌++◌, Outcome, ok, err, Returns, arith,
}
use clia.Reactor.Channel
use clia.Reactor.Channel.{
  Channel, Events, none_event, read_event, write_event, join, without, meets, is_none, tie,
}
use clia.Reactor.Epoller.{create, change, update_channel, update_by, has_channel, update, put}
use clia.Reactor.Epoller.Reached.{created, Reached-IsSound}
use clia.Net.Buffer.{Buffer, read_fd, scatter, write_bytes}
use clia.Net.Buffer.Bounds.{Holds}
use clia.Net.TcpConnection.{
  TcpConnection, own, connecting, disconnecting, own_channel, connect_established,
}
use clia.Net.TcpConnection.Send.{wrote, send_in_loop, try_write, attempt, keep_rest}
use clia.Net.TcpConnection.Open.{Open}
use clia.Net.TcpConnection.Sending.{Pending, send_in_loop-Pending}
use clia.Net.TcpConnection.Reached.{Reached, Fresh, established, sends, Reached-Pending}
use clia.Net.TcpConnection.Bound.{Bound}
use clia.Net.TcpConnection.Dispatch.{handle_event}
use clia.Net.TcpConnection.Dispatched.{Verdict, handle_event-Verdict}

-- Two bytes of room.
abbrev small : Buffer
small = record {
  buffer = 0 ∷ 0 ∷ 0 ∷ 0 ∷ 0 ∷ 0 ∷ 0 ∷ 0 ∷ 0 ∷ 0 ∷ [];
  reader_index = 8;
  writer_index = 8;
}

-- Something to read, room to write, and both directions shut down.
abbrev arrived : Events
arrived = record none_event { epollin = true; epollout = true; epollhup = true }

abbrev notified : ℕ → Channel
notified p = record (own_channel p) { revents = arrived }

abbrev fresh : TcpConnection
fresh = record {
  poller = create notified;
  channel = 3;
  state = connecting;
  input_buffer = small;
  output_buffer = small;
  connection_callback = true;
  message_callback = true;
  write_complete_callback = true;
  close_callback = true;
  effects = [];
  sent = [];
}

small-Holds : Holds [] small
small-Holds = record { valid = omega arith; bytes = refl }

fresh-Fresh : Fresh fresh
unfolding create Channel.create
fresh-Fresh = record {
  poller = Reached-IsSound (created notified (λ p. refl));
  index = refl;
  free = refl;
  events = refl;
  state = refl;
  output = small-Holds;
  unsent = refl;
}

abbrev value_or : TcpConnection → Outcome TcpConnection → TcpConnection
value_or s (ok t) = t
value_or s (err fault) = s

abbrev running : TcpConnection
running = value_or fresh (connect_established true fresh)

running-Reached : Reached [] running
unfolding connect_established create change update_channel update_by has_channel update put
    Channel.create is_none tie join
running-Reached = established fresh-Fresh refl

abbrev running-Pending : Pending [] running
running-Pending = Reached-Pending running-Reached

abbrev told : TcpConnection
told = value_or running (send_in_loop true running (1 ∷ 2 ∷ []) (wrote 2))

told-Reached : Reached (1 ∷ 2 ∷ []) told
unfolding connect_established create change update_channel update_by has_channel update put
    Channel.create is_none tie join meets send_in_loop try_write attempt keep_rest
told-Reached = sends running-Reached (1 ∷ 2 ∷ []) (wrote 2) (omega arith) (omega arith) refl

Reached-Pending_example : Pending (1 ∷ 2 ∷ []) told
Reached-Pending_example = Reached-Pending told-Reached

running-Open : Open [] running
unfolding connect_established create change update_channel update_by has_channel update put
    Channel.create is_none tie join
running-Open = record {
  poller = running-Pending.stands.poller;
  enrolled = λ h. cc;
  output = small-Holds;
  is_open = refl;
  events = refl;
}

index_small : running.output_buffer.writer_index ≡ 8
unfolding connect_established create change update_channel update_by has_channel update put
    Channel.create is_none tie join
index_small = refl

send_in_loop-Pending_example :
    Returns
      (send_in_loop true running (1 ∷ 2 ∷ []) (wrote 1))
      (Pending (running.sent ++ (1 ∷ 2 ∷ [])))
send_in_loop-Pending_example =
    send_in_loop-Pending [] running (1 ∷ 2 ∷ []) (wrote 1) running-Open (omega (arith, index_small))
      (omega arith)

abbrev ending : TcpConnection
ending = record running { state = disconnecting }

ending-Open : Open [] ending
ending-Open = record {
  poller = running-Open.poller;
  enrolled = running-Open.enrolled;
  output = running-Open.output;
  is_open = refl;
  events = running-Open.events;
}

running-Bound : Bound arrived (own running)
unfolding connect_established create change update_channel update_by has_channel update put
    Channel.create is_none tie join
running-Bound = record {
  revents = refl;
  read_callback = refl;
  write_callback = refl;
  close_callback = refl;
  error_callback = refl;
}

running-read_fd : read_fd running.input_buffer (some []) ≡ ok small
unfolding connect_established create change update_channel update_by has_channel update put
    Channel.create is_none tie join read_fd scatter write_bytes overwrite
running-read_fd = refl

handle_event-Verdict_example :
    Verdict false true (running.sent ++ []) (handle_event true true running (some []) none)
handle_event-Verdict_example =
    handle_event-Verdict [] arrived running small (some []) none running-Open running-Bound
      running-read_fd tt
