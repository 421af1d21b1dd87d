-- ===== src/Net/TcpConnection/Dispatched.antt =====
-- All events that can arrive for the channel of an open connection.
use clia.Prelude.{
  ℕ, ◌≡◌, refl, ap, Bool, true, false, ◌&&◌, ◌||◌, List, ◌++◌, length, Option, if◌then◌else◌,
  Outcome, ok, err, Fault, ◌>>=◌, Returns, Returns-bind, Returns-err,
}
use clia.Reactor.Channel.{Events}
use clia.Reactor.Epoller.Registry.{==_refl}
use clia.Net.Buffer.{Buffer, read_fd}
use clia.Net.TcpConnection.{TcpConnection, own}
use clia.Net.TcpConnection.Open.{Open}
use clia.Net.TcpConnection.Writing.{Fits}
use clia.Net.TcpConnection.Bound.{Bound}
use clia.Net.TcpConnection.Dispatch.{
  set_handling, hangs_up, reads_now, handle_error, close_if, error_if, read_if, write_if,
  handle_event, handle_event_with_guard,
}
use clia.Net.TcpConnection.Stages.{
  Stands, Left, Stage, is_end, set_handling-Open, set_handling-Closed, set_handling-Bound,
  close-Stage, read-Stage, read_twice, write-Stage,
}

-- Whether the read that the events ask for finds the end of the stream.
abbrev pub reads_end : Events → Option (List ℕ) → Bool
reads_end r read = reads_now r && is_end read

abbrev pub ends : Events → Option (List ℕ) → Bool
ends r read = hangs_up r || reads_end r read

abbrev pub ends_twice : Events → Option (List ℕ) → Bool
ends_twice r read = hangs_up r && reads_end r read

-- The dispatch is over, and the connection is closed or open.
pub record Dispatched (ended : Bool) (whole : List ℕ) (s : TcpConnection) : Type 0 where
  pub left : Left ended whole s
  pub idle : (own s).event_handling ≡ false

Left-Dispatched :
    (ended : Bool) (whole : List ℕ) (s : TcpConnection)
    → Left ended whole s
    → Dispatched ended whole (set_handling false s)
Left-Dispatched true whole s v = record {
  left = set_handling-Closed false v;
  idle = rw (==_refl s.channel) refl;
}
Left-Dispatched false whole s v = record {
  left = record { waiting = v.waiting; stands = set_handling-Open false v.stands; split = v.split };
  idle = rw (==_refl s.channel) refl;
}

-- `handle_error` changes nothing.
error_if-Stage : (P : TcpConnection → Type 0) (s : TcpConnection) → P s → P (error_if s)
error_if-Stage P s v = go ((own s).revents.epollerr && (own s).error_callback)
  where
    go : (b : Bool) → P (if b then handle_error s else s)
    go true = v
    go false = v

module _ {q : List ℕ} {r : Events} {s : TcpConnection} {input : Buffer} (read : Option (List ℕ))
    (write : Option ℕ) (o : Open q s) (b : Bound r (own s))
    (f : read_fd s.input_buffer read ≡ ok input) where
  first : Stage false q s.sent s.input_buffer r (set_handling true s)
  first = record {
    stands = (set_handling-Open true o, refl);
    bound = set_handling-Bound true s b;
    input_buffer = refl;
  }

  guarded-Dispatched :
      Fits (length q) write
      → ends_twice r read ≡ false
      → Returns (handle_event_with_guard true s read write) (Dispatched (ends r read) (s.sent ++ q))
  unfolding handle_event_with_guard
  guarded-Dispatched fits once =
      Returns-bind (close_if true (set_handling true s))
        (λ s1. read_if true read (error_if s1) >>= λ s2.
          write_if true write s2 >>= λ s3. ok (set_handling false s3))
        (Stage (hangs_up r) q s.sent s.input_buffer r) (Dispatched (ends r read) (s.sent ++ q))
        (close-Stage q s.sent (set_handling true s) first)
        (λ s1 st1.
          Returns-bind (read_if true read (error_if s1))
            (λ s2. write_if true write s2 >>= λ s3. ok (set_handling false s3))
            (λ t. Stands (ends r read) q s.sent t × Bound r (own t))
            (Dispatched (ends r read) (s.sent ++ q))
            (read-Stage q s.sent (hangs_up r) (error_if s1) read input
              (error_if-Stage (Stage (hangs_up r) q s.sent s.input_buffer r) s1 st1) f once)
            (λ s2 k.
              Returns-bind (write_if true write s2) (λ s3. ok (set_handling false s3))
                (λ t. Left (ends r read) (s.sent ++ q) t × Bound r (own t))
                (Dispatched (ends r read) (s.sent ++ q))
                (write-Stage q s.sent (ends r read) r s2 write k.0 k.1 fits)
                (λ s3 l. Left-Dispatched (ends r read) (s.sent ++ q) s3 l.0)))

  guarded_twice :
      ends_twice r read ≡ true → handle_event_with_guard true s read write ≡ err Fault.assertion
  unfolding handle_event_with_guard
  guarded_twice twice =
      Returns-err (close_if true (set_handling true s))
        (λ s1. read_if true read (error_if s1) >>= λ s2.
          write_if true write s2 >>= λ s3. ok (set_handling false s3))
        (Stage (hangs_up r) q s.sent s.input_buffer r)
        (close-Stage q s.sent (set_handling true s) first)
        (λ s1 st1.
          ap (λ m. m >>= λ s2. write_if true write s2 >>= λ s3. ok (set_handling false s3))
            (read_twice q s.sent (hangs_up r) (error_if s1) read input
              (error_if-Stage (Stage (hangs_up r) q s.sent s.input_buffer r) s1 st1) f twice))

if_same {ℓ} : {A : Type ℓ} (b : Bool) (x : A) → (if b then x else x) ≡ x
if_same true x = refl
if_same false x = refl

handle_event_alive :
    (s : TcpConnection) (read : Option (List ℕ)) (write : Option ℕ)
    → handle_event true true s read write ≡ handle_event_with_guard true s read write
unfolding handle_event
handle_event_alive s read write = if_same (own s).tied (handle_event_with_guard true s read write)

-- What a dispatch comes to.
abbrev pub Verdict : Bool → Bool → List ℕ → Outcome TcpConnection → Type 0
Verdict true ended whole m = m ≡ err Fault.assertion
Verdict false ended whole m = Returns m (Dispatched ended whole)

-- On an open connection whose channel has the callbacks of the constructor, whatever events arrived, if
-- the read that may follow returns and `::write` takes no more than it is given: unless the events hang
-- up and the read that they ask for as well finds the end, the dispatch returns with `event_handling_`
-- cleared; the connection is closed if the events hang up or the read finds the end, and else it is
-- open with all bytes accepted so far taken or waiting. In the excepted case a second `handle_close`
-- fails its assertion.
pub handle_event-Verdict :
    (q : List ℕ) (r : Events) (s : TcpConnection) (input : Buffer) (read : Option (List ℕ))
    (write : Option ℕ)
    → Open q s
    → Bound r (own s)
    → read_fd s.input_buffer read ≡ ok input
    → Fits (length q) write
    → Verdict (ends_twice r read) (ends r read) (s.sent ++ q) (handle_event true true s read write)
handle_event-Verdict q r s input read write o b f fits =
    rw (handle_event_alive s read write) (go (ends_twice r read) refl)
  where
    go :
        (twice : Bool)
        → ends_twice r read ≡ twice
        → Verdict twice (ends r read) (s.sent ++ q) (handle_event_with_guard true s read write)
    go true h = guarded_twice read write o b f h
    go false h = guarded-Dispatched read write o b f fits h
