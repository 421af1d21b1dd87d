-- ===== src/Net/TcpConnection/Closing.antt =====
-- How a connection ends, and what a failed `::write` costs.
use clia.Prelude.{
  ℕ, ◌≡◌, ◌≢◌, refl, ap, ◌∙◌, Bool, true, false, inr, List, [], ◌∷◌, length, leb, Outcome, ok, err,
  Fault, ◌>>=◌, Returns, Returns-bind, arith,
}
use clia.Reactor.Channel.{is_none_event, is_none, none_event, new, join}
use clia.Reactor.Epoller.{change}
use clia.Reactor.Epoller.Registry.{IsSound}
use clia.Reactor.Epoller.Changes.{Changed, change_lem, remove_lem}
use clia.Net.TcpConnection.{
  TcpConnection, Effect, own, emit_if, disconnected, disconnecting, connects, closes, handle_close,
  connect_destoryed,
}
use clia.Net.TcpConnection.Send.{
  failed, ewouldblock, attempt, try_write, keep_rest, send_in_loop, is_fault,
}
use clia.Net.TcpConnection.Open.{Open, wanted, is_writing-Open, readable-Open}
use clia.Net.TcpConnection.Sending.{open-connected}

-- The connection is disconnected and its channel waits for nothing, but is still registered.
pub record Closed (s : TcpConnection) : Type 0 where
  pub state : s.state ≡ disconnected
  pub poller : IsSound s.poller
  pub quiet : is_none_event (own s) ≡ true
  pub enrolled : (own s).index ≢ new

pub emit_if-Closed : (b : Bool) (f : Effect) (s : TcpConnection) → Closed s → Closed (emit_if b f s)
emit_if-Closed true f s v = record {
  state = v.state;
  poller = v.poller;
  quiet = v.quiet;
  enrolled = v.enrolled;
}
emit_if-Closed false f s v = v

pub handle_close-Closed :
    (q : List ℕ) (s : TcpConnection) → Open q s → Returns (handle_close true s) Closed
unfolding handle_close is_none
handle_close-Closed q s v = rw v.is_open (
    Returns-bind (change s.poller s.channel none_event) _ (Changed s.channel none_event) _
      ((change_lem s.poller s.channel none_event v.poller).0 (λ i. absurd (v.enrolled i)))
      (λ e c.
        emit_if-Closed s.close_callback closes
          (emit_if s.connection_callback connects (record s { state = disconnected; poller = e }))
          (emit_if-Closed s.connection_callback connects
            (record s { state = disconnected; poller = e })
            (record {
              state = refl;
              poller = c.sound;
              quiet = ap is_none c.waits_for;
              enrolled = c.enrolled;
            }))))

pub handle_close_again : (s : TcpConnection) → Closed s → handle_close true s ≡ err Fault.assertion
unfolding handle_close
handle_close_again s v = rw v.state refl

-- A second close fails its assertion.
pub close_twice :
    (q : List ℕ) (s : TcpConnection)
    → Open q s
    → (handle_close true s >>= handle_close true) ≡ err Fault.assertion
close_twice q s v = after_Closed (handle_close true s) (handle_close-Closed q s v)
  where
    after_Closed :
        (m : Outcome TcpConnection)
        → Returns m Closed
        → (m >>= handle_close true) ≡ err Fault.assertion
    after_Closed (ok t) c = handle_close_again t c
    after_Closed (err f) c = absurd c

wanted-none : (q : List ℕ) → is_none (wanted q) ≡ false
unfolding is_none join
wanted-none [] = refl
wanted-none (x ∷ q) = refl

-- Taking a connection out of the poller that is still waiting for its shutdown to end, without a close
-- before, fails an assertion.
pub destroy_disconnecting :
    (q : List ℕ) (s : TcpConnection)
    → Open q s
    → s.state ≡ disconnecting
    → connect_destoryed true s ≡ err Fault.assertion
unfolding connect_destoryed
destroy_disconnecting q s v h =
    rw (h, (remove_lem s.poller s.channel v.poller).1 (inr (ap is_none v.events ∙ wanted-none q)))
      refl

-- When nothing waits, a `::write` that fails otherwise than with EWOULDBLOCK loses the whole message:
-- the call returns, and the connection is as before, still open.
pub send_in_loop_drops :
    (s : TcpConnection) (bytes : List ℕ) (errno : ℕ)
    → Open [] s
    → errno ≢ ewouldblock
    → send_in_loop true s bytes (failed errno) ≡ ok s
unfolding send_in_loop try_write attempt keep_rest
send_in_loop_drops s bytes errno v h =
    let fault : is_fault errno ≡ true = ground arith in
    let fits : leb (length bytes) (length bytes) ≡ true = ground arith in
    rw (open-connected s.state v.is_open, is_writing-Open [] s v, readable-Open [] s v, fault, fits)
      refl
