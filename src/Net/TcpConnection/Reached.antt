-- ===== src/Net/TcpConnection/Reached.antt =====
-- An open connection under any sequence of its methods.
use clia.Prelude.{
  ℕ, ◌+◌, ◌≤◌, ◌≡◌, refl, sym, ap, ◌∙◌, subst, Bool, Bool-cases, true, false, inl, inr, List, [],
  ◌∷◌, ◌++◌, append_assoc, length, Option, none, some, ok, Returns, Returns-bind, Returns-ok,
  ok-bind, max_size,
}
use clia.Reactor.Channel.{new, none_event, read_event, join, tie}
use clia.Reactor.Epoller.{Epoller, change, update_at}
use clia.Reactor.Epoller.Registry.{IsSound, Differs-IsSound_quiet, ==_refl, ==_ne}
use clia.Reactor.Epoller.Changes.{Changed, change_lem}
use clia.Net.Buffer.{Buffer, read_fd}
use clia.Net.Buffer.Bounds.{Holds}
use clia.Net.TcpConnection.{
  TcpConnection, own, emit_if, is_connected, connecting, connected, disconnecting, connects,
  messages, connect_established, handle_read, received, handle_write, set_state,
}
use clia.Net.TcpConnection.Send.{Written, send_in_loop, shutdown}
use clia.Net.TcpConnection.Open.{Open, emit_if-Open}
use clia.Net.TcpConnection.Sending.{Pending, Harmless, send_in_loop-Pending}
use clia.Net.TcpConnection.Writing.{Fits, handle_write-Pending, shutdown_in_loop-Open}

-- A connection as the constructor leaves it, with the callbacks that the server has set since then, and
-- with a socket that no registered channel has.
pub record Fresh (s : TcpConnection) : Type 0 where
  pub poller : IsSound s.poller
  pub index : (own s).index ≡ new
  pub free : s.poller.channels (own s).fd ≡ none
  pub events : (own s).events ≡ none_event
  pub state : s.state ≡ connecting
  pub output : Holds [] s.output_buffer
  pub unsent : s.sent ≡ []

-- `Reached stream s`: the loop's thread called methods of the connection, and `stream` are the messages
-- that it handed to `send_in_loop`, in order.
pub data Reached : List ℕ → TcpConnection → Type 0 where
  established : {s t : TcpConnection} → Fresh s → connect_established true s ≡ ok t → Reached [] t
  sends :
      {stream : List ℕ} {s t : TcpConnection}
      → Reached stream s
      → (bytes : List ℕ) (answer : Written) → s.output_buffer.writer_index + length bytes ≤ max_size
      → Harmless (length bytes) answer
      → send_in_loop true s bytes answer ≡ ok t
      → Reached (stream ++ bytes) t
  writes :
      {stream : List ℕ} {s t : TcpConnection}
      → Reached stream s
      → (answer : Option ℕ) → ((q : List ℕ) → Open q s → Fits (length q) answer)
      → handle_write true s answer ≡ ok t
      → Reached stream t
  reads :
      {stream : List ℕ} {s t : TcpConnection}
      → Reached stream s
      → (byte : ℕ) (bytes : List ℕ) → handle_read true s (some (byte ∷ bytes)) ≡ ok t
      → Reached stream t
  shuts :
      {stream : List ℕ} {s t : TcpConnection}
      → Reached stream s
      → shutdown true s ≡ ok t
      → Reached stream t

tie-IsSound :
    (s : TcpConnection)
    → Fresh s
    → IsSound (record s.poller { store = update_at s.poller.store s.channel (tie (own s)) })
unfolding tie
tie-IsSound s f =
    Differs-IsSound_quiet {p = s.channel}
      (record {
        same_fd = rw (==_refl s.channel) refl;
        other_slots = λ fd h. refl;
        other_channels = λ q h. rw (==_ne s.channel q h) refl;
        before = inl f.free;
        after = inr (f.free, rw (==_refl s.channel) f.index);
      })
      f.poller refl (rw f.free refl)

connect_established-Open :
    (s : TcpConnection)
    → Fresh s
    → Returns (connect_established true s) (λ t. Open [] t × (t.sent ≡ []))
unfolding connect_established tie join
connect_established-Open s f = rw f.state (
    Returns-bind (change tied s.channel (join (tied.store s.channel).events read_event)) _
      (Changed s.channel (join (tied.store s.channel).events read_event)) _
      ((change_lem tied s.channel (join (tied.store s.channel).events read_event)
          (tie-IsSound s f)).0
        (λ i. rw (==_refl s.channel) f.free))
      (λ e c.
        finish (record s { state = connected; poller = e }) s.connection_callback
          (record {
            poller = c.sound;
            enrolled = c.enrolled;
            output = f.output;
            is_open = refl;
            events = c.waits_for ∙ rw (==_refl s.channel, f.events) refl;
          })
          f.unsent))
  where
    tied : Epoller
    tied = record s.poller { store = update_at s.poller.store s.channel (tie (own s)) }

    finish :
        (t : TcpConnection) (b : Bool)
        → Open [] t
        → t.sent ≡ []
        → Open [] (emit_if b connects t) × ((emit_if b connects t).sent ≡ [])
    finish t true o e = (emit_if-Open true connects o, e)
    finish t false o e = (o, e)

pub handle_read-Open :
    (q : List ℕ) (s t : TcpConnection) (byte : ℕ) (bytes : List ℕ)
    → Open q s
    → handle_read true s (some (byte ∷ bytes)) ≡ ok t
    → Open q t × (t.sent ≡ s.sent)
unfolding handle_read received
handle_read-Open q s t byte bytes v h =
    let (input, a, b) = ok-bind (read_fd s.input_buffer (some (byte ∷ bytes))) h in
    Returns-ok (ok (emit_if s.message_callback messages (record s { input_buffer = input }))) t
      (λ t. Open q t × (t.sent ≡ s.sent)) (finish s.message_callback input) b
  where
    finish :
        (m : Bool) (input : Buffer)
        → Open q (emit_if m messages (record s { input_buffer = input }))
          × ((emit_if m messages (record s { input_buffer = input })).sent ≡ s.sent)
    finish true input = (
      record {
        poller = v.poller;
        enrolled = v.enrolled;
        output = v.output;
        is_open = v.is_open;
        events = v.events;
      },
      refl,
    )
    finish false input = (
      record {
        poller = v.poller;
        enrolled = v.enrolled;
        output = v.output;
        is_open = v.is_open;
        events = v.events;
      },
      refl,
    )

shutdown-Open :
    (q : List ℕ) (s : TcpConnection)
    → Open q s
    → Returns (shutdown true s) (λ t. Open q t × (t.sent ≡ s.sent))
unfolding shutdown
shutdown-Open q s v = elim (Bool-cases (is_connected s.state)) [
  | inl y ↦ rw y (
      shutdown_in_loop-Open q (set_state s disconnecting) (record {
        poller = v.poller;
        enrolled = v.enrolled;
        output = v.output;
        is_open = refl;
        events = v.events;
      }))
  | inr n ↦ rw n (v, refl)
]

from_Open :
    (stream : List ℕ) (s t : TcpConnection) (k : Pending stream s)
    → Open k.waiting t × (t.sent ≡ s.sent)
    → Pending stream t
from_Open stream s t k (o, e) = record {
  waiting = k.waiting;
  stands = o;
  split = ap (λ x. x ++ k.waiting) e ∙ k.split;
}

-- However the messages, the kernel's answers and the shutdown interleave, no accepted byte is lost,
-- repeated or moved: the bytes that the kernel took, followed by those in the output buffer, are the
-- messages in the order of their calls. The kernel watches the socket for writability exactly while
-- bytes wait in the output buffer.
pub Reached-Pending : {stream : List ℕ} {s : TcpConnection} → Reached stream s → Pending stream s
Reached-Pending (established {s} {t} f h) =
    let (o, e) =
      Returns-ok (connect_established true s) t (λ t. Open [] t × (t.sent ≡ []))
        (connect_established-Open s f) h in
    record { waiting = []; stands = o; split = ap (λ x. x ++ []) e }
Reached-Pending (sends {stream} {s} {t} r bytes answer l harmless h) =
    let k = Reached-Pending r in
    Returns-ok (send_in_loop true s bytes answer) t (Pending (stream ++ bytes))
      (subst (λ x. Returns (send_in_loop true s bytes answer) (Pending x))
        (sym (append_assoc s.sent k.waiting bytes) ∙ ap (λ x. x ++ bytes) k.split)
        (send_in_loop-Pending k.waiting s bytes answer k.stands l harmless))
      h
Reached-Pending (writes {stream} {s} {t} r answer fits h) =
    let k = Reached-Pending r in
    Returns-ok (handle_write true s answer) t (Pending stream)
      (subst (λ x. Returns (handle_write true s answer) (Pending x)) k.split
        (handle_write-Pending k.waiting s answer k.stands (fits k.waiting k.stands)))
      h
Reached-Pending (reads {stream} {s} {t} r byte bytes h) =
    let k = Reached-Pending r in
    from_Open stream s t k (handle_read-Open k.waiting s t byte bytes k.stands h)
Reached-Pending (shuts {stream} {s} {t} r h) =
    let k = Reached-Pending r in
    from_Open stream s t k (
      Returns-ok (shutdown true s) t (λ t. Open k.waiting t × (t.sent ≡ s.sent))
        (shutdown-Open k.waiting s k.stands) h)
