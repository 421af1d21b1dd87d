-- ===== src/Net/TcpConnection/Open.antt =====
-- What holds of an open connection: the kernel watches for writability while bytes are pending, and
-- only then.
use clia.Prelude.{
  ℕ, ◌<◌, ◌≡◌, ◌≢◌, refl, ap, ◌∙◌, Bool, true, false, ◌||◌, List, [], ◌∷◌, ◌++◌, length, Returns,
  Returns-mono, arith,
}
use clia.Reactor.Channel.{Events, new, is_writing, read_event, write_event, join, meets}
use clia.Reactor.Epoller.{change}
use clia.Reactor.Epoller.Registry.{IsSound}
use clia.Reactor.Epoller.Changes.{Changed, change_lem}
use clia.Net.Buffer.{Buffer, readable_bytes}
use clia.Net.Buffer.Bounds.{Holds, sizes}
use clia.Net.TcpConnection.{TcpConnection, Effect, own, emit_if, is_connected, is_disconnecting}

abbrev pub wanted : List ℕ → Events
wanted [] = read_event
wanted (x ∷ q) = join read_event write_event

abbrev pub is_waiting : List ℕ → Bool
is_waiting [] = false
is_waiting (x ∷ q) = true

-- `q` are the bytes that wait in the output buffer.
pub record Open (q : List ℕ) (s : TcpConnection) : Type 0 where
  pub poller : IsSound s.poller
  pub enrolled : (own s).index ≢ new
  pub output : Holds q s.output_buffer
  pub is_open : (is_connected s.state || is_disconnecting s.state) ≡ true
  pub events : (own s).events ≡ wanted q

pub is_writing-Open :
    (q : List ℕ) (s : TcpConnection) → Open q s → is_writing (own s) ≡ is_waiting q
unfolding join meets
is_writing-Open [] s v = rw v.events refl
is_writing-Open (x ∷ q) s v = rw v.events refl

pub readable-Open :
    (q : List ℕ) (s : TcpConnection) → Open q s → readable_bytes s.output_buffer ≡ length q
readable-Open q s v = (sizes s.output_buffer v.output.valid).0 ∙ ap length v.output.bytes

pub emit_if-Open :
    {q : List ℕ} {s : TcpConnection} (b : Bool) (f : Effect) → Open q s → Open q (emit_if b f s)
emit_if-Open true f v = record {
  poller = v.poller;
  enrolled = v.enrolled;
  output = v.output;
  is_open = v.is_open;
  events = v.events;
}
emit_if-Open false f v = v

-- The poller changes the events of the connection's channel, and the buffer what it holds.
pub change-Open :
    {q : List ℕ} (p : List ℕ) (s : TcpConnection) (b : Buffer) (events : Events)
    → Open q s
    → Holds p b
    → events ≡ wanted p
    → Returns
        (change s.poller s.channel events)
        (λ e. Open p (record s { poller = e; output_buffer = b }))
change-Open p s b events v h w =
    Returns-mono _ (Changed s.channel events) _
      ((change_lem s.poller s.channel events v.poller).0 (λ i. absurd (v.enrolled i)))
      (λ e c. record {
        poller = c.sound;
        enrolled = c.enrolled;
        output = h;
        is_open = v.is_open;
        events = c.waits_for ∙ w;
      })

pub wanted-append : (q d : List ℕ) → 0 < length d → wanted (q ++ d) ≡ join (wanted q) write_event
unfolding join
wanted-append [] [] h = absurd (omega arith)
wanted-append [] (y ∷ d) h = refl
wanted-append (x ∷ q) d h = refl
