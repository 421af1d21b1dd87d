-- ===== src/Net/TcpConnection/Stages.antt =====
-- The stages of `handle_event_with_guard` on the channel of a connection.
use clia.Prelude.{
  ℕ, ◌≡◌, ◌≢◌, refl, ap, ◌∙◌, Bool, Bool-cases, true, false, inl, inr, ◌&&◌, ◌||◌, List, [], ◌∷◌,
  ◌++◌, length, Option, none, some, ok, err, assert, Fault, Returns, Returns-mono, Returns-also,
  Returns-if, Returns-ok, ok-bind, subst, arith,
}
use clia.Reactor.Channel.{
  Channel, Events, new, none_event, is_none, is_none_event, meets, is_writing,
}
use clia.Reactor.Epoller.{Epoller, update_at, change}
use clia.Reactor.Epoller.Registry.{IsSound, Differs-IsSound_quiet, ==_refl}
use clia.Reactor.Epoller.Changes.{kept-Differs}
use clia.Net.Buffer.{Buffer, read_fd}
use clia.Net.TcpConnection.{
  TcpConnection, Effect, own, emit_if, is_connected, is_disconnecting, disconnected, handle_close,
  handle_read, received, handle_write, connects, closes, messages,
}
use clia.Net.TcpConnection.Open.{Open, emit_if-Open}
use clia.Net.TcpConnection.Writing.{Fits, emit_if-sent, handle_write-Pending}
use clia.Net.TcpConnection.Sending.{Pending}
use clia.Net.TcpConnection.Closing.{Closed, handle_close-Closed, emit_if-Closed, handle_close_again}
use clia.Net.TcpConnection.Bound.{Bound, handle_close-Bound, handle_read-Bound, handle_write-Bound}
use clia.Net.TcpConnection.Dispatch.{set_handling, hangs_up, reads_now, close_if, read_if, write_if}

-- Whether `::readv` reports the end of the stream.
abbrev pub is_end : Option (List ℕ) → Bool
is_end none = false
is_end (some []) = true
is_end (some (byte ∷ bytes)) = false

-- A connection that is closed, or open with the bytes `q` waiting.
abbrev pub Stands : Bool → List ℕ → List ℕ → TcpConnection → Type 0
Stands true q sent s = Closed s
Stands false q sent s = Open q s × (s.sent ≡ sent)

-- A connection that is closed, or open with `whole` accepted.
abbrev pub Left : Bool → List ℕ → TcpConnection → Type 0
Left true whole s = Closed s
Left false whole s = Pending whole s

-- A connection in the middle of a dispatch.
pub record Stage (ended : Bool) (q sent : List ℕ) (input : Buffer) (r : Events) (s : TcpConnection)
    : Type 0 where
  pub stands : Stands ended q sent s
  pub bound : Bound r (own s)
  pub input_buffer : s.input_buffer ≡ input

handling-IsSound :
    (e : Epoller) (p : ℕ) (b : Bool)
    → IsSound e
    → (e.store p).index ≢ new
    → IsSound (record e { store = update_at e.store p (record (e.store p) { event_handling = b }) })
handling-IsSound e p b v n =
    let at = v.found p n in
    Differs-IsSound_quiet
      (kept-Differs e p v (record (e.store p) { event_handling = b }) e.channels e.requests refl n
        at (λ fd h. refl) (inr at))
      v refl (rw (at, ==_refl p) refl)

pub set_handling-Open :
    (b : Bool) {q : List ℕ} {s : TcpConnection} → Open q s → Open q (set_handling b s)
set_handling-Open b {q} {s} v = record {
  poller = handling-IsSound s.poller s.channel b v.poller v.enrolled;
  enrolled = rw (==_refl s.channel) v.enrolled;
  output = v.output;
  is_open = v.is_open;
  events = rw (==_refl s.channel) v.events;
}

pub set_handling-Closed : (b : Bool) {s : TcpConnection} → Closed s → Closed (set_handling b s)
set_handling-Closed b {s} v = record {
  state = v.state;
  poller = handling-IsSound s.poller s.channel b v.poller v.enrolled;
  quiet = rw (==_refl s.channel) v.quiet;
  enrolled = rw (==_refl s.channel) v.enrolled;
}

pub set_handling-Bound :
    (b : Bool) {r : Events} (s : TcpConnection) → Bound r (own s) → Bound r (own (set_handling b s))
set_handling-Bound b {r} s v = record {
  revents = rw (==_refl s.channel) v.revents;
  read_callback = rw (==_refl s.channel) v.read_callback;
  write_callback = rw (==_refl s.channel) v.write_callback;
  close_callback = rw (==_refl s.channel) v.close_callback;
  error_callback = rw (==_refl s.channel) v.error_callback;
}

quiet-writing : (c : Channel) → is_none_event c ≡ true → is_writing c ≡ false
unfolding is_none meets
quiet-writing c h = ground (arith, h)

handle_close-input :
    (s t : TcpConnection) → handle_close true s ≡ ok t → t.input_buffer ≡ s.input_buffer
unfolding handle_close
handle_close-input s t h =
    let (u, a, k) = ok-bind (assert (is_connected s.state || is_disconnecting s.state)) h in
    let (e, c, l) = ok-bind (change s.poller s.channel none_event) k in
    Returns-ok _ t (λ t. t.input_buffer ≡ s.input_buffer)
      (emitted s.close_callback closes
          (emit_if s.connection_callback connects (record s { state = disconnected; poller = e }))
        ∙ emitted s.connection_callback connects (record s { state = disconnected; poller = e }))
      l
  where
    emitted :
        (b : Bool) (f : Effect) (s : TcpConnection) → (emit_if b f s).input_buffer ≡ s.input_buffer
    emitted true f s = refl
    emitted false f s = refl

both : (a b : Bool) → (a && b) ≡ true → (a ≡ true) × (b ≡ true)
both true b h = (refl, h)
both false b h = cc

module _ (q sent : List ℕ) where
  with_input :
      (ended : Bool) (s : TcpConnection) (b : Buffer)
      → Stands ended q sent s
      → Stands ended q sent (record s { input_buffer = b })
  with_input true s b v = record {
    state = v.state;
    poller = v.poller;
    quiet = v.quiet;
    enrolled = v.enrolled;
  }
  with_input false s b (v, e) = (
    record {
      poller = v.poller;
      enrolled = v.enrolled;
      output = v.output;
      is_open = v.is_open;
      events = v.events;
    },
    e,
  )

  emitted :
      (ended b : Bool) (f : Effect) (s : TcpConnection)
      → Stands ended q sent s
      → Stands ended q sent (emit_if b f s)
  emitted true b f s v = emit_if-Closed b f s v
  emitted false b f s (v, e) = (emit_if-Open b f v, emit_if-sent b f s ∙ e)

  received-Stands :
      (ended : Bool) (s : TcpConnection) (read : Option (List ℕ))
      → Stands ended q sent s
      → (ended && is_end read) ≡ false
      → Returns (received true s read) (Stands (ended || is_end read) q sent)
  unfolding received
  received-Stands true s none v h = v
  received-Stands true s (some []) v h = cc
  received-Stands true s (some (byte ∷ bytes)) v h = emitted true s.message_callback messages s v
  received-Stands false s none v h = v
  received-Stands false s (some []) v h = handle_close-Closed q s v.0
  received-Stands false s (some (byte ∷ bytes)) v h = emitted false s.message_callback messages s v

  unended :
      (ended : Bool) (s : TcpConnection) → Stands ended q sent s → Stands (ended || false) q sent s
  unended true s v = v
  unended false s v = v

  module _ {input : Buffer} {r : Events} where
    pub close-Stage :
        (s : TcpConnection)
        → Stage false q sent input r s
        → Returns (close_if true s) (Stage (hangs_up r) q sent input r)
    close-Stage s v =
        rw (v.bound.revents, v.bound.close_callback)
          (elim (Bool-cases (hangs_up r)) [
            | inl y ↦ rw y (
                Returns-mono (handle_close true s)
                  (λ t. Closed t × (Bound r (own t) × (t.input_buffer ≡ s.input_buffer))) _
                  (Returns-also (handle_close true s) Closed
                    (λ t. Bound r (own t) × (t.input_buffer ≡ s.input_buffer))
                    (handle_close-Closed q s v.stands.0)
                    (λ t h. (handle_close-Bound s t v.bound h, handle_close-input s t h)))
                  (λ t k. record {
                    stands = k.0;
                    bound = k.1.0;
                    input_buffer = k.1.1 ∙ v.input_buffer;
                  }))
            | inr n ↦ rw n v
          ])

    pub read-Stage :
        (ended : Bool) (s : TcpConnection) (read : Option (List ℕ)) (input' : Buffer)
        → Stage ended q sent input r s
        → read_fd input read ≡ ok input'
        → (ended && (reads_now r && is_end read)) ≡ false
        → Returns
            (read_if true read s)
            (λ t. Stands (ended || (reads_now r && is_end read)) q sent t × Bound r (own t))
    unfolding handle_read
    read-Stage ended s read input' v f h =
        rw (v.bound.revents, v.bound.read_callback)
          (elim (Bool-cases (reads_now r)) [
            | inl y ↦ rw y (
                Returns-also (handle_read true s read) _ _
                  (rw (v.input_buffer, f)
                    (received-Stands ended (record s { input_buffer = input' }) read
                      (with_input ended s input' v.stands) (rw y at h)))
                  (λ t k. handle_read-Bound s t read v.bound k))
            | inr n ↦ rw n (unended ended s v.stands, v.bound)
          ])

    pub read_twice :
        (ended : Bool) (s : TcpConnection) (read : Option (List ℕ)) (input' : Buffer)
        → Stage ended q sent input r s
        → read_fd input read ≡ ok input'
        → (ended && (reads_now r && is_end read)) ≡ true
        → read_if true read s ≡ err Fault.assertion
    unfolding handle_read received
    read_twice true s none input' v f h = cc ((both (reads_now r) false h).1)
    read_twice true s (some []) input' v f h =
        rw
          (v.bound.revents, v.bound.read_callback, (both (reads_now r) true h).0, v.input_buffer, f)
          (handle_close_again (record s { input_buffer = input' })
            (with_input true s input' v.stands))
    read_twice true s (some (byte ∷ bytes)) input' v f h = cc ((both (reads_now r) false h).1)
    read_twice false s read input' v f h = cc

  pub write-Stage :
      (ended : Bool) (r : Events) (s : TcpConnection) (write : Option ℕ)
      → Stands ended q sent s
      → Bound r (own s)
      → Fits (length q) write
      → Returns (write_if true write s) (λ t. Left ended (sent ++ q) t × Bound r (own t))
  unfolding handle_write
  write-Stage true r s write v b f =
      Returns-if _ (handle_write true s write) (ok s) (λ t. Closed t × Bound r (own t))
        (rw (quiet-writing (own s) v.quiet) (v, b)) (v, b)
  write-Stage false r s write (v, e) b f =
      Returns-if _ (handle_write true s write) (ok s) (λ t. Pending (sent ++ q) t × Bound r (own t))
        (Returns-also (handle_write true s write) (Pending (sent ++ q)) (λ t. Bound r (own t))
          (subst (λ x. Returns (handle_write true s write) (Pending (x ++ q))) e
            (handle_write-Pending q s write v f))
          (λ t k. handle_write-Bound s t write b k))
        (record { waiting = q; stands = v; split = ap (λ x. x ++ q) e }, b)
