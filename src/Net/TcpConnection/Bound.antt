-- ===== src/Net/TcpConnection/Bound.antt =====
-- What the methods of a connection leave alone in its channel while events are dispatched.
use clia.Prelude.{
  ℕ, ◌≡◌, Bool, Bool-cases, true, false, inl, inr, not, ◌&&◌, ◌||◌, ltb, ◌==◌, List, [], ◌∷◌, ◌++◌,
  take, Option, none, some, ok, assert, Returns-ok, ok-bind,
}
use clia.Reactor.Channel.{
  Channel, Events, Index, new, added, deleted, is_none_event, none_event, without, write_event,
  is_writing,
}
use clia.Reactor.Epoller.{Epoller, change, update_channel, update_by, has_channel, put, is_absent}
use clia.Reactor.Epoller.Registry.{==_refl}
use clia.Net.Buffer.{read_fd, write_fd, readable_bytes}
use clia.Net.TcpConnection.{
  TcpConnection, Effect, own, emit_if, is_connected, is_disconnecting, shutdown_in_loop, flushed,
  written, received, handle_close, handle_read, handle_write, disconnected, connects, closes,
  messages, peeked, shuts_down_write, queues_write_complete,
}

-- The events that arrived, and the callbacks that the connection's constructor has set.
pub record Bound (r : Events) (c : Channel) : Type 0 where
  pub revents : c.revents ≡ r
  pub read_callback : c.read_callback ≡ true
  pub write_callback : c.write_callback ≡ true
  pub close_callback : c.close_callback ≡ true
  pub error_callback : c.error_callback ≡ true

module _ {r : Events} where
  -- `e'` is the poller with `c` written back.
  put-Bound :
      (e : Epoller) {e' : Epoller} {p : ℕ} {c : Channel}
      → Bound r c
      → ok (put e p c) ≡ ok e'
      → Bound r (e'.store p)
  unfolding put
  put-Bound e {e'} {p} {c} b h =
      Returns-ok (ok (put e p c)) e' (λ d. Bound r (d.store p)) (rw (==_refl p) b) h

  renewed-Bound :
      (c : Channel) (events : Events) (i : Index)
      → Bound r c
      → Bound r (record c { events = events; added_to_loop = true; index = i })
  renewed-Bound c events i b = record {
    revents = b.revents;
    read_callback = b.read_callback;
    write_callback = b.write_callback;
    close_callback = b.close_callback;
    error_callback = b.error_callback;
  }

  update_by-Bound :
      (e e' : Epoller) (p : ℕ) (c : Channel) (i : Index)
      → ((j : Index) → Bound r (record c { index = j }))
      → Bound r c
      → update_by e p c i ≡ ok e'
      → Bound r (e'.store p)
  unfolding update_by
  update_by-Bound e e' p c new b b0 h =
      let (u, a, k) = ok-bind (assert (is_absent (e.channels c.fd))) h in put-Bound _ (b added) k
  update_by-Bound e e' p c deleted b b0 h =
      let (u, a, k) = ok-bind (assert (has_channel e p c)) h in put-Bound _ (b added) k
  update_by-Bound e e' p c added b b0 h =
      let (u, a, k) = ok-bind (assert (has_channel e p c)) h in
      elim (Bool-cases (is_none_event c)) [
        | inl y ↦ put-Bound _ (b deleted) (rw y at k)
        | inr n ↦ put-Bound _ b0 (rw n at k)
      ]

  pub change-Bound :
      (e e' : Epoller) (p : ℕ) (events : Events)
      → Bound r (e.store p)
      → change e p events ≡ ok e'
      → Bound r (e'.store p)
  unfolding change update_channel
  change-Bound e e' p events b h =
      update_by-Bound e e' p (record (e.store p) { events = events; added_to_loop = true })
        (e.store p).index (λ j. renewed-Bound (e.store p) events j b)
        (renewed-Bound (e.store p) events (e.store p).index b) h

  pub emit_if-Bound :
      (b : Bool) (f : Effect) (s : TcpConnection) → Bound r (own s) → Bound r (own (emit_if b f s))
  emit_if-Bound true f s v = v
  emit_if-Bound false f s v = v

  pub handle_close-Bound :
      (s t : TcpConnection) → Bound r (own s) → handle_close true s ≡ ok t → Bound r (own t)
  unfolding handle_close
  handle_close-Bound s t b h =
      let (u, a, k) = ok-bind (assert (is_connected s.state || is_disconnecting s.state)) h in
      let (e, c, l) = ok-bind (change s.poller s.channel none_event) k in
      Returns-ok _ t (λ t. Bound r (own t))
        (emit_if-Bound s.close_callback closes
          (emit_if s.connection_callback connects (record s { state = disconnected; poller = e }))
          (emit_if-Bound s.connection_callback connects
            (record s { state = disconnected; poller = e })
            (change-Bound s.poller e s.channel none_event b c)))
        l

  received-Bound :
      (s t : TcpConnection) (answer : Option (List ℕ))
      → Bound r (own s)
      → received true s answer ≡ ok t
      → Bound r (own t)
  unfolding received
  received-Bound s t none b h = Returns-ok (ok s) t (λ t. Bound r (own t)) b h
  received-Bound s t (some []) b h = handle_close-Bound s t b h
  received-Bound s t (some (byte ∷ bytes)) b h =
      Returns-ok (ok (emit_if s.message_callback messages s)) t (λ t. Bound r (own t))
        (emit_if-Bound s.message_callback messages s b) h

  pub handle_read-Bound :
      (s t : TcpConnection) (answer : Option (List ℕ))
      → Bound r (own s)
      → handle_read true s answer ≡ ok t
      → Bound r (own t)
  unfolding handle_read
  handle_read-Bound s t answer b h =
      let (input, a, k) = ok-bind (read_fd s.input_buffer answer) h in
      received-Bound (record s { input_buffer = input }) t answer b k

  flushed-Bound : (s t : TcpConnection) → Bound r (own s) → flushed true s ≡ ok t → Bound r (own t)
  unfolding flushed shutdown_in_loop
  flushed-Bound s t b h =
      let quiet = without (own s).events write_event in
      let (e, a, k) = ok-bind (change s.poller s.channel quiet) h in
      let s' = emit_if s.write_complete_callback queues_write_complete (record s { poller = e }) in
      let b' : Bound r (own s') =
        emit_if-Bound s.write_complete_callback queues_write_complete (record s { poller = e })
          (change-Bound s.poller e s.channel quiet b a) in
      elim (Bool-cases (is_disconnecting s.state)) [
        | inl y ↦
            Returns-ok _ t (λ t. Bound r (own t))
              (emit_if-Bound (not (is_writing (own s'))) shuts_down_write s' b') (rw y at k)
        | inr n ↦ Returns-ok (ok s') t (λ t. Bound r (own t)) b' (rw n at k)
      ]

  written-Bound :
      (s t : TcpConnection) (answer : Option ℕ)
      → Bound r (own s)
      → written true s answer ≡ ok t
      → Bound r (own t)
  unfolding written
  written-Bound s t none b h = Returns-ok (ok s) t (λ t. Bound r (own t)) b h
  written-Bound s t (some n) b h =
      let (output, a, k) = ok-bind (write_fd s.output_buffer (some n)) h in
      let s' : TcpConnection = record s {
        output_buffer = output;
        sent = s.sent ++ take n (peeked s.output_buffer);
      } in
      elim (Bool-cases (ltb 0 n && (readable_bytes output == 0))) [
        | inl y ↦ flushed-Bound s' t b (rw y at k)
        | inr z ↦ Returns-ok (ok s') t (λ t. Bound r (own t)) b (rw z at k)
      ]

  pub handle_write-Bound :
      (s t : TcpConnection) (answer : Option ℕ)
      → Bound r (own s)
      → handle_write true s answer ≡ ok t
      → Bound r (own t)
  unfolding handle_write
  handle_write-Bound s t answer b h = elim (Bool-cases (is_writing (own s))) [
    | inl y ↦ written-Bound s t answer b (rw y at h)
    | inr n ↦ Returns-ok (ok s) t (λ t. Bound r (own t)) b (rw n at h)
  ]
