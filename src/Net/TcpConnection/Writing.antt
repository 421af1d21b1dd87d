-- ===== src/Net/TcpConnection/Writing.antt =====
-- What `handle_write` does with the bytes that wait.
use clia.Prelude.{
  ℕ, ◌≤◌, ◌≡◌, ◌≢◌, refl, sym, ap, ◌∙◌, subst, Bool, true, false, not, ◌&&◌, List, [], ◌∷◌, ◌++◌,
  append_assoc, length, length-drop, take, drop, take-append-drop, ◌==◌, ltb, Bool-cases, ◌⊎◌, inl,
  inr, Option, none, some, if◌then◌else◌, ok, Returns, Returns-bind, Returns-mono, arith,
}
use clia.Reactor.Channel.{is_writing, write_event, read_event, join, without}
use clia.Reactor.Epoller.{Epoller, change}
use clia.Net.Buffer.{Buffer, readable_bytes, retrieve, write_fd}
use clia.Net.Buffer.Bounds.{Holds, sizes}
use clia.Net.Buffer.Contents.{retrieve-Holds}
use clia.Net.TcpConnection.{
  TcpConnection, own, emit_if, is_disconnecting, queues_write_complete, shuts_down_write,
  shutdown_in_loop, flushed, written, handle_write, peeked,
}
use clia.Net.TcpConnection.Open.{
  Open, wanted, is_waiting, is_writing-Open, emit_if-Open, change-Open,
}
use clia.Net.TcpConnection.Sending.{Pending}

abbrev pub Fits : ℕ → Option ℕ → Type 0
Fits len none = Unit {0}
Fits len (some n) = n ≤ len

pub emit_if-sent : (b : Bool) (f : _) (s : TcpConnection) → (emit_if b f s).sent ≡ s.sent
emit_if-sent true f s = refl
emit_if-sent false f s = refl

pub shutdown_in_loop-Open :
    (q : List ℕ) (s : TcpConnection)
    → Open q s
    → Returns (shutdown_in_loop true s) (λ s'. Open q s' × (s'.sent ≡ s.sent))
unfolding shutdown_in_loop
shutdown_in_loop-Open q s v = (
  emit_if-Open (not (is_writing (own s))) shuts_down_write v,
  emit_if-sent (not (is_writing (own s))) shuts_down_write s,
)

flushed-Open :
    (x : ℕ) (q : List ℕ) (s : TcpConnection) (b : Buffer) (sent : List ℕ)
    → Open (x ∷ q) s
    → Holds [] b
    → Returns
        (flushed true (record s { output_buffer = b; sent = sent }))
        (λ s'. Open [] s' × (s'.sent ≡ sent))
unfolding flushed without join
flushed-Open x q s b sent v h =
    Returns-bind (change s.poller s.channel (without (own s).events write_event)) _ _ _
      (change-Open [] s b (without (own s).events write_event) v h
        (ap (λ e. without e write_event) v.events))
      (λ e o.
        let s1 : TcpConnection = record s { poller = e; output_buffer = b; sent = sent } in
        let o1 : Open [] s1 = record {
          poller = o.poller;
          enrolled = o.enrolled;
          output = o.output;
          is_open = o.is_open;
          events = o.events;
        } in
        finish e s1 o1 (is_disconnecting s.state))
  where
    finish :
        (e : Epoller) (s1 : TcpConnection)
        → Open [] s1
        → (d : Bool)
        → Returns
            (if d
              then shutdown_in_loop true
                  (emit_if s.write_complete_callback queues_write_complete s1)
              else ok (emit_if s.write_complete_callback queues_write_complete s1))
            (λ s'. Open [] s' × (s'.sent ≡ s1.sent))
    finish e s1 o true =
        Returns-mono
          (shutdown_in_loop true (emit_if s.write_complete_callback queues_write_complete s1))
          (λ s'.
            Open [] s'
            × (s'.sent ≡ (emit_if s.write_complete_callback queues_write_complete s1).sent))
          (λ s'. Open [] s' × (s'.sent ≡ s1.sent))
          (shutdown_in_loop-Open [] (emit_if s.write_complete_callback queues_write_complete s1)
            (emit_if-Open s.write_complete_callback queues_write_complete o))
          (λ s' k. (k.0, k.1 ∙ emit_if-sent s.write_complete_callback queues_write_complete s1))
    finish e s1 o false = (
      emit_if-Open s.write_complete_callback queues_write_complete o,
      emit_if-sent s.write_complete_callback queues_write_complete s1,
    )

wanted_waiting : (r : List ℕ) → is_waiting r ≡ true → wanted r ≡ join read_event write_event
wanted_waiting [] h = cc
wanted_waiting (y ∷ r) h = refl

none_left : (r : List ℕ) → length r ≡ 0 → r ≡ []
none_left [] h = refl
none_left (y ∷ r) h = absurd (omega arith)

some_left : (r : List ℕ) → length r ≢ 0 → is_waiting r ≡ true
some_left [] h = absurd (h refl)
some_left (y ∷ r) h = refl

written-Pending :
    (x : ℕ) (q : List ℕ) (s : TcpConnection) (n : ℕ)
    → Open (x ∷ q) s
    → n ≤ length (x ∷ q)
    → Returns (written true s (some n)) (Pending (s.sent ++ x ∷ q))
unfolding written write_fd
written-Pending x q s n v h =
    Returns-bind (retrieve s.output_buffer n) _
      (λ b. Holds (drop n (x ∷ q)) b × (length b.buffer ≡ length s.output_buffer.buffer)) _
      (retrieve-Holds s.output_buffer (x ∷ q) n v.output h)
      (λ b k. go b k.0 (Bool-cases (ltb 0 n && readable_bytes b == 0)))
  where
    sent : List ℕ
    sent = s.sent ++ take n (peeked s.output_buffer)

    whole : sent ++ drop n (x ∷ q) ≡ s.sent ++ x ∷ q
    whole = rw v.output.bytes (
        append_assoc s.sent (take n (x ∷ q)) (drop n (x ∷ q))
        ∙ ap (◌++◌ s.sent) (take-append-drop n (x ∷ q)))

    count : (b : Buffer) → Holds (drop n (x ∷ q)) b → readable_bytes b ≡ length (drop n (x ∷ q))
    count b k = (sizes b k.valid).0 ∙ ap length k.bytes

    go :
        (b : Buffer)
        → Holds (drop n (x ∷ q)) b
        → ((ltb 0 n && readable_bytes b == 0) ≡ true) ⊎ ((ltb 0 n && readable_bytes b == 0) ≡ false)
        → Returns
            (if ltb 0 n && readable_bytes b == 0
              then flushed true (record s { output_buffer = b; sent = sent })
              else ok (record s { output_buffer = b; sent = sent }))
            (Pending (s.sent ++ x ∷ q))
    go b k (inl y) =
        let nothing = none_left (drop n (x ∷ q)) (ground (arith, count b k)) in
        rw y (
          Returns-mono (flushed true (record s { output_buffer = b; sent = sent }))
            (λ s'. Open [] s' × (s'.sent ≡ sent)) _
            (flushed-Open x q s b sent v (subst (λ r. Holds r b) nothing k))
            (λ s' o. record {
              waiting = [];
              stands = o.0;
              split = ap (λ t. t ++ []) o.1 ∙ (ap (◌++◌ sent) (sym nothing) ∙ whole);
            }))
    go b k (inr z) = rw z (record {
      waiting = drop n (x ∷ q);
      stands = record {
        poller = v.poller;
        enrolled = v.enrolled;
        output = k;
        is_open = v.is_open;
        events =
            v.events
            ∙ sym (
                wanted_waiting (drop n (x ∷ q))
                  (some_left (drop n (x ∷ q)) (ground (arith, count b k, length-drop n (x ∷ q)))));
      };
      split = whole;
    })

pub handle_write-Pending :
    (q : List ℕ) (s : TcpConnection) (answer : Option ℕ)
    → Open q s
    → Fits (length q) answer
    → Returns (handle_write true s answer) (Pending (s.sent ++ q))
unfolding handle_write written
handle_write-Pending [] s answer v h =
    rw (is_writing-Open [] s v) (record { waiting = []; stands = v; split = refl })
handle_write-Pending (x ∷ q) s none v h =
    rw (is_writing-Open (x ∷ q) s v) (record { waiting = x ∷ q; stands = v; split = refl })
handle_write-Pending (x ∷ q) s (some n) v h =
    rw (is_writing-Open (x ∷ q) s v) (written-Pending x q s n v h)
