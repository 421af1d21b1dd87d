-- ===== src/Net/TcpConnection/Sending.antt =====
-- What `send_in_loop` does with the bytes, in every state of an open connection.
use clia.Prelude.{
  ℕ, ◌+◌, ◌-◌, ◌^◌, ◌≤◌, ◌<◌, ◌≡◌, refl, sym, ap, ◌∙◌, Bool, true, false, ◌&&◌, ◌||◌, List, [], ◌∷◌,
  ◌++◌, append-nil, append_assoc, length, length-drop, take, drop, slice, take-append-drop,
  take-all, drop-all, ◌==◌, ltb, leb, Bool-cases, inl, inr, Returns, Returns-bind, Returns-mono,
  max_size, sub_size, arith,
}
use clia.Reactor.Channel.{write_event, join}
use clia.Reactor.Epoller.{change}
use clia.Net.Buffer.{Buffer, append}
use clia.Net.Buffer.Bounds.{Holds, Grown}
use clia.Net.Buffer.Contents.{append-Holds}
use clia.Net.TcpConnection.{
  TcpConnection, own, emit_if, is_connected, is_disconnected, is_disconnecting, State, disconnected,
  connecting, connected, disconnecting, queues_write_complete,
}
use clia.Net.TcpConnection.Send.{
  Attempt, Written, wrote, failed, ewouldblock, attempt, try_write, wait_for_writing, keep_rest,
  send_in_loop,
}
use clia.Net.TcpConnection.Open.{
  Open, wanted-append, is_writing-Open, readable-Open, emit_if-Open, change-Open,
}

wait_for_writing-Open :
    (q d : List ℕ) (s : TcpConnection) (b : Buffer)
    → Open q s
    → Holds (q ++ d) b
    → 0 < length d
    → Returns
        (wait_for_writing (record s { output_buffer = b }))
        (λ s'. Open (q ++ d) s' × (s'.sent ≡ s.sent))
unfolding wait_for_writing
wait_for_writing-Open [] d s b v h l = rw (is_writing-Open [] s v) (
    Returns-bind (change s.poller s.channel (join (own s).events write_event)) _ _ _
      (change-Open d s b (join (own s).events write_event) v h
        (ap (λ e. join e write_event) v.events ∙ sym (wanted-append [] d l)))
      (λ e o. (o, refl)))
wait_for_writing-Open (x ∷ q) d s b v h l = rw (is_writing-Open (x ∷ q) s v) (
  record {
    poller = v.poller;
    enrolled = v.enrolled;
    output = h;
    is_open = v.is_open;
    events = v.events;
  },
  refl,
)

slice-rest : (n r : ℕ) (xs : List ℕ) → r ≡ length xs - n → slice n (n + r) xs ≡ drop n xs
slice-rest n r xs e = take-all (n + r - n) (drop n xs) (omega (arith, length-drop n xs))

keep_rest-Kept :
    (bytes : List ℕ) (a : Attempt) (q : List ℕ)
    → Open q a.connection
    → a.fault_error ≡ false
    → a.remaining ≡ length bytes - a.nwrote
    → a.nwrote ≤ length bytes
    → a.connection.output_buffer.writer_index + length bytes ≤ max_size
    → Returns
        (keep_rest bytes a)
        (λ s'. Open (q ++ drop a.nwrote bytes) s' × (s'.sent ≡ a.connection.sent))
unfolding keep_rest
keep_rest-Kept bytes a q v f r n h = elim (Bool-cases (ltb 0 a.remaining)) [
  | inl more ↦
      let small : ltb a.remaining (2 ^ 63) ≡ true = ground arith in
      let fits : leb a.remaining (length bytes) ≡ true = ground arith in
      rw (fits, f, more, small, slice-rest a.nwrote a.remaining bytes r)
        (Returns-bind (append a.connection.output_buffer (drop a.nwrote bytes)) _
          (Grown a.connection.output_buffer (q ++ drop a.nwrote bytes)
            (length (drop a.nwrote bytes)))
          _
          (append-Holds a.connection.output_buffer q (drop a.nwrote bytes) v.output
            (omega (arith, length-drop a.nwrote bytes)))
          (λ b g.
            wait_for_writing-Open q (drop a.nwrote bytes) a.connection b v g.held
              (ground (arith, length-drop a.nwrote bytes))))
  | inr none_left ↦
      let fits : leb a.remaining (length bytes) ≡ true = ground arith in
      let all : length bytes ≤ a.nwrote = ground arith in
      rw (fits, f, none_left, drop-all a.nwrote bytes all, append-nil q) (v, refl)
]

-- `stream` is what was accepted: the bytes that the kernel took, then those that wait.
pub record Pending (stream : List ℕ) (s : TcpConnection) : Type 0 where
  pub waiting : List ℕ
  pub stands : Open waiting s
  pub split : s.sent ++ waiting ≡ stream

-- The answers under which no byte is given up: some bytes taken, or EWOULDBLOCK.
abbrev pub Harmless : ℕ → Written → Type 0
Harmless len (wrote n) = n ≤ len
Harmless len (failed errno) = errno ≡ ewouldblock

-- What an attempt has to leave for the rest of `send_in_loop`.
record Ready (stream : List ℕ) (bytes : List ℕ) (writer_index : ℕ) (a : Attempt) : Type 0 where
  waiting : List ℕ
  stands : Open waiting a.connection
  no_fault : a.fault_error ≡ false
  rest : a.remaining ≡ length bytes - a.nwrote
  inside : a.nwrote ≤ length bytes
  same_index : a.connection.output_buffer.writer_index ≡ writer_index
  split : a.connection.sent ++ (waiting ++ drop a.nwrote bytes) ≡ stream

attempt-Ready :
    (s : TcpConnection) (bytes : List ℕ) (answer : Written)
    → Open [] s
    → Harmless (length bytes) answer
    → length bytes ≤ max_size
    → Ready (s.sent ++ bytes) bytes s.output_buffer.writer_index (attempt s bytes answer)
unfolding attempt
attempt-Ready s bytes (wrote n) v h l = record {
  waiting = [];
  stands =
      emit_if-Open (sub_size (length bytes) n == 0 && s.write_complete_callback)
        queues_write_complete
        (record {
          poller = v.poller;
          enrolled = v.enrolled;
          output = v.output;
          is_open = v.is_open;
          events = v.events;
        });
  no_fault = refl;
  rest = omega arith;
  inside = h;
  same_index = kept_index (sub_size (length bytes) n == 0 && s.write_complete_callback);
  split = kept_sent (sub_size (length bytes) n == 0 && s.write_complete_callback);
}
  where
    after : TcpConnection
    after = record s { sent = s.sent ++ take n bytes }

    kept_index :
        (b : Bool)
        → (emit_if b queues_write_complete after).output_buffer.writer_index
          ≡ s.output_buffer.writer_index
    kept_index true = refl
    kept_index false = refl

    kept_sent :
        (b : Bool) → (emit_if b queues_write_complete after).sent ++ drop n bytes ≡ s.sent ++ bytes
    kept_sent true =
        append_assoc s.sent (take n bytes) (drop n bytes)
        ∙ ap (◌++◌ s.sent) (take-append-drop n bytes)
    kept_sent false =
        append_assoc s.sent (take n bytes) (drop n bytes)
        ∙ ap (◌++◌ s.sent) (take-append-drop n bytes)
attempt-Ready s bytes (failed errno) v h l = record {
  waiting = [];
  stands = v;
  no_fault = rw h refl;
  rest = omega arith;
  inside = omega arith;
  same_index = refl;
  split = refl;
}

try_write-Ready :
    (q : List ℕ) (s : TcpConnection) (bytes : List ℕ) (answer : Written)
    → Open q s
    → Harmless (length bytes) answer
    → length bytes ≤ max_size
    → Ready (s.sent ++ (q ++ bytes)) bytes s.output_buffer.writer_index (try_write s bytes answer)
unfolding try_write
try_write-Ready [] s bytes answer v h l =
    rw (is_writing-Open [] s v, readable-Open [] s v) (attempt-Ready s bytes answer v h l)
try_write-Ready (x ∷ q) s bytes answer v h l = rw (is_writing-Open (x ∷ q) s v) (record {
  waiting = x ∷ q;
  stands = v;
  no_fault = refl;
  rest = omega arith;
  inside = omega arith;
  same_index = refl;
  split = refl;
})

pub open-connected :
    (t : State) → (is_connected t || is_disconnecting t) ≡ true → is_disconnected t ≡ false
open-connected disconnected h = cc
open-connected connecting h = refl
open-connected connected h = refl
open-connected disconnecting h = refl

-- On an open connection, under a harmless answer of the kernel, `send_in_loop` puts the message behind
-- all bytes accepted before: what the kernel has taken, followed by what the output buffer holds, grows
-- by exactly the message, and writability is watched while bytes wait.
pub send_in_loop-Pending :
    (q : List ℕ) (s : TcpConnection) (bytes : List ℕ) (answer : Written)
    → Open q s
    → s.output_buffer.writer_index + length bytes ≤ max_size
    → Harmless (length bytes) answer
    → Returns (send_in_loop true s bytes answer) (Pending (s.sent ++ (q ++ bytes)))
unfolding send_in_loop
send_in_loop-Pending q s bytes answer v l h =
    let a = try_write s bytes answer in
    let r = try_write-Ready q s bytes answer v h (omega arith) in
    rw (open-connected s.state v.is_open) (
      Returns-mono (keep_rest bytes a)
        (λ s'. Open (r.waiting ++ drop a.nwrote bytes) s' × (s'.sent ≡ a.connection.sent)) _
        (keep_rest-Kept bytes a r.waiting r.stands r.no_fault r.rest r.inside
          (omega (arith, r.same_index)))
        (λ s' k. record {
          waiting = r.waiting ++ drop a.nwrote bytes;
          stands = k.0;
          split = ap (λ t. t ++ (r.waiting ++ drop a.nwrote bytes)) k.1 ∙ r.split;
        }))
