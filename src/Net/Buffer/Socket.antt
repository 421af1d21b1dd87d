-- ===== src/Net/Buffer/Socket.antt =====
-- `read_fd` and `write_fd`: a `Buffer` between the kernel and the connection.
use clia.Prelude.{
  ℕ, ◌+◌, ◌≤◌, ◌<◌, ◌≡◌, ◌∙◌, ap, List, length, Option, some, arith, take, drop, Outcome, ok, err,
  Fault, Returns, Returns-bind, Returns-mono, max_size, ltb, leb, ◌++◌, Bool-cases, inl, inr,
  lt→ltb, gt→leb, length-append, length-take, length-drop, take-append-drop, append_assoc, ◌>>=◌,
  ◌>>◌, accessible,
}
use clia.Net.Buffer.{
  Buffer, cheap_prepend, extra_size, readable_bytes, writable_bytes, retrieve, scatter, read_fd,
  write_bytes,
}
use clia.Net.Buffer.Bounds.{Holds, Grown, sizes, write_bytes-Holds}
use clia.Net.Buffer.Contents.{append-Holds, append_grown, writable_bytes-retrieve}

scatter-Grown :
    (b : Buffer) (q d : List ℕ)
    → Holds q b
    → length b.buffer + length d ≤ max_size
    → Returns (scatter b (some d)) (Grown b (q ++ d) (length d))
unfolding scatter
scatter-Grown b q d v h = elim (Bool-cases (leb (length d) (writable_bytes b))) [
  | inl e ↦ rw e (
      Returns-mono _ _ (Grown b (q ++ d) (length d))
        (write_bytes-Holds b q d v (ground (arith, sizes b v.valid)))
        (λ b' k. record { held = k.0; growth = omega arith }))
  | inr e ↦ rw e (
      Returns-bind (write_bytes b now) _ _ (Grown b (q ++ d) (length d))
        (write_bytes-Holds b q now v
          (omega (arith, length-take (writable_bytes b) d, sizes b v.valid)))
        (λ b' k.
          Returns-mono _ _ (Grown b (q ++ d) (length d))
            (append-Holds b' (q ++ now) later k.0 (
              omega (
                arith,
                length-take (writable_bytes b) d,
                length-drop (writable_bytes b) d,
                v.valid,
              )))
            (λ b'' m. record {
              held = rw (← split) m.held;
              growth = omega (arith, m.growth, length-drop (writable_bytes b) d);
            })))
]
  where
    now : List ℕ
    now = take (writable_bytes b) d

    later : List ℕ
    later = drop (writable_bytes b) d

    split : (q ++ now) ++ later ≡ q ++ d
    split = append_assoc q now later ∙ ap (◌++◌ q) (take-append-drop (writable_bytes b) d)

-- With a vector that had to grow, no byte of it is left to write.
scatter_grown :
    (b : Buffer) (q d : List ℕ)
    → Holds q b
    → length b.buffer + length d ≤ max_size
    → writable_bytes b < length d
    → b.reader_index + writable_bytes b < length d + cheap_prepend
    → Returns (scatter b (some d)) (λ b'. writable_bytes b' ≡ 0)
unfolding scatter
scatter_grown b q d v h w r = rw (gt→leb (length d) (writable_bytes b) w) (
    Returns-bind (write_bytes b now) _ _ (λ b'. writable_bytes b' ≡ 0)
      (write_bytes-Holds b q now v
        (omega (arith, length-take (writable_bytes b) d, sizes b v.valid)))
      (λ b' k.
        append_grown b' (q ++ now) (drop (writable_bytes b) d) k.0
          (omega
            (arith, length-take (writable_bytes b) d, length-drop (writable_bytes b) d, v.valid))
          (omega
            (arith, length-take (writable_bytes b) d, length-drop (writable_bytes b) d, v.valid))
          (omega
            (arith, length-take (writable_bytes b) d, length-drop (writable_bytes b) d, v.valid))))
  where
    now : List ℕ
    now = take (writable_bytes b) d

-- The checks around `scatter` pass.
read_fd-scatter :
    (b : Buffer) (q d : List ℕ)
    → Holds q b
    → 0 < writable_bytes b
    → length b.buffer + length d ≤ max_size
    → length q + length d < extra_size
    → read_fd b (some d) ≡ scatter b (some d)
unfolding read_fd
read_fd-scatter b q d v room h few =
    rw (lt→ltb 0 (writable_bytes b) room) (passes (scatter b (some d)) (scatter-Grown b q d v h))
  where
    passes :
        (m : Outcome Buffer)
        → Returns m (Grown b (q ++ d) (length d))
        → (m >>= λ b'. do
          accessible (leb (readable_bytes b') extra_size)
          accessible (leb (b'.reader_index + readable_bytes b') (length b'.buffer))
          accessible (ltb (readable_bytes b') extra_size)
          ok b')
          ≡ m
    passes (ok b') k = ground (arith, k.growth, sizes b' k.held.valid, length-append q d)
    passes (err e) k = absurd k

-- Where the buffer has room for at least one byte and ends with fewer than 65536 bytes, `read_fd`
-- adds exactly the bytes that the kernel delivered, in order.
pub read_fd-Grown :
    (b : Buffer) (q d : List ℕ)
    → Holds q b
    → 0 < writable_bytes b
    → length b.buffer + length d ≤ max_size
    → length q + length d < extra_size
    → Returns (read_fd b (some d)) (Grown b (q ++ d) (length d))
read_fd-Grown b q d v room h few = rw (read_fd-scatter b q d v room h few) (scatter-Grown b q d v h)

-- Under the same conditions but for the last, with 65536 bytes or more in the end, the copy of
-- the readable bytes into `extrabuf` writes past the end of that array.
pub read_fd_overflow :
    (b : Buffer) (q d : List ℕ)
    → Holds q b
    → 0 < writable_bytes b
    → length b.buffer + length d ≤ max_size
    → extra_size ≤ length q + length d
    → read_fd b (some d) ≡ err Fault.bad_access
unfolding read_fd
read_fd_overflow b q d v room h many =
    rw (lt→ltb 0 (writable_bytes b) room) (overflows (scatter b (some d)) (scatter-Grown b q d v h))
  where
    overflows :
        (m : Outcome Buffer)
        → Returns m (Grown b (q ++ d) (length d))
        → (m >>= λ b'. do
          accessible (leb (readable_bytes b') extra_size)
          accessible (leb (b'.reader_index + readable_bytes b') (length b'.buffer))
          accessible (ltb (readable_bytes b') extra_size)
          ok b')
          ≡ err Fault.bad_access
    overflows (ok b') k = ground (arith, k.growth, sizes b' k.held.valid, length-append q d)
    overflows (err e) k = absurd k

-- `read_fd` refuses a buffer without room, whatever the kernel would deliver.
read_fd_full :
    (b : Buffer) (answer : Option (List ℕ))
    → writable_bytes b ≡ 0
    → read_fd b answer ≡ err Fault.assertion
unfolding read_fd
read_fd_full b answer e = rw e

-- A `read_fd` that had to enlarge the vector leaves a buffer that the next `read_fd` refuses,
-- unless all the bytes are retrieved in between.
pub read_fd_stalls :
    (b : Buffer) (q d : List ℕ)
    → Holds q b
    → 0 < writable_bytes b
    → length b.buffer + length d ≤ max_size
    → length q + length d < extra_size
    → writable_bytes b < length d
    → b.reader_index + writable_bytes b < length d + cheap_prepend
    → Returns (read_fd b (some d)) (λ b'.
      (n : ℕ) (answer : Option (List ℕ))
      → n < readable_bytes b'
      → (retrieve b' n >>= λ b''. read_fd b'' answer) ≡ err Fault.assertion)
read_fd_stalls b q d v room h few w r = rw (read_fd-scatter b q d v room h few) (
    Returns-mono (scatter b (some d)) _ _ (scatter_grown b q d v h w r)
      (λ b' e n answer l. next b' (retrieve b' n) answer e (writable_bytes-retrieve b' n l)))
  where
    next :
        (b' : Buffer) (m : Outcome Buffer) (answer : Option (List ℕ))
        → writable_bytes b' ≡ 0
        → Returns m (λ b''. writable_bytes b'' ≡ writable_bytes b')
        → (m >>= λ b''. read_fd b'' answer) ≡ err Fault.assertion
    next b' (ok b'') answer e k = read_fd_full b'' answer (k ∙ e)
    next b' (err f) answer e k = absurd k
