-- ===== src/Net/Buffer/Contents.antt =====
-- What the methods of a `Buffer` do to the bytes that it holds.
use clia.Prelude.{
  ℕ, ◌+◌, ◌≤◌, ◌<◌, ◌≡◌, List, length, resize, arith, take, drop, ok, err, Fault, Returns,
  Returns-bind, Returns-mono, length-overwrite, length-resize, max_size, add_size, ltb, ◌++◌,
  take-slice, drop-slice, drop-all, Bool-cases, inl, inr, if◌then◌else◌, le→leb,
}
use clia.Net.Buffer.{
  Buffer, cheap_prepend, readable_bytes, writable_bytes, resize_buffer, retrieve, retrieve_all,
  retrieve_as_string, make_space, ensure_writable_bytes, write_bytes, append,
}
use clia.Net.Buffer.Bounds.{
  Holds, Grown, sizes, resize_buffer-Holds, compact-Holds, write_bytes-Holds,
}

-- The room that an append of `n` bytes needs is there afterwards, and the bytes are unchanged.
record Roomy (b : Buffer) (q : List ℕ) (n : ℕ) (b' : Buffer) : Type 0 where
  held : Holds q b'
  room : b'.writer_index + n ≤ length b'.buffer
  growth : length b'.buffer ≤ length b.buffer + n

make_space-Roomy :
    (b : Buffer) (q : List ℕ) (n : ℕ)
    → Holds q b
    → writable_bytes b < n
    → b.writer_index + n ≤ max_size
    → Returns (make_space b n) (Roomy b q n)
unfolding make_space
make_space-Roomy b q n v w h =
    elim (Bool-cases
      (ltb (add_size (writable_bytes b) b.reader_index) (add_size n cheap_prepend))) [
        | inl e ↦ rw e (
            Returns-mono _ _ (Roomy b q n)
              (resize_buffer-Holds b (add_size b.writer_index n) q v (omega (arith, v.valid))
                (omega arith))
              (λ b' k. record { held = k.0; room = omega arith; growth = omega arith }))
        | inr e ↦ rw e (
            Returns-mono _ _ (Roomy b q n) (compact-Holds b q v (ground arith))
              (λ b' k. record { held = k.0; room = ground arith; growth = omega arith }))
      ]

ensure_writable_bytes-Roomy :
    (b : Buffer) (q : List ℕ) (n : ℕ)
    → Holds q b
    → b.writer_index + n ≤ max_size
    → Returns (ensure_writable_bytes b n) (Roomy b q n)
unfolding ensure_writable_bytes
ensure_writable_bytes-Roomy b q n v h =
    Returns-bind _ _ (Roomy b q n) _ made
      (λ b' k. ground (arith, le→leb n (writable_bytes b') (omega (arith, k.room, k.held.valid))))
  where
    made : Returns (if ltb (writable_bytes b) n then make_space b n else ok b) (Roomy b q n)
    made = elim (Bool-cases (ltb (writable_bytes b) n)) [
      | inl e ↦ rw e (make_space-Roomy b q n v (ground arith) h)
      | inr e ↦ rw e (record { held = v; room = ground arith; growth = omega arith })
    ]

-- `append` adds the bytes behind those that the buffer holds, on every valid buffer whose indices
-- stay within the largest vector, and the vector grows by no more than their number.
pub append-Holds :
    (b : Buffer) (q d : List ℕ)
    → Holds q b
    → b.writer_index + length d ≤ max_size
    → Returns (append b d) (Grown b (q ++ d) (length d))
unfolding append
append-Holds b q d v h =
    Returns-bind _ _ (Roomy b q (length d)) _ (ensure_writable_bytes-Roomy b q (length d) v h)
      (λ b' k.
        Returns-mono _ _ (Grown b (q ++ d) (length d)) (write_bytes-Holds b' q d k.held k.room)
          (λ b'' w. record { held = w.0; growth = omega (arith, k.growth) }))

pub retrieve-Holds :
    (b : Buffer) (q : List ℕ) (n : ℕ)
    → Holds q b
    → n ≤ length q
    → Returns (retrieve b n) (λ b'. Holds (drop n q) b' × (length b'.buffer ≡ length b.buffer))
unfolding retrieve retrieve_all
retrieve-Holds b q n v h = ground (
  arith,
  sizes b v.valid,
  drop-slice n b.reader_index b.writer_index (b.reader_index + n) b.buffer,
  drop-all n q,
)

pub retrieve_beyond :
    (b : Buffer) (q : List ℕ) (n : ℕ)
    → Holds q b
    → length q < n
    → retrieve b n ≡ err Fault.assertion
unfolding retrieve
retrieve_beyond b q n v h = ground (arith, sizes b v.valid)

-- `retrieve_as_string` hands out the oldest `n` bytes and keeps the others, on every valid buffer
-- that holds so many; and it stops at its assertion exactly on the others.
pub retrieve_as_string-Holds :
    (b : Buffer) (q : List ℕ) (n : ℕ)
    → Holds q b
    → n ≤ length q
    → Returns
        (retrieve_as_string b n)
        (λ r. (r.0 ≡ take n q) × Holds (drop n q) r.1 × (length r.1.buffer ≡ length b.buffer))
unfolding retrieve_as_string
retrieve_as_string-Holds b q n v h = ground (
  arith,
  sizes b v.valid,
  retrieve-Holds b q n v h,
  take-slice n b.reader_index b.writer_index (b.reader_index + n) b.buffer,
)

pub retrieve_as_string-beyond :
    (b : Buffer) (q : List ℕ) (n : ℕ)
    → Holds q b
    → length q < n
    → retrieve_as_string b n ≡ err Fault.assertion
unfolding retrieve_as_string
retrieve_as_string-beyond b q n v h = ground (arith, sizes b v.valid)

-- Where the room before and behind the readable bytes is too small, `append` makes the vector fit
-- exactly: nothing can be written behind the bytes any more.
pub append_grown :
    (b : Buffer) (q d : List ℕ)
    → Holds q b
    → b.writer_index + length d ≤ max_size
    → writable_bytes b < length d
    → writable_bytes b + b.reader_index < length d + cheap_prepend
    → Returns (append b d) (λ b'. writable_bytes b' ≡ 0)
unfolding append ensure_writable_bytes make_space resize_buffer write_bytes
append_grown b q d v h w r = ground (
  arith,
  length-resize b.buffer (b.writer_index + length d) 0,
  length-overwrite (resize b.buffer (b.writer_index + length d) 0) b.writer_index d,
)

-- A part retrieved leaves the room as it was.
pub writable_bytes-retrieve :
    (b : Buffer) (n : ℕ)
    → n < readable_bytes b
    → Returns (retrieve b n) (λ b'. writable_bytes b' ≡ writable_bytes b)
unfolding retrieve
writable_bytes-retrieve b n h = ground arith
