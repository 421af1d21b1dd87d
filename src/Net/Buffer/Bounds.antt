-- ===== src/Net/Buffer/Bounds.antt =====
-- The indices of a `Buffer` stay in order and inside the vector, and no arithmetic on them wraps.
use clia.Prelude.{
  ℕ, ◌+◌, ◌-◌, ◌≤◌, ◌<◌, ◌≡◌, List, [], length, slice, arith, Returns, length-overwrite,
  length-slice, length-resize, max_size, slice-overwrite, slice-resize, ◌++◌,
}
use clia.Net.Buffer.{
  Buffer, cheap_prepend, readable_bytes, writable_bytes, create, resize_buffer, compact,
  write_bytes,
}

pub record IsValid (b : Buffer) : Type 0 where
  pub prepend : cheap_prepend ≤ b.reader_index
  pub order : b.reader_index ≤ b.writer_index
  pub inside : b.writer_index ≤ length b.buffer
  pub small : length b.buffer ≤ max_size

-- The readable bytes, oldest first.
abbrev pub contents : Buffer → List ℕ
contents b = slice b.reader_index b.writer_index b.buffer

pub record Holds (q : List ℕ) (b : Buffer) : Type 0 where
  pub valid : IsValid b
  pub bytes : contents b ≡ q

-- The buffer now holds `q`, in a vector that is at most `n` bytes larger.
pub record Grown (b : Buffer) (q : List ℕ) (n : ℕ) (b' : Buffer) : Type 0 where
  pub held : Holds q b'
  pub growth : length b'.buffer ≤ length b.buffer + n

pub sizes :
    (b : Buffer)
    → IsValid b
    → (readable_bytes b ≡ length (contents b))
      × (writable_bytes b + b.writer_index ≡ length b.buffer)
sizes b v = omega (arith, length-slice b.reader_index b.writer_index b.buffer)

pub create-Holds :
    (n : ℕ)
    → cheap_prepend + n ≤ max_size
    → Returns (create n) (λ b. Holds [] b × (writable_bytes b ≡ n))
unfolding create resize_buffer
create-Holds n h = ground (arith, length-resize {A = ℕ} [] (cheap_prepend + n) 0)

pub resize_buffer-Holds :
    (b : Buffer) (n : ℕ) (q : List ℕ)
    → Holds q b
    → length b.buffer ≤ n
    → n ≤ max_size
    → Returns
        (resize_buffer b n)
        (λ b'. Holds q b' × (length b'.buffer ≡ n) × (b'.writer_index ≡ b.writer_index))
unfolding resize_buffer
resize_buffer-Holds b n q v l h =
    ground
      (arith, length-resize b.buffer n 0, slice-resize b.reader_index b.writer_index n b.buffer 0)

pub compact-Holds :
    (b : Buffer) (q : List ℕ)
    → Holds q b
    → cheap_prepend < b.reader_index
    → Returns (compact b) (λ b'.
      Holds q b'
      × (length b'.buffer ≡ length b.buffer)
      × (b'.writer_index + b.reader_index ≡ cheap_prepend + b.writer_index))
unfolding compact
compact-Holds b q v h = ground (
  arith,
  length-overwrite b.buffer cheap_prepend (contents b),
  length-slice b.reader_index b.writer_index b.buffer,
  slice-overwrite cheap_prepend cheap_prepend (cheap_prepend + (b.writer_index - b.reader_index))
      b.buffer (contents b),
)

pub write_bytes-Holds :
    (b : Buffer) (q d : List ℕ)
    → Holds q b
    → b.writer_index + length d ≤ length b.buffer
    → Returns (write_bytes b d) (λ b'.
      Holds (q ++ d) b'
      × (length b'.buffer ≡ length b.buffer)
      × (b'.writer_index ≡ b.writer_index + length d)
      × (b'.reader_index ≡ b.reader_index))
unfolding write_bytes
write_bytes-Holds b q d v h = ground (
  arith,
  length-overwrite b.buffer b.writer_index d,
  slice-overwrite b.reader_index b.writer_index (b.writer_index + length d) b.buffer d,
)
