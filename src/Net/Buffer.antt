-- ===== src/Net/Buffer.antt =====
-- clia/src/net/buffer.cc and clia/clia/net/buffer.h: the byte buffer of a connection. A method
-- returns the new buffer, or the fault that stops the process. Bytes are only moved, never computed
-- with, so a byte is any number. A pointer with a length is the list of the bytes that it names.
pub mod Bounds
pub mod Contents
pub mod Socket
pub mod Bytes
pub mod Stream
pub mod Moved
mod Tests
use clia.Prelude.{
  ℕ, ◌+◌, Bool, true, false, ◌&&◌, List, [], length, take, drop, slice, overwrite, resize, Option,
  none, some, ltb, leb, ◌==◌, if◌then◌else◌, Outcome, ok, err, Fault, ◌>>=◌, ◌>>◌, assert,
  accessible, add_size, sub_size, max_size,
}

abbrev pub cheap_prepend : ℕ
cheap_prepend = 8

abbrev pub initial_size : ℕ
initial_size = 1024

-- The size of the array `extrabuf` on the stack of `read_fd`.
abbrev pub extra_size : ℕ
extra_size = 65536

pub record Buffer : Type 0 where
  pub buffer : List ℕ
  pub reader_index : ℕ
  pub writer_index : ℕ

abbrev pub readable_bytes : Buffer → ℕ
readable_bytes b = sub_size b.writer_index b.reader_index

abbrev pub writable_bytes : Buffer → ℕ
writable_bytes b = sub_size (length b.buffer) b.writer_index

abbrev pub prependable_bytes : Buffer → ℕ
prependable_bytes b = b.reader_index

-- `buffer_.resize(n)`; growing past `max_size()` throws.
pub resize_buffer : Buffer → ℕ → Outcome Buffer
resize_buffer b n =
    if ltb max_size n
    then err Fault.length_error
    else ok (record b { buffer = resize b.buffer n 0 })

-- The constructor, for a vector of `n` zeros past the prepend area.
pub create : ℕ → Outcome Buffer
create n = do
  b ←
      resize_buffer
        (record { buffer = []; reader_index = cheap_prepend; writer_index = cheap_prepend })
        (add_size cheap_prepend n)
  assert (readable_bytes b == 0)
  assert (writable_bytes b == n)
  assert (prependable_bytes b == cheap_prepend)
  ok b

pub retrieve_all : Buffer → Buffer
retrieve_all b = record b { reader_index = cheap_prepend; writer_index = cheap_prepend }

pub retrieve : Buffer → ℕ → Outcome Buffer
retrieve b len = do
  assert (leb len (readable_bytes b))
  ok (
      if ltb len (readable_bytes b)
      then record b { reader_index = add_size b.reader_index len }
      else retrieve_all b)

-- The string is copied from `peek()`, which points at `reader_index_`.
pub retrieve_as_string : Buffer → ℕ → Outcome (List ℕ × Buffer)
retrieve_as_string b len = do
  assert (leb len (readable_bytes b))
  accessible (leb (b.reader_index + len) (length b.buffer))
  b' ← retrieve b len
  ok (slice b.reader_index (b.reader_index + len) b.buffer, b')

pub retrieve_all_as_string : Buffer → Outcome (List ℕ × Buffer)
retrieve_all_as_string b = retrieve_as_string b (readable_bytes b)

-- The move of the readable bytes to the front, by `std::copy`.
pub compact : Buffer → Outcome Buffer
compact b = do
  assert (ltb cheap_prepend b.reader_index)
  accessible (leb b.reader_index b.writer_index && leb b.writer_index (length b.buffer))
  let b' : Buffer = record b {
    buffer = overwrite b.buffer cheap_prepend (slice b.reader_index b.writer_index b.buffer);
    reader_index = cheap_prepend;
    writer_index = add_size cheap_prepend (readable_bytes b);
  }
  assert (readable_bytes b == readable_bytes b')
  ok b'

pub make_space : Buffer → ℕ → Outcome Buffer
make_space b len =
    if ltb (add_size (writable_bytes b) (prependable_bytes b)) (add_size len cheap_prepend)
    then resize_buffer b (add_size b.writer_index len)
    else compact b

pub ensure_writable_bytes : Buffer → ℕ → Outcome Buffer
ensure_writable_bytes b len = do
  b' ← if ltb (writable_bytes b) len then make_space b len else ok b
  assert (leb len (writable_bytes b'))
  ok b'

-- A copy of `bytes` to `begin_write()`, and the step of `writer_index_` that follows it.
unfoldable pub write_bytes : Buffer → List ℕ → Outcome Buffer
write_bytes b bytes = do
  accessible (leb (b.writer_index + length bytes) (length b.buffer))
  ok (record b {
    buffer = overwrite b.buffer b.writer_index bytes;
    writer_index = add_size b.writer_index (length bytes);
  })

pub append : Buffer → List ℕ → Outcome Buffer
append b bytes = do b' ← ensure_writable_bytes b (length bytes); write_bytes b' bytes

-- What `read_fd` does with the answer of `::readv`: `none` for -1, and else the bytes received, the
-- first of which are in the buffer's writable part and the others in `extrabuf`.
unfoldable pub scatter : Buffer → Option (List ℕ) → Outcome Buffer
scatter b none = ok b
scatter b (some bytes) = if leb (length bytes) (writable_bytes b) then write_bytes b bytes else do
  b' ← write_bytes b (take (writable_bytes b) bytes)
  append b' (drop (writable_bytes b) bytes)

-- The last two steps copy the readable bytes and a terminator into `extrabuf`.
unfoldable pub read_fd : Buffer → Option (List ℕ) → Outcome Buffer
read_fd b answer = do
  assert (ltb 0 (writable_bytes b))
  b' ← scatter b answer
  accessible (leb (readable_bytes b') extra_size)
  accessible (leb (b'.reader_index + readable_bytes b') (length b'.buffer))
  accessible (ltb (readable_bytes b') extra_size)
  ok b'

-- The answer of `::write` is `none` for -1, and else the number of bytes that it took.
unfoldable pub write_fd : Buffer → Option ℕ → Outcome Buffer
write_fd b none = ok b
write_fd b (some n) = retrieve b n

-- The copy constructor and the copy assignment.
pub copy : Buffer → Buffer
copy oth = record {
  buffer = oth.buffer;
  reader_index = oth.reader_index;
  writer_index = oth.writer_index;
}

-- The move constructor: the new buffer, and the one that it was moved from. Moving a vector leaves
-- it empty.
pub move_from : Buffer → Buffer × Buffer
move_from oth = (
  record { buffer = oth.buffer; reader_index = oth.reader_index; writer_index = oth.writer_index },
  record { buffer = []; reader_index = cheap_prepend; writer_index = cheap_prepend },
)

-- The move assignment; `same` tells whether both are one object.
pub move_assign : Bool → Buffer → Buffer → Buffer × Buffer
move_assign true self oth = (self, oth)
move_assign false self oth = move_from oth
