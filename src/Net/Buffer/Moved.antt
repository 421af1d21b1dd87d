-- ===== src/Net/Buffer/Moved.antt =====
-- The move constructor and the move assignment of `Buffer`.
use clia.Prelude.{ℕ, ◌^◌, ◌<◌, ◌≡◌, List, length, err, Fault, arith, false}
use clia.Net.Buffer.{Buffer, append, ensure_writable_bytes, write_bytes, move_from, move_assign}
use clia.Net.Buffer.Bounds.{Holds}

-- The buffer that was moved from has indices past the end of its empty vector: its room is taken for
-- almost 2^64 bytes, so that an append of any bytes writes outside the vector, while the target of
-- the move holds what the buffer held. It is so for the constructor and for the assignment between
-- two objects.
pub moved_from_append :
    (b self : Buffer) (q d : List ℕ)
    → Holds q b
    → 0 < length d
    → length d < 2 ^ 63
    → Holds q (move_from b).0
      × (append (move_from b).1 d ≡ err Fault.bad_access)
      × Holds q (move_assign false self b).0
      × (append (move_assign false self b).1 d ≡ err Fault.bad_access)
unfolding move_assign move_from append ensure_writable_bytes write_bytes
moved_from_append b self q d v pos small = ground arith
