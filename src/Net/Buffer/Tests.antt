-- ===== src/Net/Buffer/Tests.antt =====
-- The theorems on `Buffer` at small buffers, and runs of its methods.
use clia.Prelude.{
  ℕ, ◌≡◌, refl, List, [], ◌∷◌, length, replicate, some, ok, err, Fault, Returns, arith,
  length-replicate, overwrite, resize, ◌>>=◌,
}
use clia.Net.Buffer.{
  Buffer, writable_bytes, create, append, retrieve, retrieve_as_string, read_fd,
  ensure_writable_bytes, make_space, resize_buffer, compact, write_bytes, retrieve_all,
}
use clia.Net.Buffer.Bounds.{Holds, Grown, create-Holds}
use clia.Net.Buffer.Contents.{append-Holds}
use clia.Net.Buffer.Socket.{read_fd-Grown, read_fd_overflow}
use clia.Net.Buffer.Bytes
use clia.Net.Buffer.Bytes.{appends, takes, takes_all, sends, total_appended}
use clia.Net.Buffer.Stream.{run, Agrees, run-Agrees}

-- Two bytes to read, two to write.
abbrev small : Buffer
small = record {
  buffer = 0 ∷ 0 ∷ 0 ∷ 0 ∷ 0 ∷ 0 ∷ 0 ∷ 0 ∷ 9 ∷ 10 ∷ 11 ∷ 0 ∷ 0 ∷ [];
  reader_index = 9;
  writer_index = 11;
}

small-Holds : Holds (10 ∷ 11 ∷ []) small
small-Holds = record { valid = omega arith; bytes = refl }

create-append :
    (create 2 >>= λ b. append b (1 ∷ 2 ∷ 3 ∷ []) >>= λ b'. retrieve_as_string b' 2 >>= λ r. ok r.0)
    ≡ ok (1 ∷ 2 ∷ [])
unfolding create append ensure_writable_bytes make_space resize_buffer compact write_bytes retrieve
    retrieve_all retrieve_as_string overwrite resize
create-append = refl

create-Holds_example : Returns (create 4) (λ b. Holds [] b × (writable_bytes b ≡ 4))
create-Holds_example = create-Holds 4 (omega arith)

append-Holds_example :
    Returns (append small (1 ∷ 2 ∷ 3 ∷ [])) (Grown small (10 ∷ 11 ∷ 1 ∷ 2 ∷ 3 ∷ []) 3)
append-Holds_example = append-Holds small (10 ∷ 11 ∷ []) (1 ∷ 2 ∷ 3 ∷ []) small-Holds (omega arith)

read_fd-Grown_example :
    Returns (read_fd small (some (1 ∷ 2 ∷ 3 ∷ []))) (Grown small (10 ∷ 11 ∷ 1 ∷ 2 ∷ 3 ∷ []) 3)
read_fd-Grown_example =
    read_fd-Grown small (10 ∷ 11 ∷ []) (1 ∷ 2 ∷ 3 ∷ []) small-Holds (omega arith) (omega arith)
      (omega arith)

run-Agrees_example :
    Agrees small 3
      (Bytes.run (10 ∷ 11 ∷ []) (appends (1 ∷ 2 ∷ 3 ∷ []) ∷ takes 1 ∷ sends 9 ∷ []))
      (run small (appends (1 ∷ 2 ∷ 3 ∷ []) ∷ takes 1 ∷ sends 9 ∷ []))
run-Agrees_example =
    run-Agrees (appends (1 ∷ 2 ∷ 3 ∷ []) ∷ takes 1 ∷ sends 9 ∷ []) small (10 ∷ 11 ∷ []) small-Holds
      (omega arith)

flood : List ℕ
flood = replicate 65534 0

length-flood : length flood ≡ 65534
unfolding flood
length-flood = length-replicate {A = ℕ} 65534 0

read_fd_overflow_example : read_fd small (some flood) ≡ err Fault.bad_access
read_fd_overflow_example =
    read_fd_overflow small (10 ∷ 11 ∷ []) flood small-Holds (omega arith)
      (omega (arith, length-flood)) (omega (arith, length-flood))
