-- ===== src/Prelude/Words.antt =====
-- The arithmetic of `std::size_t` (64 bits), with its wrap-around written out.
use Prim.Native.Nat.{ℕ, ◌+◌, ◌-◌, ◌%◌, ◌^◌}

abbrev pub add_size : ℕ → ℕ → ℕ
add_size a b = (a + b) % 2 ^ 64

abbrev pub sub_size : ℕ → ℕ → ℕ
sub_size a b = (a + 2 ^ 64 - b) % 2 ^ 64

-- `max_size()` of a `std::vector` of bytes.
abbrev pub max_size : ℕ
max_size = 2 ^ 63 - 1
