-- ===== src/Util/CountDownLatch.antt =====
-- clia/src/util/countdown_latch.cc: `CountDownLatch`; each function is one step under the mutex.
pub mod Counting
mod Tests
use clia.Prelude.{
  ℕ, zero, suc, ◌+◌, Bool, true, false, ◌==◌, if◌then◌else◌, Outcome, ok, err, Fault, ◌>>◌, assert,
}
use clia.Util.StrFunc.{Integer, pos, negsuc}

-- The count, and how often `notify_all` was called.
pub record CountDownLatch : Type 0 where
  pub count : Integer
  pub notified : ℕ

abbrev is_positive : Integer → Bool
is_positive (pos zero) = false
is_positive (pos (suc n)) = true
is_positive (negsuc n) = false

unfoldable pub create : Integer → Outcome CountDownLatch
create count = assert (is_positive count) >> ok (record { count = count; notified = 0 })

-- The condition variable is handed a lock whose pointer to a mutex is null.
unfoldable pub wait : CountDownLatch → Outcome CountDownLatch
wait s = if is_positive s.count then err Fault.bad_access else ok s

abbrev pub decrement : Integer → Integer
decrement (pos zero) = negsuc 0
decrement (pos (suc n)) = pos n
decrement (negsuc n) = negsuc (n + 1)

abbrev is_zero : Integer → Bool
is_zero (pos n) = n == 0
is_zero (negsuc n) = false

unfoldable pub count_down : CountDownLatch → CountDownLatch
count_down s =
    if is_zero (decrement s.count)
    then record { count = decrement s.count; notified = s.notified + 1 }
    else record s { count = decrement s.count }

abbrev pub get_count : CountDownLatch → Integer
get_count s = s.count
