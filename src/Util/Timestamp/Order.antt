-- ===== src/Util/Timestamp/Order.antt =====
-- Time stamps and the two numbers that `::gettimeofday` answered.
use clia.Prelude.{ℕ, ◌<◌, ◌≡◌, ◌&&◌, ◌||◌, ltb, leb, ◌==◌, arith}
use clia.Util.Timestamp.{now, sec_since_epoch, micro_sec, micro_sec_per_sec, lt, le, eq}

-- The second and the microsecond of a time stamp are those that it was made of; and its comparisons are
-- the lexicographic ones, on the second and then the microsecond.
pub now-order :
    (s u s' u' : ℕ)
    → u < micro_sec_per_sec
    → u' < micro_sec_per_sec
    → (sec_since_epoch (now s u) ≡ s)
      × (micro_sec (now s u) ≡ u)
      × (lt (now s u) (now s' u') ≡ (ltb s s' || (s == s') && ltb u u'))
      × (le (now s u) (now s' u') ≡ (ltb s s' || (s == s') && leb u u'))
      × (eq (now s u) (now s' u') ≡ ((s == s') && (u == u')))
unfolding now
now-order s u s' u' h k = (omega arith, omega arith, ground arith, ground arith, ground arith)
