-- ===== src/Util/Timestamp/Width.antt =====
-- clia/src/util/timestamp.cc: how long the text of `to_format_str` is.
use clia.Prelude.{
  ℕ, ◌+◌, ◌-◌, ◌≤◌, ◌<◌, List, ◌∷◌, ◌++◌, length, length-append, length-replicate, replicate, arith,
}
use clia.Util.StrFunc.Printed.{length-decimal}
use clia.Util.Timestamp.{Tm, decimal, padded, short_date_time}

-- The fields are in the ranges that `::localtime_r` documents, and the year has at most four digits.
pub record InRange (tm : Tm) : Type 0 where
  pub year : tm.tm_year + 1900 < 10000
  pub month : tm.tm_mon < 12
  pub day : tm.tm_mday ≤ 31
  pub hour : tm.tm_hour < 24
  pub minute : tm.tm_min < 60
  pub second : tm.tm_sec ≤ 60

length-padded : (fill width n : ℕ) → width ≤ 6 → n < 10000 → length (padded fill width n) ≤ 6
unfolding padded decimal
length-padded fill width n w h = omega (
  arith,
  length-decimal n (omega arith),
  length-append (replicate (width - length (decimal n)) fill) (decimal n),
  length-replicate {A = ℕ} (width - length (decimal n)) fill,
)

length-six :
    (year month day hour minute second : List ℕ)
    → length year ≤ 6
    → length month ≤ 6
    → length day ≤ 6
    → length hour ≤ 6
    → length minute ≤ 6
    → length second ≤ 6
    → length (year ++ month ++ day ++ b' ' ∷ hour ++ b':' ∷ minute ++ b':' ∷ second) ≤ 39
length-six year month day hour minute second k l m n o p = omega (
  arith,
  length-append (year ++ month ++ day ++ b' ' ∷ hour ++ b':' ∷ minute) (b':' ∷ second),
  length-append (year ++ month ++ day ++ b' ' ∷ hour) (b':' ∷ minute),
  length-append (year ++ month ++ day) (b' ' ∷ hour),
  length-append (year ++ month) day,
  length-append year month,
)

pub length-short_date_time : (tm : Tm) → InRange tm → length (short_date_time tm) ≤ 39
unfolding short_date_time
length-short_date_time tm v =
    length-six _ _ _ _ _ _ (length-padded b' ' 4 (tm.tm_year + 1900) (omega arith) v.year)
      (length-padded b'0' 2 (tm.tm_mon + 1) (omega arith) (omega (arith, v.month)))
      (length-padded b'0' 2 tm.tm_mday (omega arith) (omega (arith, v.day)))
      (length-padded b'0' 2 tm.tm_hour (omega arith) (omega (arith, v.hour)))
      (length-padded b'0' 2 tm.tm_min (omega arith) (omega (arith, v.minute)))
      (length-padded b'0' 2 tm.tm_sec (omega arith) (omega (arith, v.second)))
