-- ===== src/Util/Timestamp/Tests.antt =====
-- A time that is printed.
use clia.Prelude.{ℕ, ◌≡◌, refl, true, false, codes}
use clia.Util.StrFunc.{digits}
use clia.Util.Timestamp.{Tm, now, to_format_str, date_time, short_date_time, decimal, padded}

abbrev november : ℕ → Tm
november sec = record {
  tm_year = 123;
  tm_mon = 10;
  tm_mday = 14;
  tm_hour = 22;
  tm_min = 13;
  tm_sec = 20;
}

to_format_str-now :
    to_format_str november true (now 1700000000 5) ≡ codes "2023-11-14 22:13:20.000005"
unfolding to_format_str date_time padded decimal digits now
to_format_str-now = refl

to_format_str-now_short :
    to_format_str november false (now 1700000000 5) ≡ codes "20231114 22:13:20"
unfolding to_format_str short_date_time padded decimal digits now
to_format_str-now_short = refl
