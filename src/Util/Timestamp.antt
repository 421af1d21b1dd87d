-- ===== src/Util/Timestamp.antt =====
-- clia/src/util/timestamp.cc: `Timestamp`, in microseconds since the epoch; a time before it is not
-- modelled. What `::localtime_r` answers is an argument.
pub mod Order
pub mod Width
mod Tests
use clia.Prelude.{
  ℕ, ◌+◌, ◌-◌, ◌*◌, ◌/◌, ◌%◌, Bool, true, false, not, List, [], ◌∷◌, ◌++◌, length, take, replicate,
  ltb, leb, ◌==◌,
}
use clia.Util.StrFunc.{digits, reverse, rounds}

abbrev pub micro_sec_per_sec : ℕ
micro_sec_per_sec = 1000 * 1000

pub record Timestamp : Type 0 where
  pub micro_sec_since_epoch : ℕ

abbrev pub create : Timestamp
create = record { micro_sec_since_epoch = 0 }

abbrev pub copy : Timestamp → Timestamp
copy oth = record { micro_sec_since_epoch = oth.micro_sec_since_epoch }

abbrev pub sec_since_epoch : Timestamp → ℕ
sec_since_epoch t = t.micro_sec_since_epoch / micro_sec_per_sec

-- The part that `to_format_str` and the log call microseconds.
abbrev pub micro_sec : Timestamp → ℕ
micro_sec t = t.micro_sec_since_epoch % micro_sec_per_sec

-- The fields of `::tm` that are used; `tm_year` counts from 1900, `tm_mon` from 0.
pub record Tm : Type 0 where
  pub tm_year : ℕ
  pub tm_mon : ℕ
  pub tm_mday : ℕ
  pub tm_hour : ℕ
  pub tm_min : ℕ
  pub tm_sec : ℕ

-- What `%d` prints, filled up in front to `width` characters, by blanks or by zeros (`%4d`, `%02d`).
unfoldable pub decimal : ℕ → List ℕ
decimal n = reverse (digits rounds n)

unfoldable pub padded : ℕ → ℕ → ℕ → List ℕ
unfolding decimal
padded fill width n = replicate (width - length (decimal n)) fill ++ decimal n

abbrev pub zeros : ℕ → ℕ → List ℕ
zeros = padded b'0'

unfoldable pub date_time : Tm → List ℕ
date_time tm =
    zeros 4 (tm.tm_year + 1900)
    ++ b'-' ∷ zeros 2 (tm.tm_mon + 1)
    ++ b'-' ∷ zeros 2 tm.tm_mday
    ++ b' ' ∷ zeros 2 tm.tm_hour
    ++ b':' ∷ zeros 2 tm.tm_min
    ++ b':' ∷ zeros 2 tm.tm_sec

unfoldable pub short_date_time : Tm → List ℕ
short_date_time tm =
    padded b' ' 4 (tm.tm_year + 1900)
    ++ zeros 2 (tm.tm_mon + 1)
    ++ zeros 2 tm.tm_mday
    ++ b' ' ∷ zeros 2 tm.tm_hour
    ++ b':' ∷ zeros 2 tm.tm_min
    ++ b':' ∷ zeros 2 tm.tm_sec

-- The text that `to_format_str` prints.
unfoldable pub to_format_str : (ℕ → Tm) → Bool → Timestamp → List ℕ
unfolding date_time short_date_time
to_format_str localtime true t =
    date_time (localtime (sec_since_epoch t)) ++ b'.' ∷ zeros 6 (micro_sec t)
to_format_str localtime false t = short_date_time (localtime (sec_since_epoch t))

-- In an array of `sz` characters: what is printed there, and the length that is returned.
abbrev pub to_format_str_in : (ℕ → Tm) → ℕ → Bool → Timestamp → List ℕ × ℕ
to_format_str_in localtime sz show_micro_sec t =
    let text = to_format_str localtime show_micro_sec t in (take (sz - 1) text, length text)

abbrev pub lt : Timestamp → Timestamp → Bool
lt t oth = ltb t.micro_sec_since_epoch oth.micro_sec_since_epoch

abbrev pub le : Timestamp → Timestamp → Bool
le t oth = leb t.micro_sec_since_epoch oth.micro_sec_since_epoch

abbrev pub gt : Timestamp → Timestamp → Bool
gt t oth = ltb oth.micro_sec_since_epoch t.micro_sec_since_epoch

abbrev pub ge : Timestamp → Timestamp → Bool
ge t oth = leb oth.micro_sec_since_epoch t.micro_sec_since_epoch

abbrev pub eq : Timestamp → Timestamp → Bool
eq t oth = t.micro_sec_since_epoch == oth.micro_sec_since_epoch

abbrev pub ne : Timestamp → Timestamp → Bool
ne t oth = not (eq t oth)

-- With the answer of `::gettimeofday`.
unfoldable pub now : ℕ → ℕ → Timestamp
now tv_sec tv_usec = record { micro_sec_since_epoch = tv_sec * micro_sec_per_sec + tv_usec }
