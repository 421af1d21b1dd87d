-- ===== src/Log/Event/Tests.antt =====
-- The theorems on the lines of the log at one line, and what is printed.
use clia.Prelude.{
  ℕ, ◌≢◌, ◌≡◌, ◌≤◌, ◌<◌, refl, List, [], ◌∷◌, ◌++◌, replicate, length-replicate, codes, none, some,
  ok, Returns, arith,
}
use clia.Util.Timestamp.{
  Timestamp, Tm, sec_since_epoch, to_format_str, date_time, short_date_time, padded, decimal,
}
use clia.Util.StrFunc.{digits, pos, print}
use clia.Container.FixedOStream.Printing.{Piece, char, integer, string, spell_all}
use clia.Log.Trait.{warn, info, level_to_string}
use clia.Log.Event.{initial, Site, stream_size, tips, log_line}
use clia.Log.Event.Time.{IsUsual, full_time, stamps, full_times, initial-IsFresh, stamps-full_times}
use clia.Log.Event.Line.{IsLine, Follows, log_line_lem}
use clia.Log.Event.Logged.{small, IsQueued, log_event, log_event-IsQueued}
use clia.Util.Timestamp.Width.{InRange}
use clia.Log.AsyncLogger
use clia.Log.AsyncLogger.{AsyncLogger, buffer_size}
use clia.Log.AsyncLogger.Buffers.{create-IsSound}

-- A clock that stands at one minute and two seconds past midnight.
abbrev clock : ℕ → Tm
clock sec = record { tm_year = 119; tm_mon = 4; tm_mday = 6; tm_hour = 0; tm_min = 1; tm_sec = 2 }

abbrev second : Timestamp
second = record { micro_sec_since_epoch = 62000017 }

abbrev later : Timestamp
later = record { micro_sec_since_epoch = 62900000 }

second-IsUsual : IsUsual clock second
unfolding to_format_str date_time short_date_time padded decimal digits
second-IsUsual = record { after_start = λ e. absurd (omega (arith, e)); fits = omega arith }

clock-InRange : InRange (clock 62)
clock-InRange = record {
  year = omega arith;
  month = omega arith;
  day = omega arith;
  hour = omega arith;
  minute = omega arith;
  second = omega arith;
}

second-later : sec_since_epoch second ≢ 0
second-later e = absurd (omega (arith, e))

later-later : sec_since_epoch later ≢ 0
later-later e = absurd (omega (arith, e))

stamps-full_times_example :
    stamps clock initial (second ∷ later ∷ second ∷ [])
    ≡ ok (full_times clock (second ∷ later ∷ second ∷ []))
stamps-full_times_example =
    stamps-full_times clock (second ∷ later ∷ second ∷ [])
      (second-later, clock-InRange, (later-later, clock-InRange, (second-later, clock-InRange, tt)))

full_time-second : full_time clock second ≡ codes "20190506 00:01:02.000017"
unfolding to_format_str date_time short_date_time padded decimal digits
full_time-second = refl

abbrev site : Site
site = record { file = codes "net/a.cc"; line = 40; func = codes "run"; pid = 7; tid = 8 }

abbrev pieces : List Piece
pieces = string (some (codes "left: ")) ∷ integer (pos 3) ∷ []

abbrev found : List ℕ
found = replicate stream_size 0

abbrev text : List Piece
text = tips (full_time clock second) warn site ++ (pieces ++ char b'\n' ∷ [])

log_line_lem_example :
    (info ≤ warn
      → Follows
          (log_line clock (some info) warn site initial second found pieces)
          (spell_all stream_size [] text)
          (IsLine clock))
    × (warn < info
        → log_line clock (some info) warn site initial second found pieces ≡ ok (none, initial))
    × (log_line clock none warn site initial second found pieces ≡ ok (none, initial))
log_line_lem_example =
    log_line_lem clock info warn site initial second found pieces (initial-IsFresh clock)
      second-IsUsual (length-replicate {A = ℕ} stream_size 0)
      (omega arith, omega arith, omega arith) (tt, (omega arith, tt))

abbrev line : List ℕ
line = codes "20190506 00:01:02.000017 7 8 WARN [a.cc:run:40]:: left: 3" ++ b'\n' ∷ []

text-line : spell_all stream_size [] text ≡ ok line
unfolding spell_all to_format_str date_time short_date_time padded decimal digits print
    level_to_string
text-line = refl

abbrev logger : AsyncLogger
logger = AsyncLogger.create buffer_size info

log_event-IsQueued_example :
    Returns
      (log_event clock logger warn site initial second found pieces)
      (IsQueued clock logger line)
unfolding AsyncLogger.create
log_event-IsQueued_example =
    log_event-IsQueued clock logger warn site initial second found pieces line
      (create-IsSound buffer_size small info).0 refl (omega arith) (initial-IsFresh clock)
      second-IsUsual (length-replicate {A = ℕ} stream_size 0)
      (omega arith, omega arith, omega arith) (tt, (omega arith, tt)) text-line
