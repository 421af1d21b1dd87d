-- ===== src/Log/FileAppender/Tests.antt =====
-- The theorems on `FileAppender` at two appends, and which of two files is removed.
use clia.Prelude.{
  ℕ, ◌<◌, ◌+◌, ◌/◌, ◌%◌, ◌≡◌, refl, true, false, inl, inr, List, ◌*◌, ◌≤◌, [], ◌∷◌, ◌++◌, length,
  codes, none, some, Returns, arith,
}
use clia.Util.Timestamp.{Tm, decimal, padded}
use clia.Util.StrFunc.{digits}
use clia.Log.FileAppender.{
  FileAppender, opened, RollAnswers, removes, write_loop, get_date_prefix, all_removed, precedes,
  old_files, del_old_files, create,
}
use clia.Log.FileAppender.Writing.{text, IsWritten, write_loop-IsWritten}
use clia.Log.FileAppender.OldFiles.{LogFile, all_entries}
use clia.Log.FileAppender.Dates.{IsCalendar, outdated, del_old_files-outdated}
use clia.Log.FileAppender.Calls.{current}
use clia.Log.FileAppender.Calls.Files.{bytes_to, times_opened}
use clia.Log.FileAppender.Rolling.{Append, Ends}
use clia.Log.FileAppender.Appends.{messages, append_all, append_all-text, bytes_to-append_all}

-- A calendar of one month.
abbrev calendar : ℕ → Tm
calendar t = record {
  tm_year = 119;
  tm_mon = 4;
  tm_mday = 1 + t / 86400;
  tm_hour = t / 3600 % 24;
  tm_min = t / 60 % 60;
  tm_sec = t % 60;
}

abbrev rolled_at : ℕ → RollAnswers
rolled_at t = record { now = t; name_time = t; delete_time = t; is_opened = true; entries = none }

-- Written in two calls.
abbrev first : Append
first = record {
  buf = 1 ∷ 2 ∷ 3 ∷ [];
  check_time = 10;
  roll = rolled_at 10;
  answers = (2, false) ∷ (1, false) ∷ (1, false) ∷ [];
}

abbrev second : Append
second = record { buf = 4 ∷ []; check_time = 11; roll = rolled_at 11; answers = (1, false) ∷ [] }

write_loop-IsWritten_example :
    IsWritten
      (1 ∷ 2 ∷ 3 ∷ [])
      ((2, false) ∷ (0, true) ∷ (0, true) ∷ [])
      (write_loop (1 ∷ 2 ∷ 3 ∷ []) ((2, false) ∷ (0, true) ∷ (0, true) ∷ []))
write_loop-IsWritten_example =
    write_loop-IsWritten ((2, false) ∷ (0, true) ∷ (0, true) ∷ []) (1 ∷ 2 ∷ 3 ∷ [])
      (omega arith, inl (omega arith), (omega arith, inr refl, (omega arith, inr refl, tt)))
      (omega arith)

append_all-text_example :
    Returns (create calendar 7 (codes "/tmp") (codes "a") 2 1 180 1024 true (rolled_at 9)) (λ s.
      Ends (append_all calendar 7 s (first ∷ second ∷ [])) (λ s'.
        (text s'.calls ≡ messages (first ∷ second ∷ []))
        × (s'.written_bytes ≡ length (current [] s'.calls))))
append_all-text_example =
    append_all-text calendar 7 (codes "/tmp") (codes "a") 2 1 180 1024 true (rolled_at 9)
      (first ∷ second ∷ []) (omega arith)
      (
        (
          (omega arith, inl (omega arith), (omega arith, inl (omega arith), tt)),
          (refl, (refl, (refl, tt))),
          omega arith,
        ),
        (((omega arith, inl (omega arith), tt), (refl, tt), omega arith), tt),
      )

bytes_to-append_all_example :
    Returns (create calendar 7 (codes "/tmp") (codes "a") 2 1 180 1024 true (rolled_at 9)) (λ s.
      Ends (append_all calendar 7 s (first ∷ second ∷ [])) (λ s'.
        (name : List ℕ)
        → length (bytes_to name false s'.calls) ≤ times_opened name s'.calls * (2 + 3)))
bytes_to-append_all_example =
    bytes_to-append_all calendar 7 (codes "/tmp") (codes "a") 2 1 180 1024 true (rolled_at 9) 3
      (first ∷ second ∷ []) (omega arith)
      (
        (
          (omega arith, inl (omega arith), (omega arith, inl (omega arith), tt)),
          (refl, (refl, (refl, tt))),
          omega arith,
        ),
        (((omega arith, inl (omega arith), tt), (refl, tt), omega arith), tt),
      )
      (omega arith, (omega arith, tt)) (omega arith, (omega arith, tt))

abbrev kept : LogFile
kept = record { made = 100; regular = true; rest = codes ".7.a.log" }

abbrev old : LogFile
old = record { made = 39; regular = true; rest = codes ".7.a.log" }

-- The retention period is a minute.
abbrev appender : FileAppender
appender = record {
  path = codes "/tmp";
  logname = codes "a";
  roll_size_byte = 2;
  roll_period_sec = 86400;
  retain_period_sec = 60;
  check_every = 1024;
  count = 0;
  last_roll_time = 100;
  this_roll_period = 0;
  written_bytes = 0;
  file = opened;
  calls = [];
}

calendar-IsCalendar : (t : ℕ) → t < 2592000 → IsCalendar (calendar t)
calendar-IsCalendar t h = record {
  year = (omega arith, omega arith);
  month = omega arith;
  day = omega arith;
  hour = omega arith;
  minute = omega arith;
  second = omega arith;
}

del_old_files-outdated_example :
    (del_old_files calendar appender 100 (some (all_entries calendar (kept ∷ old ∷ [])))).calls
    ≡ [] ++ all_removed (outdated calendar (codes "/tmp") 40 (kept ∷ old ∷ []))
del_old_files-outdated_example =
    del_old_files-outdated calendar appender 100 (kept ∷ old ∷ [])
      (calendar-IsCalendar 100 (omega arith), (calendar-IsCalendar 39 (omega arith), tt))
      (calendar-IsCalendar 40 (omega arith))

del_old_files-calls :
    (del_old_files calendar appender 100 (some (all_entries calendar (kept ∷ old ∷ [])))).calls
    ≡ removes (codes "/tmp/20190501000039.7.a.log") ∷ []
unfolding del_old_files old_files precedes get_date_prefix decimal padded digits
del_old_files-calls = refl
