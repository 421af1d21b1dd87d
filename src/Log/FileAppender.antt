-- ===== src/Log/FileAppender.antt =====
-- clia/src/log/file_appender.cc: `FileAppender`. What stdio and the file system are asked to do is a list
-- of calls; what they, the clock and `::localtime_r` answer are arguments. A time is one since the epoch.
pub mod Writing
pub mod OldFiles
pub mod Dates
pub mod Calls
pub mod Rolling
pub mod Appends
mod Tests
use clia.Prelude.{
  ℕ, zero, suc, ◌+◌, ◌-◌, ◌*◌, ◌/◌, Bool, true, false, not, ◌&&◌, ◌||◌, List, [], ◌∷◌, ◌++◌, length,
  take, drop, codes, Option, none, some, ltb, leb, ◌==◌, if◌then◌else◌, Outcome, ok, err, Fault,
}
use clia.Util.Timestamp.{Tm, decimal, zeros}

-- What `file_` points to.
pub data File : Type 0 where
  null opened standard : File

pub data StdioCall : Type 0 where
  makes_dir opens sets_buffer removes writes : List ℕ → StdioCall
  flushes syncs closes : StdioCall

pub record FileAppender : Type 0 where
  pub path : List ℕ
  pub logname : List ℕ
  pub roll_size_byte : ℕ
  pub roll_period_sec : ℕ
  pub retain_period_sec : ℕ
  pub check_every : ℕ
  pub count : ℕ
  pub last_roll_time : ℕ
  pub this_roll_period : ℕ
  pub written_bytes : ℕ
  pub file : File
  pub calls : List StdioCall

-- An entry of the directory, and whether its type is `DT_REG`.
pub record Entry : Type 0 where
  pub regular : Bool
  pub d_name : List ℕ

-- What is answered while a file is rolled: the clock, three times; whether the file was opened; and the
-- entries of the directory, if it was opened.
pub record RollAnswers : Type 0 where
  pub now : ℕ
  pub name_time : ℕ
  pub delete_time : ℕ
  pub is_opened : Bool
  pub entries : Option (List Entry)

-- The end of the file that was written to.
unfoldable pub close_file : File → List StdioCall
close_file null = []
close_file opened = flushes ∷ syncs ∷ closes ∷ []
close_file standard = []

-- `string::find(kSuffix) != npos`
abbrev pub starts : List ℕ → List ℕ → Bool
starts [] text = true
starts (c ∷ cs) [] = false
starts (c ∷ cs) (d ∷ ds) = (c == d) && starts cs ds

abbrev pub contains : List ℕ → List ℕ → Bool
contains [] part = starts part []
contains (c ∷ text) part = starts part (c ∷ text) || contains text part

abbrev pub ends_in : ℕ → List ℕ → Bool
ends_in c [] = false
ends_in c (d ∷ []) = d == c
ends_in c (d ∷ e ∷ text) = ends_in c (e ∷ text)

-- `strncmp(a, b, n) < 0`
unfoldable pub precedes : ℕ → List ℕ → List ℕ → Bool
precedes zero a b = false
precedes (suc n) a [] = false
precedes (suc n) [] (d ∷ b) = true
precedes (suc n) (c ∷ a) (d ∷ b) = ltb c d || ((c == d) && precedes n a b)

-- The loop over the entries.
unfoldable pub old_files : List ℕ → List ℕ → List Entry → List (List ℕ)
old_files path timebuf [] = []
old_files path timebuf (e ∷ entries) =
    let rest = old_files path timebuf entries in
    if not e.regular
    then rest
    else if not (precedes (length timebuf) e.d_name timebuf)
    then rest
    else (path ++ b'/' ∷ e.d_name) ∷ rest

abbrev pub all_removed : List (List ℕ) → List StdioCall
all_removed [] = []
all_removed (name ∷ names) = removes name ∷ all_removed names

-- The loop of `append_unlocked`, on the bytes that remain. An answer of `fwrite_unlocked` is the number of
-- bytes that it took, at most those that remain, with `ferror` behind it. The result has the calls and
-- `written`; it is none while the loop goes on after the answers.
unfoldable pub write_loop : List ℕ → List (ℕ × Bool) → Option (List StdioCall × ℕ)
write_loop [] answers = some ([], 0)
write_loop (c ∷ remain) [] = none
write_loop (c ∷ remain) ((n, ferror) ∷ answers) =
    let rest = write_loop (drop n (c ∷ remain)) answers in
    if not (n == length (c ∷ remain)) && ferror
    then some (writes (take n (c ∷ remain)) ∷ [], 0)
    else elim rest [
      | none ↦ none
      | some (calls, written) ↦ some (writes (take n (c ∷ remain)) ∷ calls, n + written)
    ]

abbrev pub written_into : FileAppender → Option (List StdioCall × ℕ) → Option FileAppender
written_into s none = none
written_into s (some (calls, written)) =
    some (record s { calls = s.calls ++ calls; written_bytes = s.written_bytes + written })

abbrev pub flush : FileAppender → FileAppender
flush s = record s { calls = s.calls ++ flushes ∷ [] }

unfoldable pub destroy : FileAppender → FileAppender
unfolding close_file
destroy s = record s { calls = s.calls ++ close_file s.file }

module _ (localtime : ℕ → Tm) where
  -- What `strftime(…, "%Y%m%d%H%M%S", …)` prints.
  unfoldable pub get_date_prefix : ℕ → List ℕ
  get_date_prefix t =
      let tm = localtime t in
      decimal (tm.tm_year + 1900)
      ++ zeros 2 (tm.tm_mon + 1)
      ++ zeros 2 tm.tm_mday
      ++ zeros 2 tm.tm_hour
      ++ zeros 2 tm.tm_min
      ++ zeros 2 tm.tm_sec

  unfoldable pub del_old_files : FileAppender → ℕ → Option (List Entry) → FileAppender
  unfolding old_files
  del_old_files s t none = s
  del_old_files s t (some entries) = record s {
    calls =
        s.calls
        ++ all_removed (old_files s.path (get_date_prefix (t - s.retain_period_sec)) entries);
  }

module _ (localtime : ℕ → Tm) (pid : ℕ) where
  unfoldable pub get_logfilename : FileAppender → ℕ → List ℕ
  unfolding get_date_prefix
  get_logfilename s t =
      s.path
      ++ (if (length s.path == 0) || ends_in b'/' s.path then [] else codes "/")
      ++ get_date_prefix localtime t
      ++ codes "."
      ++ decimal pid
      ++ codes "."
      ++ s.logname
      ++ (if contains s.logname (codes ".log") then [] else codes ".log")

  -- The part of `roll_file` in front of `del_old_files`, at another second than the last.
  unfoldable pub open_file : FileAppender → RollAnswers → FileAppender
  unfolding close_file get_logfilename
  open_file s a =
      let filename = get_logfilename s a.name_time in
      record s {
        last_roll_time = a.now;
        this_roll_period = a.now / s.roll_period_sec * s.roll_period_sec;
        calls =
            s.calls
            ++ close_file s.file
            ++ opens filename ∷ (if a.is_opened then sets_buffer filename ∷ [] else []);
        file = if a.is_opened then opened else standard;
        written_bytes = 0;
      }

  unfoldable pub roll_file : FileAppender → RollAnswers → FileAppender
  unfolding open_file
  roll_file s a =
      if s.last_roll_time == a.now
      then s
      else del_old_files localtime (open_file s a) a.delete_time a.entries

  -- The part of `append_unlocked` in front of its loop; `check_time` is the clock's answer there.
  unfoldable pub roll_if_due : FileAppender → ℕ → RollAnswers → FileAppender
  unfolding roll_file
  roll_if_due s check_time a =
      if ltb s.roll_size_byte s.written_bytes
      then roll_file s a
      else if not (leb s.check_every (s.count + 1))
      then record s { count = s.count + 1 }
      else if check_time / s.roll_period_sec * s.roll_period_sec == s.this_roll_period
      then record s { count = 0 }
      else roll_file (record s { count = 0 }) a

  unfoldable pub append_unlocked :
      FileAppender → List ℕ → ℕ → RollAnswers → List (ℕ × Bool) → Option FileAppender
  unfolding roll_if_due write_loop
  append_unlocked s buf check_time a answers =
      written_into (roll_if_due s check_time a) (write_loop buf answers)

  -- A null buffer is `none`. The mutex, if there is one, makes the call one step.
  unfoldable pub append :
      FileAppender → Option (List ℕ) → ℕ → RollAnswers → List (ℕ × Bool) → Option FileAppender
  unfolding append_unlocked
  append s none check_time a answers = some s
  append s (some buf) check_time a answers =
      if length buf == 0 then some s else append_unlocked s buf check_time a answers

  -- The constructor; `exists` is whether `access` found the path. A period of no days is a division by
  -- zero in `roll_file`.
  unfoldable pub create :
      List ℕ → List ℕ → ℕ → ℕ → ℕ → ℕ → Bool → RollAnswers → Outcome FileAppender
  unfolding roll_file
  create path logname roll_size_byte roll_period_days retain_period_day check_every exists a =
      if roll_period_days == 0
      then err Fault.division
      else (ok (
          roll_file
            (record {
              path = path;
              logname = logname;
              roll_size_byte = roll_size_byte;
              roll_period_sec = roll_period_days * 24 * 60 * 60;
              retain_period_sec = retain_period_day * 24 * 60 * 60;
              check_every = check_every;
              count = 0;
              last_roll_time = 0;
              this_roll_period = 0;
              written_bytes = 0;
              file = null;
              calls = if exists then [] else makes_dir path ∷ [];
            })
            a))
