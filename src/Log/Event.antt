-- ===== src/Log/Event.antt =====
-- clia/src/log/event.cc: `Event`, one line of the log, with the text in front of the message, and
-- `LargeEvent`. The clock, `::localtime_r`, the process and the thread are arguments.
pub mod Time
pub mod Line
pub mod Logged
pub mod Large
mod Tests
use clia.Prelude.{
  ℕ, ◌+◌, Bool, true, false, List, [], ◌∷◌, ◌++◌, length, take, codes, Option, none, some, leb,
  ◌==◌, if◌then◌else◌, Outcome, ok, err, Fault, ◌>>=◌, ◌>>◌, accessible,
}
use clia.Util.Timestamp.{
  Timestamp, Tm, sec_since_epoch, micro_sec, to_format_str, to_format_str_in, zeros, decimal,
}
use clia.Util.StrFunc.{pos}
use clia.Container.FixedOStream.{FixedOStream, str}
use clia.Container.FixedOStream
use clia.Container.FixedOStream.Printing.{Piece, string, char, integer, put_all}
use clia.Log.Trait.{Level, level_to_string}

-- The variables of a thread: `kMicroSecPos`, the text in `kTimeBuf`, and `kLastUpdateSec`.
pub record TimeCache : Type 0 where
  pub micro_sec_pos : ℕ
  pub time_buf : List ℕ
  pub last_update_sec : ℕ

abbrev pub initial : TimeCache
initial = record { micro_sec_pos = 0; time_buf = []; last_update_sec = 0 }

-- `sizeof(kTimeBuf)`
abbrev pub time_buf_size : ℕ
time_buf_size = 64

-- The text of the second, printed anew when the second is another one.
unfoldable pub refresh : (ℕ → Tm) → TimeCache → Timestamp → TimeCache
refresh localtime c now = if sec_since_epoch now == c.last_update_sec then c else record {
  micro_sec_pos = (to_format_str_in localtime time_buf_size false now).1;
  time_buf = (to_format_str_in localtime time_buf_size false now).0;
  last_update_sec = sec_since_epoch now;
}

-- What `sprintf(…, ".%06d", …)` prints.
abbrev pub fraction : Timestamp → List ℕ
fraction now = b'.' ∷ zeros 6 (micro_sec now)

-- `kTimeBuf` at the time `now`; `sprintf` does not know where the array ends.
unfoldable pub stamp : (ℕ → Tm) → TimeCache → Timestamp → Outcome TimeCache
unfolding refresh
stamp localtime c now = do
  let c' : TimeCache = refresh localtime c now
  accessible (leb (c'.micro_sec_pos + length (fraction now) + 1) time_buf_size)
  ok (record c' { time_buf = take c'.micro_sec_pos c'.time_buf ++ fraction now })

-- `std::strrchr(file, '/')`, past the slash.
abbrev pub after_slash : List ℕ → Option (List ℕ)
after_slash [] = none
after_slash (c ∷ file) = elim (after_slash file) [
  | some name ↦ some name
  | none ↦ if c == b'/' then some file else none
]

abbrev pub filename : List ℕ → List ℕ
filename file = elim (after_slash file) [ some name ↦ name | none ↦ file ]

-- Where in the source an event was made, and by which process and thread.
pub record Site : Type 0 where
  pub file : List ℕ
  pub line : ℕ
  pub func : List ℕ
  pub pid : ℕ
  pub tid : ℕ

-- The operands that `tips_message` prints.
abbrev pub tips : List ℕ → Level → Site → List Piece
tips time level site =
    string (some time)
    ∷ char b' '
    ∷ integer (pos site.pid)
    ∷ char b' '
    ∷ integer (pos site.tid)
    ∷ char b' '
    ∷ string (some (level_to_string level))
    ∷ char b' '
    ∷ char b'['
    ∷ string (some (filename site.file))
    ∷ char b':'
    ∷ string (some site.func)
    ∷ char b':'
    ∷ integer (pos site.line)
    ∷ string (some (codes "]::"))
    ∷ char b' '
    ∷ []

-- `logger_` is an argument of what uses it.
pub record Event : Type 0 where
  pub level : Level
  pub stream : FixedOStream

abbrev pub stream_size : ℕ
stream_size = 1024

-- The constructor, on an array as it is found on the stack.
unfoldable pub create :
    (ℕ → Tm) → TimeCache → Timestamp → List ℕ → Level → Site → Outcome (Event × TimeCache)
unfolding stamp
create localtime c now items level site = do
  c' ← stamp localtime c now
  stream ← put_all stream_size (FixedOStream.create items) (tips c'.time_buf level site)
  ok (record { level = level; stream = stream }, c')

-- `stream() << …`, with the operands in order.
unfoldable pub write : Event → List Piece → Outcome Event
write e pieces = do stream ← put_all stream_size e.stream pieces; ok (record e { stream = stream })

-- The method `format`, with the text that `vsnprintf` makes.
unfoldable pub format : Event → Option (List ℕ) → Outcome Event
format e text = do
  stream ← FixedOStream.format stream_size e.stream text
  ok (record e { stream = stream })

-- The destructor: the line for the logger.
unfoldable pub destroy : Event → Outcome (List ℕ)
destroy e = do stream ← FixedOStream.put_char stream_size e.stream b'\n'; ok (str stream)

-- `LargeEvent` prints into a `std::stringstream`, which has no bound; `text` is what it holds.
pub record LargeEvent : Type 0 where
  pub level : Level
  pub text : List ℕ

-- The text of the operands of `tips_message`.
unfoldable pub large_tips : List ℕ → Level → Site → List ℕ
large_tips time level site =
    time
    ++ (b' '
        ∷ (decimal site.pid
            ++ (b' '
                ∷ (decimal site.tid
                    ++ (b' '
                        ∷ (level_to_string level
                            ++ (b' '
                                ∷ b'['
                                ∷ (filename site.file
                                    ++ (b':'
                                        ∷ (site.func
                                            ++ (b':'
                                                ∷ (decimal site.line ++ codes "]:: "))))))))))))

unfoldable pub large_create :
    (ℕ → Tm) → TimeCache → Timestamp → Level → Site → Outcome (LargeEvent × TimeCache)
unfolding large_tips
large_create localtime c now level site = do
  c' ← stamp localtime c now
  ok (record { level = level; text = large_tips c'.time_buf level site }, c')

-- `text` is what the operands of `<<` print.
abbrev pub large_write : LargeEvent → List ℕ → LargeEvent
large_write e text = record e { text = e.text ++ text }

-- `none` is a failure of `vasprintf`.
abbrev pub large_format : LargeEvent → Option (List ℕ) → LargeEvent
large_format e none = e
large_format e (some text) = large_write e text

abbrev pub large_destroy : LargeEvent → List ℕ
large_destroy e = e.text ++ b'\n' ∷ []

-- `CLIA_LOG(logger, level) << …`: the level of the logger, or none for a null logger; the line that it
-- is given; and the variables of the thread afterwards.
unfoldable pub log_line :
    (ℕ → Tm)
    → Option Level
    → Level
    → Site
    → TimeCache
    → Timestamp
    → List ℕ
    → List Piece
    → Outcome (Option (List ℕ) × TimeCache)
unfolding create write destroy
log_line localtime none level site c now items pieces = ok (none, c)
log_line localtime (some least) level site c now items pieces =
    if leb least level
    then (do
      (e, c') ← create localtime c now items level site
      e' ← write e pieces
      line ← destroy e'
      ok (some line, c'))
    else ok (none, c)

-- `CLIA_LARGE_LOG(logger, level) << …` where the level is high enough; `text` is what the operands print.
unfoldable pub large_line :
    (ℕ → Tm) → Level → Site → TimeCache → Timestamp → List ℕ → Outcome (List ℕ × TimeCache)
unfolding large_create
large_line localtime level site c now text = do
  (e, c') ← large_create localtime c now level site
  ok (large_destroy (large_write e text), c')
