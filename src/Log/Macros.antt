-- ===== src/Log/Macros.antt =====
-- clia/clia/log.h: the macros that log. What a macro makes is the line for its logger, if any, with the
-- variables of the thread afterwards; what the operands print, or the format, is an argument.
pub mod Formatted
pub mod Levels
use clia.Prelude.{ℕ, List, Option, none, some, leb, if◌then◌else◌, Outcome, ok, err, ◌>>=◌}
use clia.Util.Timestamp.{Timestamp, Tm}
use clia.Container.FixedOStream.Printing.{Piece}
use clia.Log.Trait.{Level}
use clia.Log.Event.{
  TimeCache, Site, create, format, destroy, large_create, large_format, large_destroy, large_line,
}

-- `if (LOGGER && LOGGER->level() <= LEVEL)`
abbrev pub if_enabled :
    Option Level
    → Level
    → TimeCache
    → Outcome (Option (List ℕ) × TimeCache)
    → Outcome (Option (List ℕ) × TimeCache)
if_enabled none level c line = ok (none, c)
if_enabled (some least) level c line = if leb least level then line else ok (none, c)

module _ (localtime : ℕ → Tm) where
  -- `CLIA_FMT_LOG`
  unfoldable pub fmt_log :
      Option Level
      → Level
      → Site
      → TimeCache
      → Timestamp
      → List ℕ
      → Option (List ℕ)
      → Outcome (Option (List ℕ) × TimeCache)
  fmt_log logger level site c now items text = if_enabled logger level c do
    (e, c') ← create localtime c now items level site
    e' ← format e text
    line ← destroy e'
    ok (some line, c')

  -- `CLIA_LARGE_LOG`
  unfoldable pub large_log :
      Option Level
      → Level
      → Site
      → TimeCache
      → Timestamp
      → List ℕ
      → Outcome (Option (List ℕ) × TimeCache)
  large_log logger level site c now text =
      if_enabled logger level c
        do (line, c') ← large_line localtime level site c now text; ok (some line, c')

  -- `CLIA_LARGE_FMT_LOG`
  unfoldable pub large_fmt_log :
      Option Level
      → Level
      → Site
      → TimeCache
      → Timestamp
      → Option (List ℕ)
      → Outcome (Option (List ℕ) × TimeCache)
  large_fmt_log logger level site c now text = if_enabled logger level c do
    (e, c') ← large_create localtime c now level site
    ok (some (large_destroy (large_format e text)), c')
