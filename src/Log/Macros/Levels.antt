-- ===== src/Log/Macros/Levels.antt =====
-- clia/clia/log.h: the macros that log by the default logger, each at a level of its own.
use clia.Prelude.{ℕ, List, Option, none, some, Outcome}
use clia.Util.Timestamp.{Timestamp, Tm}
use clia.Container.FixedOStream.Printing.{Piece}
use clia.Log.Trait.{Level, trace, debug, info, warn, error, fatal}
use clia.Log.LoggerManger.{LoggerManger, default_logger}
use clia.Log.Event.{TimeCache, Site, log_line}
use clia.Log.Macros.{fmt_log, large_log, large_fmt_log}

-- The logger of `LoggerManger::instance()->default_logger()`, by its level.
abbrev pub default_level : {L : Type 0} → (L → Level) → LoggerManger L → Option Level
default_level level_of s = elim (default_logger s) [ none ↦ none | some l ↦ some (level_of l) ]

abbrev pub Line : Type 0
Line = Outcome (Option (List ℕ) × TimeCache)

abbrev pub Macro : Type 0
Macro = Site → TimeCache → Timestamp → List ℕ → List Piece → Line

abbrev pub FmtMacro : Type 0
FmtMacro = Site → TimeCache → Timestamp → List ℕ → Option (List ℕ) → Line

abbrev pub LargeMacro : Type 0
LargeMacro = Site → TimeCache → Timestamp → List ℕ → Line

abbrev pub LargeFmtMacro : Type 0
LargeFmtMacro = Site → TimeCache → Timestamp → Option (List ℕ) → Line

module _ {L : Type 0} (level_of : L → Level) (s : LoggerManger L) (localtime : ℕ → Tm) where
  abbrev pub log_level : Level → Macro
  log_level = log_line localtime (default_level level_of s)

  abbrev pub log_trace : Macro
  log_trace = log_level trace

  abbrev pub log_debug : Macro
  log_debug = log_level debug

  abbrev pub log_info : Macro
  log_info = log_level info

  abbrev pub log_warn : Macro
  log_warn = log_level warn

  abbrev pub log_error : Macro
  log_error = log_level error

  abbrev pub log_fatal : Macro
  log_fatal = log_level fatal

  abbrev pub large_log_level : Level → LargeMacro
  large_log_level = large_log localtime (default_level level_of s)

  abbrev pub large_log_trace : LargeMacro
  large_log_trace = large_log_level trace

  abbrev pub large_log_debug : LargeMacro
  large_log_debug = large_log_level debug

  abbrev pub large_log_info : LargeMacro
  large_log_info = large_log_level info

  abbrev pub large_log_warn : LargeMacro
  large_log_warn = large_log_level warn

  abbrev pub large_log_error : LargeMacro
  large_log_error = large_log_level error

  abbrev pub large_log_fatal : LargeMacro
  large_log_fatal = large_log_level fatal

  abbrev pub fmt_log_level : Level → FmtMacro
  fmt_log_level = fmt_log localtime (default_level level_of s)

  abbrev pub fmt_log_trace : FmtMacro
  fmt_log_trace = fmt_log_level trace

  abbrev pub fmt_log_debug : FmtMacro
  fmt_log_debug = fmt_log_level debug

  abbrev pub fmt_log_info : FmtMacro
  fmt_log_info = fmt_log_level info

  abbrev pub fmt_log_warn : FmtMacro
  fmt_log_warn = fmt_log_level warn

  abbrev pub fmt_log_error : FmtMacro
  fmt_log_error = fmt_log_level error

  abbrev pub fmt_log_fatal : FmtMacro
  fmt_log_fatal = fmt_log_level fatal

  abbrev pub large_fmt_log_level : Level → LargeFmtMacro
  large_fmt_log_level = large_fmt_log localtime (default_level level_of s)

  abbrev pub large_fmt_log_trace : LargeFmtMacro
  large_fmt_log_trace = large_fmt_log_level trace

  abbrev pub large_fmt_log_debug : LargeFmtMacro
  large_fmt_log_debug = large_fmt_log_level debug

  abbrev pub large_fmt_log_info : LargeFmtMacro
  large_fmt_log_info = large_fmt_log_level info

  abbrev pub large_fmt_log_warn : LargeFmtMacro
  large_fmt_log_warn = large_fmt_log_level warn

  abbrev pub large_fmt_log_error : LargeFmtMacro
  large_fmt_log_error = large_fmt_log_level error

  abbrev pub large_fmt_log_fatal : LargeFmtMacro
  large_fmt_log_fatal = large_fmt_log_level fatal
