-- ===== src/Log/Pipeline.antt =====
-- clia/clia/log/trait.h: the interface `Appender` between a logger and a `FileAppender`, and an
-- `AsyncLogger` of clia/src/log/async_logger.cc that has a `FileAppender` of clia/src/log/file_appender.cc
-- for its appender.
pub mod Written
mod Tests
use clia.Prelude.{ℕ, List, [], ◌∷◌, Option, none, some}
use clia.Util.Timestamp.{Tm}
use clia.Log.AsyncLogger.{Call, appends, flushes}
use clia.Log.FileAppender.{FileAppender, append, flush}
use clia.Log.FileAppender.Rolling.{Append}

-- A call of the interface, for an append with what clock, directory and stdio answer in it.
pub data Request : Type 0 where
  asks_append : Append → Request
  asks_flush : Request

-- The calls without the answers.
abbrev pub calls_of : List Request → List Call
calls_of [] = []
calls_of (asks_append x ∷ rs) = appends x.buf ∷ calls_of rs
calls_of (asks_flush ∷ rs) = flushes ∷ calls_of rs

module _ (localtime : ℕ → Tm) (pid : ℕ) where
  -- `appender_->append(…)` and `appender_->flush()`; none while a loop of an append goes on after its
  -- answers.
  unfoldable pub serve : FileAppender → Request → Option FileAppender
  serve s (asks_append x) = append localtime pid s (some x.buf) x.check_time x.roll x.answers
  serve s asks_flush = some (flush s)

  unfoldable pub serve_all : FileAppender → List Request → Option FileAppender
  serve_all s [] = some s
  serve_all s (r ∷ rs) = elim (serve s r) [ none ↦ none | some s' ↦ serve_all s' rs ]
