-- ===== src/Log/StdoutAppender.antt =====
-- clia/src/log/stdout_appender.cc: `StdoutAppender`. What stdio is asked to do with `stdout` is a list of
-- calls, in which `appends` is `std::fwrite` and `flushes` is `std::fflush`.
use clia.Prelude.{ℕ, List, [], ◌∷◌, ◌++◌}
use clia.Log.AsyncLogger.{Call, appends, flushes}

pub record StdoutAppender : Type 0 where
  pub calls : List Call

abbrev pub create : StdoutAppender
create = record { calls = [] }

unfoldable pub append : StdoutAppender → List ℕ → StdoutAppender
append s buf = record s { calls = s.calls ++ appends buf ∷ [] }

unfoldable pub flush : StdoutAppender → StdoutAppender
flush s = record s { calls = s.calls ++ flushes ∷ [] }
