-- ===== src/Log/SyncLogger.antt =====
-- clia/src/log/sync_logger.cc: `SyncLogger`. What the appender is asked to do is a list of calls.
use clia.Prelude.{
  ℕ, ◌||◌, List, [], ◌∷◌, ◌++◌, length, Option, none, some, ltb, ◌==◌, if◌then◌else◌,
}
use clia.Log.Trait.{Level}
use clia.Log.AsyncLogger.{Call, appends, flushes}

pub record SyncLogger : Type 0 where
  pub level : Level
  pub calls : List Call

abbrev pub create : Level → SyncLogger
create level = record { level = level; calls = [] }

-- A null message is `none`.
unfoldable pub log : SyncLogger → Level → Option (List ℕ) → SyncLogger
log s level none = s
log s level (some message) =
    if ltb level s.level || length message == 0
    then s
    else record s { calls = s.calls ++ appends message ∷ flushes ∷ [] }
