-- ===== src/Log/LoggerManger/Tests.antt =====
-- The theorems on `LoggerManger` at two names, with numbers for loggers.
use clia.Prelude.{ℕ, ◌≡◌, refl, List, [], ◌∷◌, none, some, codes}
use clia.Log.LoggerManger.{create, find, or_default, logger, set_default, register_logger}
use clia.Log.LoggerManger.Lookup.{
  Change, defaults, registers, change_all, change, registered, chosen, logger-change_all,
}

abbrev changes : List (Change ℕ)
changes =
    registers (codes "net") (some 7)
    ∷ defaults (some 1)
    ∷ defaults (some 2)
    ∷ registers (codes "net") (some 8)
    ∷ []

logger-change_all_example :
    logger (change_all create changes) (codes "net")
    ≡ or_default
        (registered (codes "net") (find {L = ℕ} [] (codes "net")) changes)
        (chosen none changes)
logger-change_all_example = logger-change_all changes create (codes "net")

logger-net : logger (change_all create changes) (codes "net") ≡ some 8
unfolding logger change_all change set_default register_logger
logger-net = refl

logger-other : logger (change_all create changes) (codes "disk") ≡ some 1
unfolding logger change_all change set_default register_logger
logger-other = refl
