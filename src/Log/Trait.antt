-- ===== src/Log/Trait.antt =====
-- clia/src/log/trait.cc and clia/clia/log/trait.h: the levels, as their numbers.
use clia.Prelude.{ℕ, List, codes, ◌==◌, if◌then◌else◌}

abbrev pub Level : Type 0
Level = ℕ

abbrev pub trace : Level
trace = 0

abbrev pub debug : Level
debug = 1

abbrev pub info : Level
info = 2

abbrev pub warn : Level
warn = 3

abbrev pub error : Level
error = 4

abbrev pub fatal : Level
fatal = 5

unfoldable pub level_to_string : Level → List ℕ
level_to_string level =
    if level == trace
    then codes "TRACE"
    else if level == debug
    then codes "DEBUG"
    else if level == info
    then codes "INFO"
    else if level == warn
    then codes "WARN"
    else if level == error
    then codes "ERROR"
    else if level == fatal
    then codes "FATAL"
    else codes "UNKNOWN"
