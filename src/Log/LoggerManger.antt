-- ===== src/Log/LoggerManger.antt =====
-- clia/src/log/log.cc: `LoggerManger`, over the type of loggers; a null pointer is `none`.
pub mod Lookup
mod Tests
use clia.Prelude.{
  ℕ, Bool, true, false, ◌&&◌, List, [], ◌∷◌, Option, none, some, ◌==◌, if◌then◌else◌,
}

pub record LoggerManger (L : Type 0) : Type 0 where
  pub default : Option L
  pub loggers : List (List ℕ × Option L)

-- `==` on `std::string`
abbrev pub same_name : List ℕ → List ℕ → Bool
same_name [] [] = true
same_name [] (d ∷ ds) = false
same_name (c ∷ cs) [] = false
same_name (c ∷ cs) (d ∷ ds) = (c == d) && same_name cs ds

module _ {L : Type 0} where
  abbrev pub create : LoggerManger L
  create = record { default = none; loggers = [] }

  -- `loggers_.find(name)`
  abbrev pub find : List (List ℕ × Option L) → List ℕ → Option (Option L)
  find [] name = none
  find ((n, l) ∷ rest) name = if same_name n name then some l else find rest name

  abbrev pub or_default : Option (Option L) → Option L → Option L
  or_default none d = d
  or_default (some l) d = l

  unfoldable pub logger : LoggerManger L → List ℕ → Option L
  logger s name = or_default (find s.loggers name) s.default

  abbrev pub default_logger : LoggerManger L → Option L
  default_logger s = s.default

  unfoldable pub set_default : LoggerManger L → Option L → LoggerManger L
  set_default s l = elim s.default [ some old ↦ s | none ↦ record s { default = l } ]

  -- `loggers_[name] = …`
  abbrev pub assign : List (List ℕ × Option L) → List ℕ → Option L → List (List ℕ × Option L)
  assign [] name l = (name, l) ∷ []
  assign ((n, old) ∷ rest) name l =
      if same_name n name then (n, l) ∷ rest else (n, old) ∷ assign rest name l

  unfoldable pub register_logger : LoggerManger L → List ℕ → Option L → LoggerManger L
  register_logger s name l = record s { loggers = assign s.loggers name l }
