-- ===== src/Util/AtomLck.antt =====
-- clia/src/util/atom_lck.cc and clia/clia/base/lock_guard.h: `AtomLck`, a spin lock, which threads take by
-- a `LockGuard` alone. Operations on the flag are atomic and in one order.
pub mod Exclusion
mod Tests
use clia.Prelude.{ℕ, Bool, true, false, List, [], ◌∷◌, ◌==◌, if◌then◌else◌}

pub record AtomLck : Type 0 where
  pub lck : Bool

abbrev pub create : AtomLck
create = record { lck = false }

-- One turn of the loop in `lock`: what the flag was, and the lock with the flag set.
abbrev pub test_and_set : AtomLck → Bool × AtomLck
test_and_set s = (s.lck, record { lck = true })

abbrev pub unlock : AtomLck → AtomLck
unlock s = record { lck = false }

-- Where a thread stands: without a `LockGuard`, in the loop of its constructor, or with one.
pub data Phase : Type 0 where
  outside spinning inside : Phase

pub record Threads : Type 0 where
  pub lock : AtomLck
  pub phase : ℕ → Phase

abbrev pub start : Threads
start = record { lock = create; phase = λ i. outside }

abbrev pub set_phase : (ℕ → Phase) → ℕ → Phase → ℕ → Phase
set_phase phase i p j = if i == j then p else phase j

-- A turn of the loop, by what the flag was.
abbrev pub turn : Threads → ℕ → Bool × AtomLck → Threads
turn s i (true, lock) = record s { lock = lock }
turn s i (false, lock) = record { lock = lock; phase = set_phase s.phase i inside }

-- The next step of thread `i`, by where it stands.
abbrev pub step_from : Threads → ℕ → Phase → Threads
step_from s i outside = record s { phase = set_phase s.phase i spinning }
step_from s i spinning = turn s i (test_and_set s.lock)
step_from s i inside = record { lock = unlock s.lock; phase = set_phase s.phase i outside }

unfoldable pub step : Threads → ℕ → Threads
step s i = step_from s i (s.phase i)

-- The threads step in the order of a schedule.
unfoldable pub run : Threads → List ℕ → Threads
run s [] = s
run s (i ∷ schedule) = run (step s i) schedule
