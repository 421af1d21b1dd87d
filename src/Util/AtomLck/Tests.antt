-- ===== src/Util/AtomLck/Tests.antt =====
-- The theorems on `AtomLck` where one thread waits for another.
use clia.Prelude.{ℕ, ◌≡◌, ◌≢◌, refl, List, [], ◌∷◌, arith}
use clia.Util.AtomLck.{spinning, inside, start, step, run}
use clia.Util.AtomLck.Exclusion.{mutual_exclusion, step-inside}

-- Thread 0 enters; thread 1 begins to spin, and spins once in vain.
abbrev contended : List ℕ
contended = 0 ∷ 0 ∷ 1 ∷ 1 ∷ []

contended-inside : (run start contended).phase 0 ≡ inside
unfolding run step
contended-inside = refl

contended-spinning : (run start contended).phase 1 ≡ spinning
unfolding run step
contended-spinning = refl

mutual_exclusion_example : ◌≡◌ {A = ℕ} 0 0
mutual_exclusion_example = mutual_exclusion contended 0 0 contended-inside contended-inside

-- Then thread 0 leaves.
abbrev released : List ℕ
released = 0 ∷ 0 ∷ 1 ∷ 1 ∷ 0 ∷ []

released-outside : (j : ℕ) → (run start released).phase j ≢ inside
unfolding run step
released-outside j h = ground (arith)

step-inside_example : (step (run start released) 1).phase 1 ≡ inside
unfolding run step
step-inside_example = step-inside released 1 released-outside refl
