-- ===== src/Container/FixedBuffer/Tests.antt =====
-- The theorems on `FixedBuffer` at an array of four elements.
use clia.Prelude.{ℕ, ◌≡◌, refl, true, [], ◌∷◌, ok, arith, overwrite}
use clia.Container.FixedBuffer.{FixedBuffer, append, append_copy, add}
use clia.Container.FixedBuffer.Contents.{Holds}

-- One element of four is held.
abbrev one_of_four : FixedBuffer ℕ
one_of_four = record { items = 7 ∷ 0 ∷ 0 ∷ 0 ∷ []; cur = 1 }

one_of_four-Holds : Holds 4 (7 ∷ []) one_of_four
one_of_four-Holds = record { valid = omega arith; elements = refl }

append_two :
    append 4 true one_of_four (8 ∷ 9 ∷ []) ≡ ok (record { items = 7 ∷ 8 ∷ 9 ∷ 0 ∷ []; cur = 3 })
unfolding append append_copy add overwrite
append_two = refl
