-- ===== src/Util/StrFunc/Tests.antt =====
-- The theorems on `convert` at 1805, and runs.
use clia.Prelude.{◌≡◌, refl, [], ◌∷◌, some, none, ok, Returns, arith}
use clia.Util.StrFunc.{pos, convert, print, digits}
use clia.Util.StrFunc.Printed.{Prints, convert-Prints}

convert-Prints_example : Returns (convert 32 (pos 1805)) (Prints 1805)
convert-Prints_example = convert-Prints 32 1805 (omega arith) (omega arith)

convert-pos : convert 40 (pos 1805) ≡ ok (some (49 ∷ 56 ∷ 48 ∷ 53 ∷ []))
unfolding convert print digits
convert-pos = refl

convert-pos_small : convert 31 (pos 1805) ≡ ok none
unfolding convert
convert-pos_small = refl
