-- ===== src/Util/StrFunc.antt =====
-- clia/clia/util/str_func.h: `convert`, which prints an integer of at most 64 bits into an array.
pub mod Printed
mod Tests
use clia.Prelude.{
  ℕ, zero, suc, ◌+◌, ◌/◌, ◌%◌, Bool, true, false, List, [], ◌∷◌, ◌++◌, Option, none, some, ltb,
  ◌==◌, if◌then◌else◌, Outcome, ok, err, Fault, ◌>>=◌, ◌>>◌, accessible,
}

-- A value of a signed or unsigned type: `negsuc n` is -(n + 1).
pub data Integer : Type 0 where
  pos negsuc : ℕ → Integer

-- `kDigits[lsd]`
abbrev pub digit : ℕ → ℕ
digit lsd = 48 + lsd

-- The loop, with fuel for its rounds: the digits from the last to the first.
unfoldable pub digits : ℕ → ℕ → List ℕ
digits zero i = []
digits (suc fuel) i =
    let rest = digits fuel (i / 10) in digit (i % 10) ∷ (if i / 10 == 0 then [] else rest)

-- The loop at `-i`: in C++ the remainder is `-(i % 10)`, at which `kDigits` is read.
unfoldable pub digits_below : ℕ → ℕ → Outcome (List ℕ)
digits_below zero i = ok []
digits_below (suc fuel) i =
    let rest = digits_below fuel (i / 10) in
    accessible (i % 10 == 0) >> ((if i / 10 == 0 then ok [] else rest) >>= λ ds. ok (digit 0 ∷ ds))

-- `std::reverse`
abbrev pub reverse : List ℕ → List ℕ
reverse [] = []
reverse (c ∷ cs) = reverse cs ++ c ∷ []

-- Twenty rounds are enough for 64 bits.
abbrev pub rounds : ℕ
rounds = 20

unfoldable pub print : Integer → Outcome (List ℕ)
unfolding digits digits_below
print (pos n) = ok (reverse (digits rounds n))
print (negsuc n) = digits_below rounds (n + 1) >>= λ ds. ok (reverse (ds ++ 45 ∷ []))

-- The text that is put into `outbuf`, of which the length is returned; `none` where it is too small.
unfoldable pub convert : ℕ → Integer → Outcome (Option (List ℕ))
unfolding print
convert size value = if ltb size 32 then ok none else (print value >>= λ text. ok (some text))
