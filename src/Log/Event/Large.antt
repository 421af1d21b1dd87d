-- ===== src/Log/Event/Large.antt =====
-- The lines of `Event` and of `LargeEvent`.
use clia.Prelude.{ℕ, ◌^◌, ◌<◌, ◌≡◌, List, [], ◌∷◌, ◌++◌, Option, some, Outcome, Returns}
use clia.Util.Timestamp.{Timestamp, Tm, decimal}
use clia.Util.StrFunc.{pos}
use clia.Container.FixedOStream.Printing.{Piece, byte, text, string, char, integer}
use clia.Log.Trait.{Level}
use clia.Log.Event.{TimeCache, Site, large_tips}

-- The operands of which a `std::stringstream` makes the same text, and that text. Of an `unsigned char`
-- it makes the character, an `Event` the digits.
abbrev pub IsPlain : Piece → Type 0
IsPlain (text t) = Unit {0}
IsPlain (string (some t)) = Unit {0}
IsPlain (char c) = Unit {0}
IsPlain (integer (pos n)) = n < 2 ^ 64
IsPlain _ = ⊥

abbrev pub AllPlain : List Piece → Type 0
AllPlain [] = Unit {0}
AllPlain (p ∷ ps) = IsPlain p × AllPlain ps

abbrev pub shown : Piece → List ℕ
shown (text t) = t
shown (string (some t)) = t
shown (char c) = c ∷ []
shown (byte c) = c ∷ []
shown (integer (pos n)) = decimal n
shown _ = []

abbrev pub shown_all : List Piece → List ℕ
shown_all [] = []
shown_all (p ∷ ps) = shown p ++ shown_all ps

-- The whole text of a line.
abbrev pub line_text : List ℕ → Level → Site → List ℕ → List ℕ
line_text time level site body = (large_tips time level site ++ body) ++ b'\n' ∷ []

module _ (localtime : ℕ → Tm) where
  -- Both make a line, and it is the same.
  abbrev pub SameLine :
      Outcome (Option (List ℕ) × TimeCache) → Outcome (List ℕ × TimeCache) → Type 0
  SameLine m k = Returns m (λ a. Returns k (λ b. a.0 ≡ some b.0))
