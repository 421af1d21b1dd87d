-- ===== src/Util/Process/Tests.antt =====
-- The theorem on `strerror` at the codes 4, 4 and 11.
use clia.Prelude.{ℕ, ◌≡◌, List, [], ◌∷◌}
use clia.Util.StrFunc.{Integer, pos, negsuc}
use clia.Util.Process.{create}
use clia.Util.Process.Errors.{strerror_all, posix, gnu, strerror_all-answers}

abbrev codes_asked : List Integer
codes_asked = pos 4 ∷ pos 4 ∷ pos 11 ∷ []

-- A text that tells the codes apart.
abbrev text : Integer → List ℕ
text (pos n) = n ∷ []
text (negsuc n) = []

strerror_all-answers_example :
    ((strerror_all (posix text) (create 7 6) codes_asked).errno_str_buf ≡ 11 ∷ [])
    × ((strerror_all gnu (create 7 6) codes_asked).errno_str_buf ≡ [])
strerror_all-answers_example = strerror_all-answers text 7 6 codes_asked
