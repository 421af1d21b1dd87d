-- ===== src/Log/FileAppender/Writing.antt =====
-- What the loop of `append_unlocked` hands to stdio.
use clia.Prelude.{
  ℕ, zero, suc, ◌+◌, ◌≤◌, ◌<◌, ◌≡◌, refl, sym, ap, ◌∙◌, Bool, true, false, Bool-cases, not, ◌&&◌,
  ◌⊎◌, inl, inr, List, [], ◌∷◌, ◌++◌, append-nil, length, length-append, take, drop, length-take,
  length-drop, take-append-drop, Option, none, some, ◌==◌, arith,
}
use clia.Log.FileAppender.{StdioCall, writes, write_loop}

-- The bytes of the calls.
abbrev pub text : List StdioCall → List ℕ
text [] = []
text (writes bytes ∷ calls) = bytes ++ text calls
text (_ ∷ calls) = text calls

abbrev pub OnlyWrites : List StdioCall → Type 0
OnlyWrites [] = Unit {0}
OnlyWrites (writes bytes ∷ calls) = OnlyWrites calls
OnlyWrites (_ ∷ calls) = ⊥

-- Each answer that is asked for takes no more bytes than remain, and it takes one or reports an error.
abbrev pub AreAnswers : List ℕ → List (ℕ × Bool) → Type 0
AreAnswers [] answers = Unit {0}
AreAnswers (c ∷ remain) [] = Unit {0}
AreAnswers (c ∷ remain) ((n, ferror) ∷ answers) =
    (n ≤ length (c ∷ remain))
    × ((0 < n) ⊎ (ferror ≡ true))
    × AreAnswers (drop n (c ∷ remain)) answers

abbrev pub AreClean : List (ℕ × Bool) → Type 0
AreClean [] = Unit {0}
AreClean ((n, ferror) ∷ answers) = (ferror ≡ false) × AreClean answers

-- The loop has ended, after a part of the bytes in order, and counted no more; without an error it is the
-- whole.
abbrev pub IsWritten : List ℕ → List (ℕ × Bool) → Option (List StdioCall × ℕ) → Type 0
IsWritten buf answers none = ⊥
IsWritten buf answers (some (calls, written)) =
    OnlyWrites calls
    × (text calls ≡ take (length (text calls)) buf)
    × (written ≤ length (text calls))
    × (AreClean answers → (text calls ≡ buf) × (written ≡ length buf))

take-split : (n k : ℕ) (xs : List ℕ) → take n xs ++ take k (drop n xs) ≡ take (n + k) xs
take-split zero k xs = let e : k ≡ 0 + k = omega arith in ap (λ m. take m xs) e
take-split (suc n) zero [] = let e : suc n ≡ suc n + 0 = omega arith in ap (λ m. take m []) e
take-split (suc n) (suc k) [] =
    let e : suc (n + suc k) ≡ suc n + suc k = omega arith in ap (λ m. take m []) e
take-split (suc n) k (x ∷ xs) =
    let e : suc (n + k) ≡ suc n + k = omega arith in
    ap (λ ys. x ∷ ys) (take-split n k xs) ∙ ap (λ m. take m (x ∷ xs)) e

length-take_inside : (n : ℕ) (xs : List ℕ) → n ≤ length xs → length (take n xs) ≡ n
length-take_inside n xs l = omega (arith, length-take n xs)

-- As long as every call of `fwrite_unlocked` takes a byte or reports an error, the loop ends within as
-- many calls as there are bytes; the calls hand over a first part of the bytes in order, no byte twice,
-- and at most these are counted; without an error all of them are.
pub write_loop-IsWritten :
    (answers : List (ℕ × Bool)) (buf : List ℕ)
    → AreAnswers buf answers
    → length buf ≤ length answers
    → IsWritten buf answers (write_loop buf answers)
unfolding write_loop
write_loop-IsWritten answers [] v l = (tt, refl, omega arith, λ _. (refl, refl))
write_loop-IsWritten [] (c ∷ remain) v l = absurd (omega (arith, l))
write_loop-IsWritten ((n, ferror) ∷ answers) (c ∷ remain) (inside, moves, v) l =
    elim (Bool-cases (not (n == length (c ∷ remain)) && ferror)) [
      | inl y ↦ rw y (tt, stopped, omega arith, λ clean. absurd (failed y clean.0))
      | inr z ↦ rw z (
          more (write_loop (drop n (c ∷ remain)) answers)
            (write_loop-IsWritten answers (drop n (c ∷ remain)) v (enough z moves)))
    ]
  where
    stopped : take n (c ∷ remain) ++ [] ≡ take (length (take n (c ∷ remain) ++ [])) (c ∷ remain)
    stopped =
        append-nil (take n (c ∷ remain))
        ∙ ap (λ k. take k (c ∷ remain))
            (sym (
              ap length (append-nil (take n (c ∷ remain)))
              ∙ length-take_inside n (c ∷ remain) inside))

    failed : (not (n == length (c ∷ remain)) && ferror) ≡ true → ferror ≡ false → ⊥
    failed y f = ground (arith)

    enough :
        (not (n == length (c ∷ remain)) && ferror) ≡ false
        → (0 < n) ⊎ (ferror ≡ true)
        → length (drop n (c ∷ remain)) ≤ length answers
    enough z m = ground (arith, length-drop n (c ∷ remain))

    more :
        (o : Option (List StdioCall × ℕ))
        → IsWritten (drop n (c ∷ remain)) answers o
        → IsWritten (c ∷ remain) ((n, ferror) ∷ answers) (elim o [
          | none ↦ none
          | some (calls, written) ↦ some (writes (take n (c ∷ remain)) ∷ calls, n + written)
        ])
    more none h = absurd h
    more (some (calls, written)) (only, part, few, whole) =
        let first = length-take_inside n (c ∷ remain) inside in
        let total : length (take n (c ∷ remain) ++ text calls) ≡ n + length (text calls) =
          length-append (take n (c ∷ remain)) (text calls)
          ∙ ap (λ k. k + length (text calls)) first in
        (
          only,
          ap (◌++◌ (take n (c ∷ remain))) part
              ∙ take-split n (length (text calls)) (c ∷ remain)
              ∙ ap (λ k. take k (c ∷ remain)) (sym total),
          omega (arith, total),
          λ clean. (
            ap (◌++◌ (take n (c ∷ remain))) (whole clean.1).0 ∙ take-append-drop n (c ∷ remain),
            omega (arith, (whole clean.1).1, length-drop n (c ∷ remain), inside),
          ),
        )
