-- ===== src/Util/Process/Errors.antt =====
-- What `strerror` answers after any calls of it.
use clia.Prelude.{
  ℕ, zero, ◌≡◌, refl, sym, ap, ◌∙◌, Bool, Bool-cases, true, false, inl, inr, ◌&&◌, List, [], ◌∷◌,
  Option, none, some, if◌then◌else◌, arith,
}
use clia.Util.StrFunc.{Integer, pos, negsuc}
use clia.Util.Process.{Process, create, same, strerror}

-- The calls of one thread, one after the other.
unfoldable pub strerror_all : (Integer → Option (List ℕ)) → Process → List Integer → Process
strerror_all strerror_r s [] = s
strerror_all strerror_r s (ec ∷ ecs) = strerror_all strerror_r (strerror strerror_r s ec) ecs

abbrev pub all_zero : List Integer → Bool
all_zero [] = true
all_zero (ec ∷ ecs) = same ec (pos zero) && all_zero ecs

same_eq : (a b : Integer) → same a b ≡ true → a ≡ b
same_eq (pos a) (pos b) h = ap pos (ground arith)
same_eq (pos a) (negsuc b) h = cc
same_eq (negsuc a) (pos b) h = cc
same_eq (negsuc a) (negsuc b) h = ap negsuc (ground arith)

-- The last of the codes, or `z`.
abbrev pub last : Integer → List Integer → Integer
last z [] = z
last z (ec ∷ ecs) = last ec ecs

-- A call of the POSIX `::strerror_r` writes the text of the code.
abbrev pub posix : (Integer → List ℕ) → Integer → Option (List ℕ)
posix text ec = some (text ec)

abbrev pub gnu : Integer → Option (List ℕ)
gnu ec = none

module _ (text : Integer → List ℕ) where
  -- Once a code was described, the array holds the text of the last one.
  described :
      (ecs : List Integer) (s : Process)
      → s.errno_str_buf ≡ text s.last_errno
      → (strerror_all (posix text) s ecs).errno_str_buf ≡ text (last s.last_errno ecs)
  unfolding strerror_all strerror
  described [] s h = h
  described (ec ∷ ecs) s h = elim (Bool-cases (same ec s.last_errno)) [
    | inl y ↦
        rw (strerror_all, strerror, y)
          (described ecs s h ∙ ap (λ z. text (last z ecs)) (sym (same_eq ec s.last_errno y)))
    | inr n ↦
        rw (strerror_all, strerror, n)
          (described ecs (record s { last_errno = ec; errno_str_buf = text ec }) refl)
  ]

  fresh_posix :
      (ecs : List Integer) (s : Process)
      → s.errno_str_buf ≡ []
      → s.last_errno ≡ pos zero
      → (strerror_all (posix text) s ecs).errno_str_buf
        ≡ (if all_zero ecs then [] else text (last (pos zero) ecs))
  unfolding strerror_all strerror
  fresh_posix [] s h e = h
  fresh_posix (ec ∷ ecs) s h e = elim (Bool-cases (same ec (pos zero))) [
    | inl y ↦
        let at : same ec s.last_errno ≡ true = ap (same ec) e ∙ y in
        rw (strerror_all, strerror, at, y)
          (fresh_posix ecs s h e
            ∙ ap (λ z. if all_zero ecs then [] else text (last z ecs))
                (sym (same_eq ec (pos zero) y)))
    | inr n ↦
        let at : same ec s.last_errno ≡ false = ap (same ec) e ∙ n in
        rw (strerror_all, strerror, at, n)
          (described ecs (record s { last_errno = ec; errno_str_buf = text ec }) refl)
  ]

gnu_text :
    (ecs : List Integer) (s : Process) → (strerror_all gnu s ecs).errno_str_buf ≡ s.errno_str_buf
unfolding strerror_all strerror
gnu_text [] s = refl
gnu_text (ec ∷ ecs) s = elim (Bool-cases (same ec s.last_errno)) [
  | inl y ↦ rw (strerror_all, strerror, y) (gnu_text ecs s)
  | inr n ↦ rw (strerror_all, strerror, n) (gnu_text ecs (record s { last_errno = ec }))
]

-- After any calls of `strerror` by a thread, the last of them answers the text of its code, if
-- `::strerror_r` writes that text into the array, unless every code was 0, for which the answer is
-- empty; and where `::strerror_r` leaves the array alone, every answer is empty.
pub strerror_all-answers :
    (text : Integer → List ℕ) (tid pid : ℕ) (ecs : List Integer)
    → ((strerror_all (posix text) (create tid pid) ecs).errno_str_buf
        ≡ (if all_zero ecs then [] else text (last (pos zero) ecs)))
      × ((strerror_all gnu (create tid pid) ecs).errno_str_buf ≡ [])
strerror_all-answers text tid pid ecs =
    (fresh_posix text ecs (create tid pid) refl refl, gnu_text ecs (create tid pid))
