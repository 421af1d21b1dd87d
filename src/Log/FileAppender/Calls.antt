-- ===== src/Log/FileAppender/Calls.antt =====
-- clia/src/log/file_appender.cc: what a list of calls of stdio writes, from one `fopen` to the next.
use clia.Prelude.{
  ℕ, ◌≤◌, ◌≡◌, refl, sym, ap, ◌∙◌, subst, List, [], ◌∷◌, ◌++◌, append_assoc, append-nil, length,
  length-append, arith,
}
use clia.Log.FileAppender.{
  File, StdioCall, makes_dir, opens, sets_buffer, removes, writes, flushes, syncs, closes,
  close_file, null, opened, standard, all_removed,
}
use clia.Log.FileAppender.Writing.{text, OnlyWrites}
pub mod Files

-- What was written since `fopen` was called last, after calls behind `bytes`. This is the text of the
-- file only if the file is new: the mode is "a".
abbrev pub current : List ℕ → List StdioCall → List ℕ
current bytes [] = bytes
current bytes (opens name ∷ calls) = current [] calls
current bytes (writes more ∷ calls) = current (bytes ++ more) calls
current bytes (_ ∷ calls) = current bytes calls

-- From one `fopen` to the next no more than `k` bytes are written.
abbrev pub AllWithin : ℕ → List ℕ → List StdioCall → Type 0
AllWithin k bytes [] = Unit {0}
AllWithin k bytes (opens name ∷ calls) = AllWithin k [] calls
AllWithin k bytes (writes more ∷ calls) =
    (length (bytes ++ more) ≤ k) × AllWithin k (bytes ++ more) calls
AllWithin k bytes (_ ∷ calls) = AllWithin k bytes calls

-- Calls that neither open nor write.
abbrev pub IsQuiet : List StdioCall → Type 0
IsQuiet [] = Unit {0}
IsQuiet (opens name ∷ calls) = ⊥
IsQuiet (writes bytes ∷ calls) = ⊥
IsQuiet (_ ∷ calls) = IsQuiet calls

pub text-append : (xs ys : List StdioCall) → text (xs ++ ys) ≡ text xs ++ text ys
text-append [] ys = refl
text-append (writes bytes ∷ xs) ys =
    ap (◌++◌ bytes) (text-append xs ys) ∙ sym (append_assoc bytes (text xs) (text ys))
text-append (_ ∷ xs) ys = text-append xs ys

pub current-append :
    (xs ys : List StdioCall) (bytes : List ℕ)
    → current bytes (xs ++ ys) ≡ current (current bytes xs) ys
current-append [] ys bytes = refl
current-append (opens name ∷ xs) ys bytes = current-append xs ys []
current-append (writes more ∷ xs) ys bytes = current-append xs ys (bytes ++ more)
current-append (makes_dir _ ∷ xs) ys bytes = current-append xs ys bytes
current-append (sets_buffer _ ∷ xs) ys bytes = current-append xs ys bytes
current-append (removes _ ∷ xs) ys bytes = current-append xs ys bytes
current-append (flushes ∷ xs) ys bytes = current-append xs ys bytes
current-append (syncs ∷ xs) ys bytes = current-append xs ys bytes
current-append (closes ∷ xs) ys bytes = current-append xs ys bytes

pub AllWithin-append :
    (k : ℕ) (xs ys : List StdioCall) (bytes : List ℕ)
    → AllWithin k bytes xs
    → AllWithin k (current bytes xs) ys
    → AllWithin k bytes (xs ++ ys)
AllWithin-append k [] ys bytes v w = w
AllWithin-append k (writes more ∷ xs) ys bytes v w =
    (v.0, AllWithin-append k xs ys (bytes ++ more) v.1 w)
AllWithin-append k (opens name ∷ xs) ys bytes v w = AllWithin-append k xs ys [] v w
AllWithin-append k (makes_dir _ ∷ xs) ys bytes v w = AllWithin-append k xs ys bytes v w
AllWithin-append k (sets_buffer _ ∷ xs) ys bytes v w = AllWithin-append k xs ys bytes v w
AllWithin-append k (removes _ ∷ xs) ys bytes v w = AllWithin-append k xs ys bytes v w
AllWithin-append k (flushes ∷ xs) ys bytes v w = AllWithin-append k xs ys bytes v w
AllWithin-append k (syncs ∷ xs) ys bytes v w = AllWithin-append k xs ys bytes v w
AllWithin-append k (closes ∷ xs) ys bytes v w = AllWithin-append k xs ys bytes v w

-- Quiet calls change nothing of this.
pub quiet_lem :
    (k : ℕ) (calls : List StdioCall) (bytes : List ℕ)
    → IsQuiet calls
    → (text calls ≡ []) × (current bytes calls ≡ bytes) × AllWithin k bytes calls
quiet_lem k [] bytes q = (refl, refl, tt)
quiet_lem k (opens name ∷ calls) bytes q = absurd q
quiet_lem k (writes more ∷ calls) bytes q = absurd q
quiet_lem k (makes_dir _ ∷ calls) bytes q = quiet_lem k calls bytes q
quiet_lem k (sets_buffer _ ∷ calls) bytes q = quiet_lem k calls bytes q
quiet_lem k (removes _ ∷ calls) bytes q = quiet_lem k calls bytes q
quiet_lem k (flushes ∷ calls) bytes q = quiet_lem k calls bytes q
quiet_lem k (syncs ∷ calls) bytes q = quiet_lem k calls bytes q
quiet_lem k (closes ∷ calls) bytes q = quiet_lem k calls bytes q

pub close_file-IsQuiet : (file : File) → IsQuiet (close_file file)
unfolding close_file
close_file-IsQuiet null = tt
close_file-IsQuiet opened = tt
close_file-IsQuiet standard = tt

pub all_removed-IsQuiet : (names : List (List ℕ)) → IsQuiet (all_removed names)
all_removed-IsQuiet [] = tt
all_removed-IsQuiet (name ∷ names) = all_removed-IsQuiet names

-- Writes stand for their bytes.
pub writes_lem :
    (k : ℕ) (calls : List StdioCall) (bytes : List ℕ)
    → OnlyWrites calls
    → (current bytes calls ≡ bytes ++ text calls)
      × (length (bytes ++ text calls) ≤ k → AllWithin k bytes calls)
writes_lem k [] bytes v = (sym (append-nil bytes), λ _. tt)
writes_lem k (writes more ∷ calls) bytes v =
    let rest = writes_lem k calls (bytes ++ more) v in
    let same = append_assoc bytes more (text calls) in
    (
      rest.0 ∙ same,
      λ l. (
        omega (
          arith,
          l,
          length-append bytes more,
          length-append bytes (more ++ text calls),
          length-append more (text calls),
        ),
        rest.1 (subst (λ x. length x ≤ k) (sym same) l),
      ),
    )
writes_lem k (opens name ∷ calls) bytes v = absurd v
writes_lem k (makes_dir _ ∷ calls) bytes v = absurd v
writes_lem k (sets_buffer _ ∷ calls) bytes v = absurd v
writes_lem k (removes _ ∷ calls) bytes v = absurd v
writes_lem k (flushes ∷ calls) bytes v = absurd v
writes_lem k (syncs ∷ calls) bytes v = absurd v
writes_lem k (closes ∷ calls) bytes v = absurd v
