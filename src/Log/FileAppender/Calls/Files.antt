-- ===== src/Log/FileAppender/Calls/Files.antt =====
-- clia/src/log/file_appender.cc: what one file gets, which the mode "a" of `fopen` opens at its end if it was there before.
use clia.Prelude.{
  ℕ, suc, ◌+◌, ◌*◌, ◌≤◌, ◌≡◌, Bool, true, false, Bool-cases, inl, inr, List, [], ◌∷◌, ◌++◌, length,
  length-append, if◌then◌else◌, arith,
}
use clia.Log.LoggerManger.{same_name}
use clia.Log.FileAppender.{
  StdioCall, makes_dir, opens, sets_buffer, removes, writes, flushes, syncs, closes,
}
use clia.Log.FileAppender.Calls.{AllWithin}

module _ (name : List ℕ) where
  -- What is written to the file of the name, which is open or not.
  abbrev pub bytes_to : Bool → List StdioCall → List ℕ
  bytes_to b [] = []
  bytes_to b (opens other ∷ calls) = bytes_to (same_name name other) calls
  bytes_to true (writes more ∷ calls) = more ++ bytes_to true calls
  bytes_to false (writes more ∷ calls) = bytes_to false calls
  bytes_to b (_ ∷ calls) = bytes_to b calls

  -- How often it is opened.
  abbrev pub times_opened : List StdioCall → ℕ
  times_opened [] = 0
  times_opened (opens other ∷ calls) =
      let rest = times_opened calls in if same_name name other then suc rest else rest
  times_opened (_ ∷ calls) = times_opened calls

  abbrev counted : Bool → ℕ → ℕ
  counted true n = n
  counted false n = 0

  counted_mono : (b : Bool) (m n : ℕ) → m ≤ n → counted b m ≤ counted b n
  counted_mono true m n l = l
  counted_mono false m n l = omega arith

  suc_times : (n k : ℕ) → suc n * k ≡ k + n * k
  suc_times n k = omega arith

  bytes_to-length :
      (k : ℕ) (calls : List StdioCall) (b : Bool) (bytes : List ℕ)
      → AllWithin k bytes calls
      → length bytes ≤ k
      → counted b (length bytes) + length (bytes_to b calls) ≤ counted b k + times_opened calls * k
  bytes_to-length k [] true bytes v l = omega arith
  bytes_to-length k [] false bytes v l = omega arith
  bytes_to-length k (opens other ∷ calls) b bytes v l = elim (Bool-cases (same_name name other)) [
    | inl y ↦ rw y (
        omega (
          arith,
          bytes_to-length k calls true [] v (omega arith),
          counted_mono b (length bytes) k l,
          suc_times (times_opened calls) k,
        ))
    | inr n ↦ rw n (
        omega (
          arith,
          bytes_to-length k calls false [] v (omega arith),
          counted_mono b (length bytes) k l,
        ))
  ]
  bytes_to-length k (writes more ∷ calls) true bytes v l = omega (
    arith,
    bytes_to-length k calls true (bytes ++ more) v.1 v.0,
    length-append bytes more,
    length-append more (bytes_to true calls),
  )
  bytes_to-length k (writes more ∷ calls) false bytes v l =
      bytes_to-length k calls false (bytes ++ more) v.1 v.0
  bytes_to-length k (makes_dir _ ∷ calls) b bytes v l = bytes_to-length k calls b bytes v l
  bytes_to-length k (sets_buffer _ ∷ calls) b bytes v l = bytes_to-length k calls b bytes v l
  bytes_to-length k (removes _ ∷ calls) b bytes v l = bytes_to-length k calls b bytes v l
  bytes_to-length k (flushes ∷ calls) b bytes v l = bytes_to-length k calls b bytes v l
  bytes_to-length k (syncs ∷ calls) b bytes v l = bytes_to-length k calls b bytes v l
  bytes_to-length k (closes ∷ calls) b bytes v l = bytes_to-length k calls b bytes v l

  -- A file that is opened n times gets at most n times as many bytes.
  pub bytes_to_within :
      (k : ℕ) (calls : List StdioCall)
      → AllWithin k [] calls
      → length (bytes_to false calls) ≤ times_opened calls * k
  bytes_to_within k calls v = omega (arith, bytes_to-length k calls false [] v (omega arith))
