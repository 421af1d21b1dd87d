-- ===== src/Log/FileAppender/OldFiles.antt =====
-- Which log files `del_old_files` removes.
use clia.Prelude.{
  ℕ, ◌+◌, ◌-◌, ◌*◌, ◌≤◌, ◌<◌, ◌≡◌, refl, sym, ap, Bool, Bool-cases, ◌&&◌, inl, inr, List, [], ◌∷◌,
  ◌++◌, length, some, ltb, ◌==◌, if◌then◌else◌, arith,
}
use clia.Util.Timestamp.{Tm}
use clia.Log.FileAppender.{
  FileAppender, Entry, precedes, get_date_prefix, old_files, all_removed, del_old_files,
}

-- The number that digits stand for, behind `acc`.
abbrev pub value : ℕ → List ℕ → ℕ
value acc [] = acc
value acc (c ∷ cs) = value (acc * 10 + (c - b'0')) cs

abbrev pub AreDigits : List ℕ → Type 0
AreDigits [] = Unit {0}
AreDigits (c ∷ cs) = (b'0' ≤ c) × (c ≤ b'9') × AreDigits cs

value_lt :
    (a b : List ℕ) (k l : ℕ)
    → length a ≡ length b
    → AreDigits a
    → AreDigits b
    → k < l
    → value k a < value l b
value_lt [] [] k l e v w h = h
value_lt (c ∷ a) (d ∷ b) k l e (_, c_ok, v) (_, _, w) h =
    value_lt a b (k * 10 + (c - b'0')) (l * 10 + (d - b'0')) (omega arith) v w (omega arith)
value_lt [] (d ∷ b) k l e v w h = absurd (omega (arith, e))
value_lt (c ∷ a) [] k l e v w h = absurd (omega (arith, e))

-- On numbers of as many digits, `strncmp` compares the numbers.
precedes-value :
    (a b rest : List ℕ) (k : ℕ)
    → length a ≡ length b
    → AreDigits a
    → AreDigits b
    → precedes (length b) (a ++ rest) b ≡ ltb (value k a) (value k b)
unfolding precedes
precedes-value [] [] rest k e v w = ground arith
precedes-value (c ∷ a) (d ∷ b) rest k e (c_low, c_ok, v) (d_low, d_ok, w) =
    let lens : length a ≡ length b = omega arith in
    let x = k * 10 + (c - b'0') in
    let y = k * 10 + (d - b'0') in
    elim (Bool-cases (ltb c d)) [
      | inl t ↦
          let less : value x a < value y b = value_lt a b x y lens v w (ground arith) in
          rw t (ground arith)
      | inr f ↦ rw f (elim (Bool-cases (c == d)) [
        | inl s ↦
            let same : d ≡ c = ground arith in rw (s, same) (precedes-value a b rest x lens v w)
        | inr n ↦
            let more : value y b < value x a = value_lt b a y x (sym lens) w v (ground arith) in
            rw n (ground arith)
      ])
    ]
precedes-value [] (d ∷ b) rest k e v w = absurd (omega (arith, e))
precedes-value (c ∷ a) [] rest k e v w = absurd (omega (arith, e))

-- A file with the name of a log file: when that was made, and what stands behind the date.
pub record LogFile : Type 0 where
  pub made : ℕ
  pub regular : Bool
  pub rest : List ℕ

module _ (localtime : ℕ → Tm) where
  -- The date at `t` has the 14 digits of a year of four.
  abbrev pub IsDated : ℕ → Type 0
  IsDated t = (length (get_date_prefix localtime t) ≡ 14) × AreDigits (get_date_prefix localtime t)

  abbrev pub entry : LogFile → Entry
  entry f = record { regular = f.regular; d_name = get_date_prefix localtime f.made ++ f.rest }

  abbrev pub all_entries : List LogFile → List Entry
  all_entries [] = []
  all_entries (f ∷ files) = entry f ∷ all_entries files

  abbrev pub AllDated : List LogFile → Type 0
  AllDated [] = Unit {0}
  AllDated (f ∷ files) = IsDated f.made × AllDated files

  -- The date and time at `t` as one number, YYYYMMDDhhmmss.
  abbrev pub date_number : ℕ → ℕ
  date_number t = value 0 (get_date_prefix localtime t)

  -- The specification: the regular files that were made before `t`, by the date in their names.
  abbrev pub expired : List ℕ → ℕ → List LogFile → List (List ℕ)
  expired path t [] = []
  expired path t (f ∷ files) =
      let rest = expired path t files in
      if f.regular && ltb (date_number f.made) (date_number t)
      then (path ++ b'/' ∷ (get_date_prefix localtime f.made ++ f.rest)) ∷ rest
      else rest

  old_files-expired :
      (files : List LogFile) (path : List ℕ) (t : ℕ)
      → AllDated files
      → IsDated t
      → old_files path (get_date_prefix localtime t) (all_entries files) ≡ expired path t files
  unfolding old_files
  old_files-expired [] path t v w = refl
  old_files-expired (f ∷ files) path t ((l, d), v) (m, w) =
      let same =
        precedes-value (get_date_prefix localtime f.made) (get_date_prefix localtime t) f.rest 0
          (omega (arith, l, m)) d w in
      let more = old_files-expired files path t v (m, w) in
      elim (Bool-cases f.regular) [
        | inr n ↦ rw (n, more) refl
        | inl y ↦ elim (Bool-cases (ltb (date_number f.made) (date_number t))) [
          | inl before ↦ rw (y, same, before, more) refl
          | inr after ↦ rw (y, same, after, more) refl
        ]
      ]

  -- In a directory of log files, those are removed that are regular files and whose date and time, as a
  -- number, is before that of the retention period ago; all others stay.
  pub del_old_files-expired :
      (s : FileAppender) (t : ℕ) (files : List LogFile)
      → AllDated files
      → IsDated (t - s.retain_period_sec)
      → (del_old_files localtime s t (some (all_entries files))).calls
        ≡ s.calls ++ all_removed (expired s.path (t - s.retain_period_sec) files)
  unfolding del_old_files
  del_old_files-expired s t files v w =
      ap (λ names. s.calls ++ all_removed names)
        (old_files-expired files s.path (t - s.retain_period_sec) v w)
