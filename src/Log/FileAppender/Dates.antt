-- ===== src/Log/FileAppender/Dates.antt =====
-- What `get_date_prefix` prints of a calendar date with a year of four digits.
use clia.Prelude.{
  ℕ, ◌+◌, ◌-◌, ◌*◌, ◌/◌, ◌%◌, ◌≤◌, ◌<◌, ◌≡◌, refl, ap, ◌∙◌, Bool-cases, true, false, inl, inr, List,
  [], ◌∷◌, ◌++◌, length, length-append, some, ltb, ◌==◌, ◌&&◌, if◌then◌else◌, arith,
}
use clia.Util.StrFunc.{digits}
use clia.Util.Timestamp.{Tm, decimal, padded, zeros}
use clia.Log.FileAppender.{FileAppender, get_date_prefix, del_old_files, all_removed}
use clia.Log.FileAppender.OldFiles.{
  value, AreDigits, LogFile, IsDated, date_number, expired, all_entries, AllDated,
  del_old_files-expired,
}

decimal-one : (n : ℕ) → n < 10 → decimal n ≡ (48 + n) ∷ []
unfolding decimal digits
decimal-one n h =
    let a : (n / 10 == 0) ≡ true = ground arith in
    let b : n % 10 ≡ n = omega arith in rw (a, b) refl

decimal-two : (n : ℕ) → 10 ≤ n → n < 100 → decimal n ≡ (48 + n / 10) ∷ (48 + n % 10) ∷ []
unfolding decimal digits
decimal-two n l h =
    let a : (n / 10 == 0) ≡ false = ground arith in
    let b : (n / 10 / 10 == 0) ≡ true = ground arith in
    let c : n / 10 % 10 ≡ n / 10 = omega arith in rw (a, b, c) refl

decimal-four :
    (n : ℕ)
    → 1000 ≤ n
    → n < 10000
    → decimal n
      ≡ (48 + n / 10 / 10 / 10) ∷ (48 + n / 10 / 10 % 10) ∷ (48 + n / 10 % 10) ∷ (48 + n % 10) ∷ []
unfolding decimal digits
decimal-four n l h =
    let a : (n / 10 == 0) ≡ false = ground arith in
    let b : (n / 10 / 10 == 0) ≡ false = ground arith in
    let c : (n / 10 / 10 / 10 == 0) ≡ false = ground arith in
    let d : (n / 10 / 10 / 10 / 10 == 0) ≡ true = ground arith in
    let e : n / 10 / 10 / 10 % 10 ≡ n / 10 / 10 / 10 = omega arith in rw (a, b, c, d, e) refl

-- A text of `w` digits that stands for `n`.
record Spells (w power n : ℕ) (text : List ℕ) : Type 0 where
  width : length text ≡ w
  are_digits : AreDigits text
  stands : (acc : ℕ) → value acc text ≡ acc * power + n

zeros-Spells : (n : ℕ) → n < 100 → Spells 2 100 n (zeros 2 n)
unfolding padded
zeros-Spells n h = elim (Bool-cases (ltb n 10)) [
  | inl y ↦ rw (decimal-one n (ground arith)) (record {
    width = refl;
    are_digits = (omega arith, omega arith, (omega arith, ground arith, tt));
    stands = λ acc. omega arith;
  })
  | inr z ↦ rw (decimal-two n (ground arith) h) (record {
    width = refl;
    are_digits = (omega arith, omega arith, (omega arith, omega arith, tt));
    stands = λ acc. omega arith;
  })
]

year-Spells : (n : ℕ) → 1000 ≤ n → n < 10000 → Spells 4 10000 n (decimal n)
year-Spells n l h = rw (decimal-four n l h) (record {
  width = refl;
  are_digits = (
    omega arith,
    omega arith,
    (omega arith, omega arith, (omega arith, omega arith, (omega arith, omega arith, tt))),
  );
  stands = λ acc. omega arith;
})

value-append : (a b : List ℕ) (acc : ℕ) → value acc (a ++ b) ≡ value (value acc a) b
value-append [] b acc = refl
value-append (c ∷ a) b acc = value-append a b (acc * 10 + (c - b'0'))

AreDigits-append : (a b : List ℕ) → AreDigits a → AreDigits b → AreDigits (a ++ b)
AreDigits-append [] b v w = w
AreDigits-append (c ∷ a) b (l, h, v) w = (l, h, AreDigits-append a b v w)

-- Two digits behind a numeral.
behind-Spells :
    (w n m : ℕ) (a b : List ℕ)
    → (length a ≡ w) × AreDigits a × (value 0 a ≡ n)
    → Spells 2 100 m b
    → (length (a ++ b) ≡ w + 2) × AreDigits (a ++ b) × (value 0 (a ++ b) ≡ n * 100 + m)
behind-Spells w n m a b (l, v, e) k = (
  omega (arith, length-append a b, l, k.width),
  AreDigits-append a b v k.are_digits,
  omega (arith, value-append a b 0, k.stands (value 0 a), e),
)

-- What `localtime_r` answers for a time in the years from 1000 to 9999.
pub record IsCalendar (tm : Tm) : Type 0 where
  pub year : (1000 ≤ tm.tm_year + 1900) × (tm.tm_year + 1900 < 10000)
  pub month : tm.tm_mon < 12
  pub day : tm.tm_mday ≤ 31
  pub hour : tm.tm_hour < 24
  pub minute : tm.tm_min < 60
  pub second : tm.tm_sec ≤ 60

-- Date and time as one number, YYYYMMDDhhmmss.
abbrev pub date_of : Tm → ℕ
date_of tm =
    ((((((tm.tm_year + 1900) * 100 + (tm.tm_mon + 1)) * 100 + tm.tm_mday) * 100 + tm.tm_hour) * 100
        + tm.tm_min)
      * 100)
    + tm.tm_sec

module _ (localtime : ℕ → Tm) where
  date_prefix_lem :
      (t : ℕ)
      → IsCalendar (localtime t)
      → IsDated localtime t × (date_number localtime t ≡ date_of (localtime t))
  unfolding get_date_prefix
  date_prefix_lem t v =
      let tm = localtime t in
      let y = year-Spells (tm.tm_year + 1900) v.year.0 v.year.1 in
      let mon = zeros-Spells (tm.tm_mon + 1) (omega (arith, v.month)) in
      let d = zeros-Spells tm.tm_mday (omega (arith, v.day)) in
      let h = zeros-Spells tm.tm_hour (omega (arith, v.hour)) in
      let mi = zeros-Spells tm.tm_min (omega (arith, v.minute)) in
      let s = zeros-Spells tm.tm_sec (omega (arith, v.second)) in
      let (l, a, e) =
        behind-Spells 12 _ _ _ _
          (behind-Spells 10 _ _ _ _
            (behind-Spells 8 _ _ _ _
              (behind-Spells 6 _ _ _ _
                (behind-Spells 4 (tm.tm_year + 1900) _ _ _
                  (y.width, y.are_digits, omega (arith, y.stands 0)) mon)
                d)
              h)
            mi)
          s in
      ((l, a), e)

  abbrev pub AllCalendar : List LogFile → Type 0
  AllCalendar [] = Unit {0}
  AllCalendar (f ∷ files) = IsCalendar (localtime f.made) × AllCalendar files

  -- The specification: the regular files that were made before `t`.
  abbrev pub outdated : List ℕ → ℕ → List LogFile → List (List ℕ)
  outdated path t [] = []
  outdated path t (f ∷ files) =
      let rest = outdated path t files in
      if f.regular && ltb (date_of (localtime f.made)) (date_of (localtime t))
      then (path ++ b'/' ∷ (get_date_prefix localtime f.made ++ f.rest)) ∷ rest
      else rest

  AllDated-AllCalendar : (files : List LogFile) → AllCalendar files → AllDated localtime files
  AllDated-AllCalendar [] v = tt
  AllDated-AllCalendar (f ∷ files) (v, vs) =
      ((date_prefix_lem f.made v).0, AllDated-AllCalendar files vs)

  expired-outdated :
      (files : List LogFile) (path : List ℕ) (t : ℕ)
      → AllCalendar files
      → IsCalendar (localtime t)
      → expired localtime path t files ≡ outdated path t files
  expired-outdated [] path t v w = refl
  expired-outdated (f ∷ files) path t (v, vs) w =
      rw ((date_prefix_lem f.made v).1, (date_prefix_lem t w).1, expired-outdated files path t vs w)
        refl

  -- In a directory of log files, with dates in the years from 1000 to 9999, those are removed that are
  -- regular files and were made, by the calendar and to the second, before the retention period began;
  -- all others stay.
  pub del_old_files-outdated :
      (s : FileAppender) (t : ℕ) (files : List LogFile)
      → AllCalendar files
      → IsCalendar (localtime (t - s.retain_period_sec))
      → (del_old_files localtime s t (some (all_entries localtime files))).calls
        ≡ s.calls ++ all_removed (outdated s.path (t - s.retain_period_sec) files)
  del_old_files-outdated s t files v w =
      del_old_files-expired localtime s t files (AllDated-AllCalendar files v)
        (date_prefix_lem (t - s.retain_period_sec) w).0
      ∙ ap (λ names. s.calls ++ all_removed names)
          (expired-outdated files s.path (t - s.retain_period_sec) v w)
