-- ===== src/Util/StrFunc/Printed.antt =====
-- What `convert` prints, read back as a decimal numeral.
use clia.Prelude.{
  ok, ℕ, zero, suc, ◌+◌, ◌*◌, ◌-◌, ◌/◌, ◌%◌, ◌^◌, ◌≤◌, ◌<◌, ◌≡◌, refl, ◌∙◌, Bool, true, false,
  Bool-cases, inl, inr, List, [], ◌∷◌, ◌++◌, length, length-append, Option, none, some, ltb, ◌==◌,
  if◌then◌else◌, err, Fault, Returns, Returns-ok, arith,
}
use clia.Util.StrFunc.{Integer, pos, negsuc, digits, digits_below, reverse, rounds, print, convert}

-- The value of a decimal numeral, read from its first digit.
abbrev pub read_from : ℕ → List ℕ → ℕ
read_from acc [] = acc
read_from acc (c ∷ cs) = read_from (acc * 10 + (c - 48)) cs

abbrev pub AllDigits : List ℕ → Type 0
AllDigits [] = Unit {0}
AllDigits (c ∷ cs) = ((48 ≤ c) × (c < 58)) × AllDigits cs

pub record IsNumeral (n : ℕ) (text : List ℕ) : Type 0 where
  pub value : read_from 0 text ≡ n
  pub digits_only : AllDigits text
  pub some_digit : 0 < length text
  pub short : length text ≤ 20

abbrev pub Prints : ℕ → Option (List ℕ) → Type 0
Prints n none = ⊥
Prints n (some text) = IsNumeral n text

-- The value of digits from the last to the first.
low : List ℕ → ℕ
low [] = 0
low (c ∷ cs) = c - 48 + low cs * 10

read_from-append :
    (acc : ℕ) (cs : List ℕ) (c : ℕ)
    → read_from acc (cs ++ c ∷ []) ≡ read_from acc cs * 10 + (c - 48)
read_from-append acc [] c = refl
read_from-append acc (d ∷ cs) c = read_from-append (acc * 10 + (d - 48)) cs c

read_from-reverse : (cs : List ℕ) → read_from 0 (reverse cs) ≡ low cs
unfolding low
read_from-reverse [] = refl
read_from-reverse (c ∷ cs) = omega (arith, read_from-append 0 (reverse cs) c, read_from-reverse cs)

AllDigits-append :
    (cs : List ℕ) (c : ℕ) → AllDigits cs → (48 ≤ c) × (c < 58) → AllDigits (cs ++ c ∷ [])
AllDigits-append [] c h k = (k, tt)
AllDigits-append (d ∷ cs) c (a, h) k = (a, AllDigits-append cs c h k)

AllDigits-reverse : (cs : List ℕ) → AllDigits cs → AllDigits (reverse cs)
AllDigits-reverse [] h = tt
AllDigits-reverse (c ∷ cs) (a, h) = AllDigits-append (reverse cs) c (AllDigits-reverse cs h) a

length-reverse : (cs : List ℕ) → length (reverse cs) ≡ length cs
length-reverse [] = refl
length-reverse (c ∷ cs) = omega (arith, length-append (reverse cs) (c ∷ []), length-reverse cs)

-- What `fuel` rounds can print.
abbrev bound : ℕ → ℕ
bound zero = 1
bound (suc fuel) = bound fuel * 10

low-digits : (fuel i : ℕ) → i < bound fuel → low (digits fuel i) ≡ i
unfolding digits low
low-digits zero i h = omega arith
low-digits (suc fuel) i h = elim (Bool-cases (i / 10 == 0)) [
  | inl y ↦ rw y (ground arith)
  | inr n ↦ rw (n, low-digits fuel (i / 10) (omega arith)) (omega arith)
]

AllDigits-digits : (fuel i : ℕ) → AllDigits (digits fuel i)
unfolding digits
AllDigits-digits zero i = tt
AllDigits-digits (suc fuel) i = (omega arith, rest (i / 10 == 0) (AllDigits-digits fuel (i / 10)))
  where
    rest :
        (b : Bool)
        → AllDigits (digits fuel (i / 10))
        → AllDigits (if b then [] else digits fuel (i / 10))
    rest true h = tt
    rest false h = h

length-digits : (fuel i : ℕ) → length (digits fuel i) ≤ fuel
unfolding digits
length-digits zero i = omega arith
length-digits (suc fuel) i = elim (Bool-cases (i / 10 == 0)) [
  | inl y ↦ rw y (omega arith)
  | inr n ↦ rw n (omega (arith, length-digits fuel (i / 10)))
]

-- A number with few digits is printed in few.
length-digits_few : (fuel few i : ℕ) → i < bound (suc few) → length (digits fuel i) ≤ suc few
unfolding digits
length-digits_few zero few i h = omega arith
length-digits_few (suc fuel) zero i h =
    let one : (i / 10 == 0) ≡ true = ground arith in rw one (omega arith)
length-digits_few (suc fuel) (suc few) i h = elim (Bool-cases (i / 10 == 0)) [
  | inl y ↦ rw y (omega arith)
  | inr n ↦ rw n (omega (arith, length-digits_few fuel few (i / 10) (omega arith)))
]

pub length-decimal : (n : ℕ) → n < 10 ^ 6 → length (reverse (digits rounds n)) ≤ 6
length-decimal n h =
    omega (arith, length-reverse (digits rounds n), length-digits_few rounds 5 n (omega arith))

-- Below `i > 0` a digit that is not 0 comes up.
digits_below-bad_access :
    (fuel i : ℕ) → 0 < i → i < bound fuel → digits_below fuel i ≡ err Fault.bad_access
unfolding digits_below
digits_below-bad_access zero i h k = absurd (omega arith)
digits_below-bad_access (suc fuel) i h k = elim (Bool-cases (i % 10 == 0)) [
  | inl y ↦
      let more : (i / 10 == 0) ≡ false = ground arith in
      rw (y, more, digits_below-bad_access fuel (i / 10) (ground arith) (omega arith)) refl
  | inr n ↦ rw n refl
]

-- Into an array of 32 places or more, `convert` prints every value of an unsigned type, and those of a
-- signed type that are not negative: the text has digits only, is 1 to 20 of them long, and its value
-- is the number.
pub convert-Prints :
    (size n : ℕ) → 32 ≤ size → n < 2 ^ 64 → Returns (convert size (pos n)) (Prints n)
unfolding convert print
convert-Prints size n h k =
    let room : ltb size 32 ≡ false = ground arith in
    rw room (record {
      value = read_from-reverse (digits rounds n) ∙ low-digits rounds n (omega arith);
      digits_only = AllDigits-reverse (digits rounds n) (AllDigits-digits rounds n);
      some_digit = omega (arith, length-reverse (digits rounds n), some_round n);
      short = omega (arith, length-reverse (digits rounds n), length-digits rounds n);
    })
  where
    some_round : (n : ℕ) → 0 < length (digits rounds n)
    some_round n = omega arith

-- For every negative value `kDigits` is read outside of its bounds.
pub convert_negative :
    (size n : ℕ) → 32 ≤ size → n < 2 ^ 63 → convert size (negsuc n) ≡ err Fault.bad_access
unfolding convert print
convert_negative size n h k =
    let room : ltb size 32 ≡ false = ground arith in
    rw (room, digits_below-bad_access rounds (n + 1) (omega arith) (omega arith)) refl

-- The values of the integer types of at most 64 bits.
abbrev pub InRange : Integer → Type 0
InRange (pos n) = n < 2 ^ 64
InRange (negsuc n) = n < 2 ^ 63

pub print-short : (i : Integer) (text : List ℕ) → InRange i → print i ≡ ok text → length text ≤ 20
unfolding print
print-short (pos n) text h e =
    Returns-ok (ok (reverse (digits rounds n))) text (λ text. length text ≤ 20)
      (omega (arith, length-reverse (digits rounds n), length-digits rounds n)) e
print-short (negsuc n) text h e =
    cc (digits_below-bad_access rounds (n + 1) (omega arith) (omega arith))
