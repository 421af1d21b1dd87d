-- ===== src/Prelude/Lists.antt =====
-- Lists measured, cut and written by native numbers, under the library's names.
use Prim.Native.Nat.{ℕ, zero, suc, ◌+◌, ◌-◌, ◌≤◌, ◌<◌, min}
use mathlib.Core.Path.{◌≡◌, refl, sym, ap, ◌∙◌}
use mathlib.Core.List.{List, [], ◌∷◌, ◌++◌, append_assoc}
use mathlib.Core.Option.{Option, none, some}
use native.Mathlib.Omega.{arith}

module _ {ℓ} {A : Type ℓ} where
  abbrev pub length : List A → ℕ
  length [] = 0
  length (x ∷ xs) = suc (length xs)

  abbrev pub get_elem? : List A → ℕ → Option A
  get_elem? [] i = none
  get_elem? (x ∷ xs) zero = some x
  get_elem? (x ∷ xs) (suc i) = get_elem? xs i

  abbrev pub take : ℕ → List A → List A
  take zero xs = []
  take (suc n) [] = []
  take (suc n) (x ∷ xs) = x ∷ take n xs

  abbrev pub drop : ℕ → List A → List A
  drop zero xs = xs
  drop (suc n) [] = []
  drop (suc n) (x ∷ xs) = drop n xs

  abbrev pub replicate : ℕ → A → List A
  replicate zero a = []
  replicate (suc n) a = a ∷ replicate n a

  -- A write out of bounds changes nothing.
  abbrev pub set : List A → ℕ → A → List A
  set [] i v = []
  set (x ∷ xs) zero v = v ∷ xs
  set (x ∷ xs) (suc i) v = x ∷ set xs i v

  pub length-append : (xs ys : List A) → length (xs ++ ys) ≡ length xs + length ys
  length-append [] ys = omega arith
  length-append (x ∷ xs) ys = omega (arith, length-append xs ys)

module _ {ℓ} {A : Type ℓ} where
  -- The elements at the positions from `i` up to `j`, without `j`.
  abbrev pub slice : ℕ → ℕ → List A → List A
  slice i j xs = take (j - i) (drop i xs)

  -- `ys` written over the elements from position `i` on.
  unfoldable pub overwrite : List A → ℕ → List A → List A
  overwrite xs zero ys = ys ++ drop (length ys) xs
  overwrite [] (suc i) ys = []
  overwrite (x ∷ xs) (suc i) ys = x ∷ overwrite xs i ys

  pub length-take : (n : ℕ) (xs : List A) → length (take n xs) ≡ min n (length xs)
  length-take zero xs = omega arith
  length-take (suc n) [] = omega arith
  length-take (suc n) (x ∷ xs) = omega (arith, length-take n xs)

  pub length-drop : (n : ℕ) (xs : List A) → length (drop n xs) ≡ length xs - n
  length-drop zero xs = omega arith
  length-drop (suc n) [] = omega arith
  length-drop (suc n) (x ∷ xs) = omega (arith, length-drop n xs)

  pub length-replicate : (n : ℕ) (a : A) → length (replicate n a) ≡ n
  length-replicate zero a = refl
  length-replicate (suc n) a = ap suc (length-replicate n a)

  pub take-append-drop : (n : ℕ) (xs : List A) → take n xs ++ drop n xs ≡ xs
  take-append-drop zero xs = refl
  take-append-drop (suc n) [] = refl
  take-append-drop (suc n) (x ∷ xs) = rw (take-append-drop n xs)

  pub take-all : (n : ℕ) (xs : List A) → length xs ≤ n → take n xs ≡ xs
  take-all zero [] h = refl
  take-all zero (x ∷ xs) h = absurd (omega arith)
  take-all (suc n) [] h = refl
  take-all (suc n) (x ∷ xs) h = ap (◌∷◌ x) (take-all n xs (omega arith))

  pub drop-all : (n : ℕ) (xs : List A) → length xs ≤ n → drop n xs ≡ []
  drop-all zero [] h = refl
  drop-all zero (x ∷ xs) h = absurd (omega arith)
  drop-all (suc n) [] h = refl
  drop-all (suc n) (x ∷ xs) h = drop-all n xs (omega arith)

  pub take-append : (n : ℕ) (xs ys : List A) → n ≤ length xs → take n (xs ++ ys) ≡ take n xs
  take-append zero xs ys h = refl
  take-append (suc n) [] ys h = absurd (omega arith)
  take-append (suc n) (x ∷ xs) ys h = ap (◌∷◌ x) (take-append n xs ys (omega arith))

  pub take-append_length : (n : ℕ) (xs ys : List A) → length xs ≡ n → take n (xs ++ ys) ≡ xs
  take-append_length zero [] ys h = refl
  take-append_length zero (x ∷ xs) ys h = absurd (omega arith)
  take-append_length (suc n) [] ys h = absurd (omega arith)
  take-append_length (suc n) (x ∷ xs) ys h = ap (◌∷◌ x) (take-append_length n xs ys (omega arith))

  pub drop-append : (n : ℕ) (xs ys : List A) → n ≤ length xs → drop n (xs ++ ys) ≡ drop n xs ++ ys
  drop-append zero xs ys h = refl
  drop-append (suc n) [] ys h = absurd (omega arith)
  drop-append (suc n) (x ∷ xs) ys h = drop-append n xs ys (omega arith)

  pub drop-drop : (i j k : ℕ) (xs : List A) → j + i ≡ k → drop i (drop j xs) ≡ drop k xs
  drop-drop i zero k xs h = let e : i ≡ k = omega arith in ap (λ n. drop n xs) e
  drop-drop i (suc j) zero xs h = absurd (omega arith)
  drop-drop zero (suc j) (suc k) [] h = refl
  drop-drop (suc i) (suc j) (suc k) [] h = refl
  drop-drop i (suc j) (suc k) (x ∷ xs) h = drop-drop i j k xs (omega arith)

  pub take-take : (n m : ℕ) (xs : List A) → n ≤ m → take n (take m xs) ≡ take n xs
  take-take zero m xs h = refl
  take-take (suc n) zero xs h = absurd (omega arith)
  take-take (suc n) (suc m) [] h = refl
  take-take (suc n) (suc m) (x ∷ xs) h = ap (◌∷◌ x) (take-take n m xs (omega arith))

  pub drop-take : (n m k : ℕ) (xs : List A) → n + k ≡ m → drop n (take m xs) ≡ take k (drop n xs)
  drop-take zero m k xs h = let e : m ≡ k = omega arith in ap (λ n. take n xs) e
  drop-take (suc n) zero k xs h = absurd (omega arith)
  drop-take (suc n) (suc m) zero [] h = refl
  drop-take (suc n) (suc m) (suc k) [] h = refl
  drop-take (suc n) (suc m) k (x ∷ xs) h = drop-take n m k xs (omega arith)

  pub length-set : (xs : List A) (i : ℕ) (v : A) → length (set xs i v) ≡ length xs
  length-set [] i v = refl
  length-set (x ∷ xs) zero v = refl
  length-set (x ∷ xs) (suc i) v = ap suc (length-set xs i v)

  pub length-overwrite :
      (xs : List A) (i : ℕ) (ys : List A)
      → i + length ys ≤ length xs
      → length (overwrite xs i ys) ≡ length xs
  unfolding overwrite
  length-overwrite xs zero ys h =
      omega (arith, length-append ys (drop (length ys) xs), length-drop (length ys) xs)
  length-overwrite [] (suc i) ys h = absurd (omega arith)
  length-overwrite (x ∷ xs) (suc i) ys h = ap suc (length-overwrite xs i ys (omega arith))

  pub take-overwrite :
      (w n : ℕ) (xs ys : List A)
      → w ≤ length xs
      → n ≡ w + length ys
      → take n (overwrite xs w ys) ≡ take w xs ++ ys
  unfolding overwrite
  take-overwrite zero n xs ys k e = take-append_length n ys _ (omega arith)
  take-overwrite (suc w) n [] ys k e = absurd (omega arith)
  take-overwrite (suc w) zero (x ∷ xs) ys k e = absurd (omega arith)
  take-overwrite (suc w) (suc n) (x ∷ xs) ys k e =
      ap (◌∷◌ x) (take-overwrite w n xs ys (omega arith) (omega arith))

  -- With a terminator behind what is written.
  pub take-overwrite_terminated :
      (w n : ℕ) (xs ys : List A) (z : A)
      → w ≤ length xs
      → n ≡ w + length ys
      → take n (overwrite xs w (ys ++ z ∷ [])) ≡ take w xs ++ ys
  take-overwrite_terminated w n xs ys z k e =
      sym (take-take n (suc n) (overwrite xs w (ys ++ z ∷ [])) (omega arith))
      ∙ (ap (take n) (
            take-overwrite w (suc n) xs (ys ++ z ∷ []) k (omega (arith, length-append ys (z ∷ [])))
            ∙ sym (append_assoc (take w xs) ys (z ∷ [])))
          ∙ take-append_length n (take w xs ++ ys) (z ∷ [])
              (omega (arith, length-append (take w xs) ys, length-take w xs)))

  take-drop-overwrite :
      (r w k n : ℕ) (xs ys : List A)
      → r + k ≡ w
      → w ≤ length xs
      → n ≡ k + length ys
      → take n (drop r (overwrite xs w ys)) ≡ take k (drop r xs) ++ ys
  unfolding overwrite
  take-drop-overwrite zero w k n xs ys h l e =
      let same : w ≡ k = omega arith in
      take-overwrite w n xs ys l (omega arith) ∙ ap (λ m. take m xs ++ ys) same
  take-drop-overwrite (suc r) zero k n xs ys h l e = absurd (omega arith)
  take-drop-overwrite (suc r) (suc w) k n [] ys h l e = absurd (omega arith)
  take-drop-overwrite (suc r) (suc w) k n (x ∷ xs) ys h l e =
      take-drop-overwrite r w k n xs ys (omega arith) (omega arith) e

  -- What was written follows what stood before it.
  pub slice-overwrite :
      (r w n : ℕ) (xs ys : List A)
      → r ≤ w
      → w ≤ length xs
      → n ≡ w + length ys
      → slice r n (overwrite xs w ys) ≡ slice r w xs ++ ys
  slice-overwrite r w n xs ys h k e =
      take-drop-overwrite r w (w - r) (n - r) xs ys (omega arith) k (omega arith)

  pub length-slice : (i j : ℕ) (xs : List A) → j ≤ length xs → length (slice i j xs) ≡ j - i
  length-slice i j xs h = omega (arith, length-take (j - i) (drop i xs), length-drop i xs)

  pub slice-append :
      (i j : ℕ) (xs ys : List A) → i ≤ j → j ≤ length xs → slice i j (xs ++ ys) ≡ slice i j xs
  slice-append i j xs ys h k =
      ap (take (j - i)) (drop-append i xs ys (omega arith))
      ∙ take-append (j - i) (drop i xs) ys (omega (arith, length-drop i xs))

  -- The first `n` elements of a slice, and the others.
  pub take-slice :
      (n i j k : ℕ) (xs : List A) → i + n ≡ k → k ≤ j → take n (slice i j xs) ≡ slice i k xs
  take-slice n i j k xs h l =
      let e : n ≡ k - i = omega arith in
      take-take n (j - i) (drop i xs) (omega arith) ∙ ap (λ m. take m (drop i xs)) e

  pub drop-slice :
      (n i j k : ℕ) (xs : List A) → i + n ≡ k → k ≤ j → drop n (slice i j xs) ≡ slice k j xs
  drop-slice n i j k xs h l =
      drop-take n (j - i) (j - k) (drop i xs) (omega arith)
      ∙ ap (take (j - k)) (drop-drop n i k xs h)

  -- `std::vector::resize`: cut, or filled up with `d`.
  unfoldable pub resize : List A → ℕ → A → List A
  resize xs n d = take n xs ++ replicate (n - length xs) d

  pub length-resize : (xs : List A) (n : ℕ) (d : A) → length (resize xs n d) ≡ n
  unfolding resize
  length-resize xs n d = omega (
    arith,
    length-append (take n xs) (replicate (n - length xs) d),
    length-take n xs,
    length-replicate (n - length xs) d,
  )

  pub slice-resize :
      (i j n : ℕ) (xs : List A) (d : A)
      → i ≤ j
      → j ≤ length xs
      → length xs ≤ n
      → slice i j (resize xs n d) ≡ slice i j xs
  unfolding resize
  slice-resize i j n xs d h k l =
      ap (λ ys. slice i j (ys ++ replicate (n - length xs) d)) (take-all n xs l)
      ∙ slice-append i j xs (replicate (n - length xs) d) h k

  pub overwrite-nil : (xs : List A) (i : ℕ) → i ≤ length xs → overwrite xs i [] ≡ xs
  unfolding overwrite
  overwrite-nil xs zero h = refl
  overwrite-nil [] (suc i) h = absurd (omega arith)
  overwrite-nil (x ∷ xs) (suc i) h = ap (◌∷◌ x) (overwrite-nil xs i (omega arith))

  -- One write after another is one write of both.
  pub overwrite-set :
      (xs : List A) (i : ℕ) (y : A) (ys : List A)
      → i < length xs
      → overwrite (set xs i y) (suc i) ys ≡ overwrite xs i (y ∷ ys)
  unfolding overwrite
  overwrite-set [] i y ys h = absurd (omega arith)
  overwrite-set (x ∷ xs) zero y ys h = refl
  overwrite-set (x ∷ xs) (suc i) y ys h = ap (◌∷◌ x) (overwrite-set xs i y ys (omega arith))

  pub take-set :
      (xs : List A) (i : ℕ) (y : A)
      → i < length xs
      → take (suc i) (set xs i y) ≡ take i xs ++ y ∷ []
  take-set [] i y h = absurd (omega arith)
  take-set (x ∷ xs) zero y h = refl
  take-set (x ∷ xs) (suc i) y h = ap (◌∷◌ x) (take-set xs i y (omega arith))
