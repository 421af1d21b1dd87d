-- ===== src/Container/FixedOStream/Printing.antt =====
-- Chains of `<<` on a `FixedOStream`, and the text that they stand for.
use clia.Prelude.{
  ℕ, suc, ◌+◌, ◌-◌, ◌^◌, ◌≤◌, ◌<◌, ◌≡◌, refl, sym, ap, ◌∙◌, true, false, Bool-cases, inl, inr, List,
  [], ◌∷◌, ◌++◌, append-nil, length, length-append, take, take-all, take-overwrite_terminated,
  overwrite, length-overwrite, set, length-set, take-set, codes, Option, none, some, ltb, ◌==◌,
  if◌then◌else◌, Outcome, ok, err, Fault, ◌>>=◌, Returns, arith,
}
use clia.Container.FixedBuffer.{avail, add, append, append_value}
use clia.Container.FixedBuffer.Contents.{
  Holds, size-length, add-Holds, add_full, append-Holds, append_full,
}
use clia.Util.StrFunc.{Integer, pos, print, convert}
use clia.Util.StrFunc.Printed.{InRange, print-short}
use clia.Container.FixedOStream.{
  FixedOStream, vsnprintf, format, put_pointer, put_string, put_char, put_double, put_integer,
  add_converted, put_text,
}

-- The operand of a `<<`, or of a call of `format`. `byte` is an `unsigned char`, which is printed as an
-- integer, `integer` one of the other eight integer types.
pub data Piece : Type 0 where
  pointer double text : List ℕ → Piece
  formatted string : Option (List ℕ) → Piece
  char : ℕ → Piece
  byte : ℕ → Piece
  integer : Integer → Piece

abbrev pub put : ℕ → FixedOStream → Piece → Outcome FixedOStream
put nm s (pointer t) = put_pointer nm s t
put nm s (double t) = put_double nm s t
put nm s (text t) = put_text nm s t
put nm s (formatted t) = format nm s t
put nm s (string t) = put_string nm s t
put nm s (char c) = put_char nm s c
put nm s (byte c) = put_integer nm s (pos c)
put nm s (integer i) = put_integer nm s i

unfoldable pub put_all : ℕ → FixedOStream → List Piece → Outcome FixedOStream
put_all nm s [] = ok s
put_all nm s (p ∷ ps) = put nm s p >>= λ s'. put_all nm s' ps

-- The text of a piece where `room` characters are free: an integer is left out where fewer than 32 are.
abbrev pub spelled : ℕ → Piece → Outcome (List ℕ)
spelled room (pointer t) = ok (codes "0x" ++ t)
spelled room (double t) = ok t
spelled room (text t) = ok t
spelled room (formatted none) = err Fault.assertion
spelled room (formatted (some t)) = ok t
spelled room (string none) = ok (codes "(null)")
spelled room (string (some t)) = ok t
spelled room (char c) = ok (c ∷ [])
spelled room (byte c) = if ltb room 32 then ok [] else print (pos c)
spelled room (integer i) = if ltb room 32 then ok [] else print i

-- The specification: the text so far, which has to stay shorter than the array.
abbrev pub extend : ℕ → List ℕ → List ℕ → Outcome (List ℕ)
extend nm q t = if ltb (length q + length t) nm then ok (q ++ t) else err Fault.assertion

unfoldable pub spell_all : ℕ → List ℕ → List Piece → Outcome (List ℕ)
spell_all nm q [] = ok q
spell_all nm q (p ∷ ps) = spelled (nm - length q) p >>= extend nm q >>= λ q'. spell_all nm q' ps

-- Both come to the same fault, or the stream holds the text.
abbrev pub Agrees : ℕ → Outcome FixedOStream → Outcome (List ℕ) → Type 0
Agrees nm m (err fault) = m ≡ err fault
Agrees nm m (ok q) = Returns m (Holds nm q)

-- Pieces with a value that can be printed.
abbrev pub IsPrintable : Piece → Type 0
IsPrintable (pointer t) = Unit {0}
IsPrintable (double t) = Unit {0}
IsPrintable (text t) = Unit {0}
IsPrintable (formatted t) = Unit {0}
IsPrintable (string t) = Unit {0}
IsPrintable (char c) = Unit {0}
IsPrintable (byte c) = InRange (pos c)
IsPrintable (integer i) = InRange i

abbrev pub AllPrintable : List Piece → Type 0
AllPrintable [] = Unit {0}
AllPrintable (p ∷ ps) = IsPrintable p × AllPrintable ps

module _ (nm : ℕ) where
  cur-length : (s : FixedOStream) (q : List ℕ) → Holds nm q s → s.cur ≡ length q
  cur-length s q v = omega (arith, size-length nm s v.valid, ap length v.elements)

  append-Agrees :
      (s : FixedOStream) (q t : List ℕ)
      → Holds nm q s
      → Agrees nm (append nm true s t) (extend nm q t)
  append-Agrees s q t v = elim (Bool-cases (ltb (length q + length t) nm)) [
    | inl y ↦ rw y (append-Holds nm true s q t v (ground arith))
    | inr n ↦ rw n (append_full nm true s q t v (ground arith))
  ]

  -- A text that is written with its terminator, and a step over it.
  terminated-Holds :
      (s : FixedOStream) (q t : List ℕ)
      → Holds nm q s
      → length q + length t < nm
      → Returns
          (add nm (record s { items = overwrite s.items s.cur (t ++ 0 ∷ []) }) (length t))
          (Holds nm (q ++ t))
  terminated-Holds s q t v h =
      let c = cur-length s q v in
      add-Holds nm s (overwrite s.items s.cur (t ++ 0 ∷ [])) (q ++ t) (length t) v.valid
        (length-overwrite s.items s.cur (t ++ 0 ∷ [])
            (omega (arith, v.valid, length-append t (0 ∷ [])))
          ∙ v.valid.full_array)
        (take-overwrite_terminated s.cur (s.cur + length t) s.items t 0 (omega (arith, v.valid))
            refl
          ∙ ap (λ x. x ++ t) v.elements)
        (omega arith)

  cur-vsnprintf : (s : FixedOStream) (t : List ℕ) → (vsnprintf nm s t).cur ≡ s.cur
  unfolding vsnprintf
  cur-vsnprintf s t = elim (Bool-cases (avail nm s == 0)) [ inl y ↦ rw y refl | inr n ↦ rw n refl ]

  vsnprintf-Holds :
      (s : FixedOStream) (q t : List ℕ)
      → Holds nm q s
      → length q + length t < nm
      → Returns (add nm (vsnprintf nm s t) (length t)) (Holds nm (q ++ t))
  unfolding vsnprintf
  vsnprintf-Holds s q t v h =
      let room : (avail nm s == 0) ≡ false = ground (arith, cur-length s q v, v.valid) in
      let whole : take (avail nm s - 1) t ≡ t =
        take-all (avail nm s - 1) t (ground (arith, cur-length s q v, v.valid)) in
      rw (room, whole) (terminated-Holds s q t v h)

  format-Agrees :
      (s : FixedOStream) (q t : List ℕ)
      → Holds nm q s
      → Agrees nm (format nm s (some t)) (extend nm q t)
  unfolding format
  format-Agrees s q t v = elim (Bool-cases (ltb (length q + length t) nm)) [
    | inl y ↦ rw y (vsnprintf-Holds s q t v (ground arith))
    | inr n ↦ rw n (
        add_full nm (vsnprintf nm s t) (length t) (omega (arith, cur-vsnprintf s t, v.valid))
          (omega (arith, v.valid)) (ground (arith, cur-vsnprintf s t, cur-length s q v)))
  ]

  formatted_error :
      (s : FixedOStream) (q : List ℕ) → Holds nm q s → format nm s none ≡ err Fault.assertion
  unfolding format
  formatted_error s q v =
      add_full nm s (2 ^ 64 - 1) (omega (arith, v.valid)) (omega (arith, v.valid))
        (omega (arith, v.valid))

  pub char-Agrees :
      (s : FixedOStream) (q : List ℕ) (c : ℕ)
      → Holds nm q s
      → Agrees nm (put_char nm s c) (extend nm q (c ∷ []))
  unfolding put_char append_value
  char-Agrees s q c v = elim (Bool-cases (ltb (length q + 1) nm)) [
    | inl y ↦
        let room : ltb s.cur nm ≡ true = ground (arith, cur-length s q v) in
        let inside : ltb s.cur (length s.items) ≡ true =
          ground (arith, cur-length s q v, v.valid) in
        rw (y, room, inside)
          (add-Holds nm s (set s.items s.cur c) (q ++ c ∷ []) 1 v.valid
            (length-set s.items s.cur c ∙ v.valid.full_array)
            (one_more (ground arith) ∙ ap (λ x. x ++ c ∷ []) v.elements)
            (ground (arith, cur-length s q v)))
    | inr n ↦ rw n (full n)
  ]
    where
      one_more :
          length q + 1 < nm → take (s.cur + 1) (set s.items s.cur c) ≡ take s.cur s.items ++ c ∷ []
      one_more l =
          let next : s.cur + 1 ≡ suc s.cur = omega arith in
          ap (λ n. take n (set s.items s.cur c)) next
          ∙ take-set s.items s.cur c
              (ground (arith, v.valid.inside, v.valid.full_array, cur-length s q v, l))

      full : ltb (length q + 1) nm ≡ false → append_value nm s c ≡ err Fault.assertion
      full n = ground (
        arith,
        cur-length s q v,
        v.valid,
        add_full nm (record { items = set s.items s.cur c; cur = s.cur }) 1,
      )

  nothing-Agrees :
      (s : FixedOStream) (q : List ℕ) → Holds nm q s → Agrees nm (add nm s 0) (extend nm q [])
  nothing-Agrees s q v = elim (Bool-cases (ltb (length q + 0) nm)) [
    | inl y ↦ rw y (
        add-Holds nm s s.items (q ++ []) 0 v.valid v.valid.full_array
          (nothing_more ∙ sym (append-nil q)) (ground (arith, cur-length s q v)))
    | inr n ↦ rw n (
        add_full nm s 0 (omega (arith, v.valid)) (omega (arith, v.valid))
          (ground (arith, cur-length s q v)))
  ]
    where
      nothing_more : take (s.cur + 0) s.items ≡ q
      nothing_more =
          let same : s.cur + 0 ≡ s.cur = omega arith in ap (λ n. take n s.items) same ∙ v.elements

  converted-Agrees :
      (s : FixedOStream) (q : List ℕ) (m : Outcome (List ℕ))
      → Holds nm q s
      → 32 ≤ nm - length q
      → ((t : List ℕ) → m ≡ ok t → length t ≤ 20)
      → Agrees nm (m >>= (λ t. ok (some t)) >>= add_converted nm s) (m >>= extend nm q)
  unfolding add_converted
  converted-Agrees s q (err fault) v room short = refl
  converted-Agrees s q (ok t) v room short =
      let l : length q + length t < nm = omega (arith, short t refl) in
      let fits : ltb (length q + length t) nm ≡ true = ground arith in
      rw fits (terminated-Holds s q t v l)

  integer-Agrees :
      (s : FixedOStream) (q : List ℕ) (i : Integer)
      → Holds nm q s
      → InRange i
      → Agrees nm (put_integer nm s i) (spelled (nm - length q) (integer i) >>= extend nm q)
  unfolding put_integer convert add_converted
  integer-Agrees s q i v p =
      let room : avail nm s ≡ nm - length q = ground (arith, cur-length s q v, v.valid) in
      elim (Bool-cases (ltb (nm - length q) 32)) [
        | inl y ↦ rw (room, y) (nothing-Agrees s q v)
        | inr n ↦
            rw (room, n) (converted-Agrees s q (print i) v (ground arith) (λ t. print-short i t p))
      ]

  -- Every operand, on a stream that holds `q`.
  put-Agrees :
      (s : FixedOStream) (q : List ℕ) (p : Piece)
      → Holds nm q s
      → IsPrintable p
      → Agrees nm (put nm s p) (spelled (nm - length q) p >>= extend nm q)
  unfolding put_pointer put_double put_text put_string
  put-Agrees s q (pointer t) v h = format-Agrees s q (codes "0x" ++ t) v
  put-Agrees s q (double t) v h = format-Agrees s q t v
  put-Agrees s q (text t) v h = append-Agrees s q t v
  put-Agrees s q (formatted none) v h = formatted_error s q v
  put-Agrees s q (formatted (some t)) v h = format-Agrees s q t v
  put-Agrees s q (string none) v h = append-Agrees s q (codes "(null)") v
  put-Agrees s q (string (some t)) v h = append-Agrees s q t v
  put-Agrees s q (char c) v h = char-Agrees s q c v
  put-Agrees s q (byte c) v h = integer-Agrees s q (pos c) v h
  put-Agrees s q (integer i) v h = integer-Agrees s q i v h

  Agrees-bind :
      (m : Outcome FixedOStream) (k : Outcome (List ℕ)) (f : FixedOStream → Outcome FixedOStream)
      (g : List ℕ → Outcome (List ℕ))
      → Agrees nm m k
      → ((s : FixedOStream) (q : List ℕ) → Holds nm q s → Agrees nm (f s) (g q))
      → Agrees nm (m >>= f) (k >>= g)
  Agrees-bind m (err fault) f g h step = rw h refl
  Agrees-bind (ok s) (ok q) f g h step = step s q h
  Agrees-bind (err fault) (ok q) f g h step = absurd h

  -- On a valid stream, every chain of operands prints the texts that they stand for, one behind the
  -- other, as long as they leave a character of the array free, and stops at an assertion where they do
  -- not; an integer is left out where fewer than 32 characters are free, and is read outside of
  -- `kDigits` if it is negative.
  pub put_all-Agrees :
      (ps : List Piece) (s : FixedOStream) (q : List ℕ)
      → Holds nm q s
      → AllPrintable ps
      → Agrees nm (put_all nm s ps) (spell_all nm q ps)
  unfolding put_all spell_all
  put_all-Agrees [] s q v h = v
  put_all-Agrees (p ∷ ps) s q v (a, h) =
      Agrees-bind (put nm s p) (spelled (nm - length q) p >>= extend nm q) (λ s'. put_all nm s' ps)
        (λ q'. spell_all nm q' ps) (put-Agrees s q p v a) (λ s' q' w. put_all-Agrees ps s' q' w h)

  -- The text of two chains, one after the other.
  pub spell_all-append :
      (ps rs : List Piece) (q : List ℕ)
      → spell_all nm q (ps ++ rs) ≡ (spell_all nm q ps >>= λ q'. spell_all nm q' rs)
  unfolding spell_all
  spell_all-append [] rs q = refl
  spell_all-append (p ∷ ps) rs q =
      go (spelled (nm - length q) p >>= extend nm q) (spell_all-append ps rs)
    where
      go :
          (k : Outcome (List ℕ))
          → ((q : List ℕ)
              → spell_all nm q (ps ++ rs) ≡ (spell_all nm q ps >>= λ q'. spell_all nm q' rs))
          → (k >>= λ q'. spell_all nm q' (ps ++ rs))
            ≡ ((k >>= λ q'. spell_all nm q' ps) >>= λ q''. spell_all nm q'' rs)
      go (err fault) h = refl
      go (ok q) h = h q
