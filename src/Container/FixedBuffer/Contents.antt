-- ===== src/Container/FixedBuffer/Contents.antt =====
-- What a `FixedBuffer` holds, and how much it takes: one element less than its array has.
use clia.Prelude.{
  ℕ, suc, ◌+◌, ◌≤◌, ◌<◌, ◌≡◌, refl, ap, ◌∙◌, Bool, true, false, List, [], ◌∷◌, ◌++◌, length, take,
  set, overwrite, length-set, length-overwrite, ok, err, Fault, Returns, arith, ltb, lt→ltb, ge→ltb,
  max_size, length-take, take-overwrite, overwrite-nil, overwrite-set, Bool-cases, inl, inr, sym,
}
use clia.Container.FixedBuffer.{
  FixedBuffer, size, reset, create, avail, add, append_value, append_copy, append_each, append,
}

-- The elements appended since the last reset.
abbrev pub contents {ℓ} : {A : Type ℓ} → FixedBuffer A → List A
contents b = take b.cur b.items

module _ {A : Type 0} (nm : ℕ) where
  pub record IsValid (b : FixedBuffer A) : Type 0 where
    pub full_array : length b.items ≡ nm
    pub inside : b.cur ≤ nm
    pub small : nm ≤ max_size

  pub record Holds (q : List A) (b : FixedBuffer A) : Type 0 where
    pub valid : IsValid b
    pub elements : contents b ≡ q

  pub size-length : (b : FixedBuffer A) → IsValid b → length (contents b) ≡ size b
  size-length b v = omega (arith, length-take b.cur b.items)

  pub create-Holds : (items : List A) → length items ≡ nm → nm ≤ max_size → Holds [] (create items)
  unfolding create reset
  create-Holds items e h = record { valid = omega arith; elements = refl }

  pub reset-Holds : (b : FixedBuffer A) → IsValid b → Holds [] (reset b)
  unfolding reset
  reset-Holds b v = record { valid = omega arith; elements = refl }

  -- A step of `cur_` over elements that were put there, and a step that does not fit.
  pub add-Holds :
      (b : FixedBuffer A) (items q : List A) (n : ℕ)
      → IsValid b
      → length items ≡ nm
      → take (b.cur + n) items ≡ q
      → b.cur + n < nm
      → Returns (add nm (record { items = items; cur = b.cur }) n) (Holds q)
  unfolding add
  add-Holds b items q n v e t h = ground arith

  pub add_full :
      (b : FixedBuffer A) (n : ℕ)
      → b.cur ≤ nm
      → nm ≤ max_size
      → nm ≤ b.cur + n
      → add nm b n ≡ err Fault.assertion
  unfolding add
  add_full b n i l h = ground arith

  -- What both branches of `append` leave behind.
  abbrev filled : FixedBuffer A → List A → FixedBuffer A
  filled b values = record { items = overwrite b.items b.cur values; cur = b.cur + length values }

  filled-Holds :
      (b : FixedBuffer A) (q values : List A)
      → Holds q b
      → b.cur + length values < nm
      → Holds (q ++ values) (filled b values)
  filled-Holds b q values v h = ground (
    arith,
    length-overwrite b.items b.cur values,
    take-overwrite b.cur (b.cur + length values) b.items values,
  )

  append_value-eq :
      (b : FixedBuffer A) (value : A)
      → IsValid b
      → suc b.cur < nm
      → append_value nm b value ≡ ok (record { items = set b.items b.cur value; cur = suc b.cur })
  unfolding append_value add
  append_value-eq b value v h = ground arith

  append_copy-eq :
      (b : FixedBuffer A) (values : List A)
      → IsValid b
      → b.cur + length values < nm
      → append_copy nm b values ≡ ok (filled b values)
  unfolding append_copy add
  append_copy-eq b values v h = ground arith

  -- The loop over the elements does what the one copy does.
  append_each-eq :
      (values : List A) (b : FixedBuffer A)
      → IsValid b
      → b.cur + length values < nm
      → append_each nm b values ≡ ok (filled b values)
  unfolding append_each
  append_each-eq [] b v h = ground (arith, overwrite-nil b.items b.cur)
  append_each-eq (value ∷ values) b v h = rw (append_value-eq b value v (omega arith)) (
      append_each-eq values (record { items = set b.items b.cur value; cur = suc b.cur })
        (omega (arith, length-set b.items b.cur value)) (omega arith)
      ∙ ground (arith, overwrite-set b.items b.cur value values))

  -- On a valid buffer both kinds of `append` do the same: the copy of a block of an arithmetic type,
  -- and the loop that appends one element after another.
  pub append_uniform :
      (b : FixedBuffer A) (values : List A)
      → IsValid b
      → append nm true b values ≡ append nm false b values
  unfolding append
  append_uniform b values v = elim (Bool-cases (ltb (length values) (avail nm b))) [
    | inl e ↦
        rw e (
          append_copy-eq b values v (ground arith) ∙ sym (append_each-eq values b v (ground arith)))
    | inr e ↦ rw e
  ]

  append-eq :
      (is_arithmetic : Bool) (b : FixedBuffer A) (values : List A)
      → IsValid b
      → b.cur + length values < nm
      → append nm is_arithmetic b values ≡ ok (filled b values)
  unfolding append
  append-eq true b values v h =
      rw (lt→ltb (length values) (avail nm b) (omega arith)) (append_copy-eq b values v h)
  append-eq false b values v h =
      rw (lt→ltb (length values) (avail nm b) (omega arith)) (append_each-eq values b v h)

  -- `append` takes a block that leaves at least one element of the array free, and puts it behind the
  -- elements held.
  pub append-Holds :
      (is_arithmetic : Bool) (b : FixedBuffer A) (q values : List A)
      → Holds q b
      → length q + length values < nm
      → Returns (append nm is_arithmetic b values) (Holds (q ++ values))
  append-Holds is_arithmetic b q values v h =
      let l : b.cur + length values < nm =
        omega (arith, size-length b v.valid, ap length v.elements) in
      rw (append-eq is_arithmetic b values v.valid l) (filled-Holds b q values v l)

  -- Every larger block fails the assertion, also one that fits the array exactly.
  pub append_full :
      (is_arithmetic : Bool) (b : FixedBuffer A) (q values : List A)
      → Holds q b
      → nm ≤ length q + length values
      → append nm is_arithmetic b values ≡ err Fault.assertion
  unfolding append
  append_full is_arithmetic b q values v h = rw (
      ge→ltb (length values) (avail nm b)
        (omega (arith, size-length b v.valid, ap length v.elements)))
