-- ===== src/Container/CircularBuffer/Fifo.antt =====
-- A `CircularBuffer` is a queue of as many elements as its vector has.
use clia.Prelude.{
  ℕ, zero, suc, ◌+◌, ◌-◌, ◌≤◌, ◌<◌, ◌≡◌, ◌≢◌, refl, sym, ap, ◌∙◌, true, false, List, [], ◌∷◌, ◌++◌,
  length, length-append, length-set, length-replicate, get_elem?, set, some, ◌==◌, ltb,
  if◌then◌else◌, Bool-cases, inl, inr, ◌⊎◌, ok, err, Fault, Returns, max_size, sub_size, arith,
}
use clia.Container.CircularBuffer.{
  CircularBuffer, create, capacity, empty, full, next, push_back, front, pop_front,
}

module _ {ℓ} {A : Type ℓ} where
  get_elem?-set : (xs : List A) (i : ℕ) (a : A) → i < length xs → get_elem? (set xs i a) i ≡ some a
  get_elem?-set [] i a h = absurd (omega arith)
  get_elem?-set (x ∷ xs) zero a h = refl
  get_elem?-set (x ∷ xs) (suc i) a h = get_elem?-set xs i a (omega arith)

  get_elem?-set_other :
      (xs : List A) (i j : ℕ) (a : A) → i ≢ j → get_elem? (set xs i a) j ≡ get_elem? xs j
  get_elem?-set_other [] i j a h = refl
  get_elem?-set_other (x ∷ xs) zero zero a h = absurd (h refl)
  get_elem?-set_other (x ∷ xs) zero (suc j) a h = refl
  get_elem?-set_other (x ∷ xs) (suc i) zero a h = refl
  get_elem?-set_other (x ∷ xs) (suc i) (suc j) a h =
      get_elem?-set_other xs i j a (λ e. h (ap suc e))

  get_elem?-append :
      (xs : List A) (i : ℕ) (a : A) → i < length xs → get_elem? (xs ++ a ∷ []) i ≡ get_elem? xs i
  get_elem?-append [] i a h = absurd (omega arith)
  get_elem?-append (x ∷ xs) zero a h = refl
  get_elem?-append (x ∷ xs) (suc i) a h = get_elem?-append xs i a (omega arith)

  get_elem?-last : (xs : List A) (a : A) → get_elem? (xs ++ a ∷ []) (length xs) ≡ some a
  get_elem?-last [] a = refl
  get_elem?-last (x ∷ xs) a = get_elem?-last xs a

module _ {A : Type 0} where
  -- The place of the element `i` steps behind the first.
  abbrev pub place : CircularBuffer A → ℕ → ℕ
  place c i = if ltb (c.start + i) (capacity c) then c.start + i else c.start + i - capacity c

  -- `q` are the elements, oldest first.
  pub record Holds (q : List A) (c : CircularBuffer A) : Type 0 where
    pub count : c.count ≡ length q
    pub fits : length q ≤ capacity c
    pub inside : (c.start < capacity c) ⊎ ((capacity c ≡ 0) × (c.start ≡ 0))
    pub behind : c.finish ≡ place c (length q)
    pub items : (i : ℕ) → i < length q → get_elem? c.buffer (place c i) ≡ get_elem? q i
    pub small : capacity c ≤ max_size

  full-Holds : (q : List A) (c : CircularBuffer A) → Holds q c → full c ≡ (capacity c == length q)
  full-Holds q c v = rw v.count refl

  pushed-items :
      (q : List A) (c : CircularBuffer A) (a : A)
      → Holds q c
      → length q < capacity c
      → c.start < capacity c
      → (i : ℕ) → i < length (q ++ a ∷ [])
      → get_elem? (set c.buffer c.finish a) (place c i) ≡ get_elem? (q ++ a ∷ []) i
  pushed-items q c a v room l i h = elim (Bool-cases (ltb i (length q))) [
    | inl y ↦
        let old : i < length q = ground arith in
        get_elem?-set_other c.buffer c.finish (place c i) a (ground (arith, v.behind))
        ∙ (v.items i old ∙ sym (get_elem?-append q i a old))
    | inr n ↦
        let last : i ≡ length q = ground (arith, length-append q (a ∷ [])) in
        rw (last, v.behind)
          (get_elem?-set c.buffer (place c (length q)) a (ground arith) ∙ sym (get_elem?-last q a))
  ]

  pub push_back-Holds :
      (q : List A) (c : CircularBuffer A) (a : A)
      → Holds q c
      → length q < capacity c
      → Returns (push_back c a) (λ c'. Holds (q ++ a ∷ []) c' × (capacity c' ≡ capacity c))
  unfolding push_back
  push_back-Holds q c a v h =
      let l : c.start < capacity c = omega (arith, v.inside) in
      let room : full c ≡ false = ground (arith, v.count) in
      let inside : ltb c.finish (length c.buffer) ≡ true = ground (arith, v.behind) in
      rw (room, inside)
        (
          record {
            count = omega (arith, v.count, v.small, length-append q (a ∷ []));
            fits = omega (arith, length-append q (a ∷ []), length-set c.buffer c.finish a);
            inside = inl (omega (arith, length-set c.buffer c.finish a));
            behind =
                rw (length-set c.buffer c.finish a, length-append q (a ∷ []))
                  (ground (arith, v.behind, v.small));
            items = rw (length-set c.buffer c.finish a) (pushed-items q c a v h l);
            small = rw (length-set c.buffer c.finish a) v.small;
          },
          length-set c.buffer c.finish a,
        )

  place-next :
      (c : CircularBuffer A) (i : ℕ)
      → c.start < capacity c
      → suc i ≤ capacity c
      → capacity c ≤ max_size
      → place (record c { start = next c c.start; count = sub_size c.count 1 }) i ≡ place c (suc i)
  place-next c i l h k = ground arith

  pub pop_front-Holds :
      (a : A) (q : List A) (c : CircularBuffer A)
      → Holds (a ∷ q) c
      → (front c ≡ ok a) × Returns (pop_front c) (λ c'. Holds q c' × (capacity c' ≡ capacity c))
  unfolding front pop_front
  pop_front-Holds a q c v =
      let l : c.start < capacity c = omega (arith, v.inside, v.fits) in
      let some_left : empty c ≡ false = ground (arith, v.count) in
      let first : ltb (c.start + 0) (capacity c) ≡ true = ground arith in
      let oldest : get_elem? c.buffer c.start ≡ some a =
        ap (get_elem? c.buffer) (ground arith) ∙ v.items 0 (omega arith) in
      rw (some_left, oldest)
        (
          refl,
          (
            record {
              count = omega (arith, v.count, v.fits, v.small);
              fits = omega (arith, v.fits);
              inside = inl (ground (arith, v.small));
              behind = v.behind ∙ sym (place-next c (length q) l v.fits v.small);
              items = λ i h.
                  ap (get_elem? c.buffer) (place-next c i l (omega (arith, v.fits)) v.small)
                  ∙ v.items (suc i) (omega arith);
              small = v.small;
            },
            refl,
          ),
        )

  pub create-Holds : (a : A) (n : ℕ) → n ≤ max_size → Holds [] (create a n)
  unfolding create
  create-Holds a n h = record {
    count = refl;
    fits = omega arith;
    inside = omega (arith, length-replicate n a);
    behind = ground (arith, length-replicate n a);
    items = λ i l. absurd (omega arith);
    small = omega (arith, length-replicate n a);
  }

  pub push_back_full :
      (q : List A) (c : CircularBuffer A) (a : A)
      → Holds q c
      → length q ≡ capacity c
      → push_back c a ≡ err Fault.assertion
  unfolding push_back
  push_back_full q c a v h =
      let no_room : full c ≡ true = ground (arith, v.count) in rw no_room refl

  pub front_empty :
      (c : CircularBuffer A)
      → Holds [] c
      → (front c ≡ err Fault.assertion) × (pop_front c ≡ err Fault.assertion)
  unfolding front pop_front
  front_empty c v =
      let nothing : empty c ≡ true = ground (arith, v.count) in rw nothing (refl, refl)
