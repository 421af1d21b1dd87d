-- ===== src/Container/FixedBuffer.antt =====
-- clia/clia/container/fixed_buffer.h: `FixedBuffer<Tp, Nm>`, an array of `Nm` elements that is filled
-- from the front. `cur` is the distance of the pointer `cur_` from the start of the array `items`.
pub mod Contents
mod Tests
use clia.Prelude.{
  ℕ, suc, ◌+◌, ◌==◌, Bool, true, false, List, [], ◌∷◌, length, set, overwrite, ltb, leb, Outcome,
  ok, ◌>>=◌, ◌>>◌, assert, accessible, sub_size,
}

pub record FixedBuffer {ℓ} (A : Type ℓ) : Type ℓ where
  pub items : List A
  pub cur : ℕ

module _ {ℓ} {A : Type ℓ} where
  abbrev pub size : FixedBuffer A → ℕ
  size b = b.cur

  unfoldable pub reset : FixedBuffer A → FixedBuffer A
  reset b = record b { cur = 0 }

  -- The constructor, over an array whose elements C++ leaves as they are.
  unfoldable pub create : List A → FixedBuffer A
  unfolding reset
  create items = reset (record { items = items; cur = 0 })

-- A call of a method on a buffer of capacity `nm`.
module _ {ℓ} {A : Type ℓ} (nm : ℕ) where
  -- As the number that it is compared with, of type `std::size_t`.
  abbrev pub avail : FixedBuffer A → ℕ
  avail b = sub_size nm b.cur

  unfoldable pub add : FixedBuffer A → ℕ → Outcome (FixedBuffer A)
  add b len = do assert (ltb len (avail b)); ok (record b { cur = b.cur + len })

  unfoldable pub append_value : FixedBuffer A → A → Outcome (FixedBuffer A)
  append_value b value = do
    assert (ltb b.cur nm)
    accessible (ltb b.cur (length b.items))
    add (record b { items = set b.items b.cur value }) 1

  -- The branch for arithmetic types, and the loop for the others.
  unfoldable pub append_copy : FixedBuffer A → List A → Outcome (FixedBuffer A)
  append_copy b values = do
    accessible (leb (b.cur + length values) (length b.items))
    add (record b { items = overwrite b.items b.cur values }) (length values)

  unfoldable pub append_each : FixedBuffer A → List A → Outcome (FixedBuffer A)
  append_each b [] = ok b
  append_each b (value ∷ values) = append_value b value >>= λ b'. append_each b' values

  unfoldable pub append : Bool → FixedBuffer A → List A → Outcome (FixedBuffer A)
  append is_arithmetic b values = do assert (ltb (length values) (avail b)); by_kind is_arithmetic
    where
      by_kind : Bool → Outcome (FixedBuffer A)
      by_kind true = append_copy b values
      by_kind false = append_each b values
