-- ===== src/Container/FixedOStream.antt =====
-- clia/clia/container/fixed_ostream.h: `FixedOStream<Nm>`, text that is printed into a `FixedBuffer`. The
-- texts that `snprintf` and `vsnprintf` make of a format and its arguments are arguments here.
pub mod Printing
mod Tests
use clia.Prelude.{
  ℕ, ◌-◌, ◌^◌, Bool, true, false, List, [], ◌∷◌, ◌++◌, length, take, overwrite, codes, Option, none,
  some, ◌==◌, if◌then◌else◌, Outcome, ok, err, Fault, ◌>>=◌,
}
use clia.Container.FixedBuffer
use clia.Container.FixedBuffer.{FixedBuffer, avail, add, append, append_value}
use clia.Util.StrFunc.{Integer, convert}

-- The one member, `buffer_`.
abbrev pub FixedOStream : Type 0
FixedOStream = FixedBuffer ℕ

unfoldable pub create : List ℕ → FixedOStream
create items = FixedBuffer.create items

-- The characters that are printed so far, as `data()` and `size()` give them.
abbrev pub str : FixedOStream → List ℕ
str s = take s.cur s.items

module _ (nm : ℕ) where
  -- What `vsnprintf(current(), avail(), …)` leaves in the array, where it makes `text`.
  unfoldable pub vsnprintf : FixedOStream → List ℕ → FixedOStream
  vsnprintf s text =
      if avail nm s == 0
      then s
      else record s { items = overwrite s.items s.cur (take (avail nm s - 1) text ++ 0 ∷ []) }

  -- `none` is an error of `vsnprintf`: it returns -1, which `add` takes as a `std::size_t`.
  unfoldable pub format : FixedOStream → Option (List ℕ) → Outcome FixedOStream
  unfolding vsnprintf
  format s none = add nm s (2 ^ 64 - 1)
  format s (some text) = add nm (vsnprintf s text) (length text)

  -- `text` is what `%p` prints.
  unfoldable pub put_pointer : FixedOStream → List ℕ → Outcome FixedOStream
  unfolding format
  put_pointer s text = format s (some (codes "0x" ++ text))

  -- `none` is a null pointer.
  unfoldable pub put_string : FixedOStream → Option (List ℕ) → Outcome FixedOStream
  put_string s none = append nm true s (codes "(null)")
  put_string s (some text) = append nm true s text

  unfoldable pub put_char : FixedOStream → ℕ → Outcome FixedOStream
  put_char s val = append_value nm s val

  -- For `float` and `double`; `text` is what `%.2f` prints.
  unfoldable pub put_double : FixedOStream → List ℕ → Outcome FixedOStream
  unfolding format
  put_double s text = format s (some text)

  -- The result of `convert`, which ends the text with a terminator.
  unfoldable pub add_converted : FixedOStream → Option (List ℕ) → Outcome FixedOStream
  add_converted s none = add nm s 0
  add_converted s (some text) =
      add nm (record s { items = overwrite s.items s.cur (text ++ 0 ∷ []) }) (length text)

  -- For the nine integer types.
  unfoldable pub put_integer : FixedOStream → Integer → Outcome FixedOStream
  unfolding add_converted
  put_integer s val = convert (avail nm s) val >>= λ text. add_converted s text

  -- For `std::string`.
  unfoldable pub put_text : FixedOStream → List ℕ → Outcome FixedOStream
  put_text s text = append nm true s text
