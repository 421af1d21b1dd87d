-- ===== src/Container/FixedOStream/Tests.antt =====
-- The theorems on `FixedOStream` at an array of 48 characters, and what `<<` prints.
use clia.Prelude.{◌≡◌, refl, [], ◌∷◌, codes, replicate, overwrite, some, ok, ◌>>=◌, arith}
use clia.Container.FixedBuffer
use clia.Container.FixedBuffer.{FixedBuffer, append, append_copy, append_value, add, reset}
use clia.Container.FixedBuffer.Contents.{Holds, create-Holds}
use clia.Util.StrFunc.{pos, digits, print, convert}
use clia.Container.FixedOStream.{
  FixedOStream, create, str, put_string, put_char, put_integer, add_converted, format, vsnprintf,
  put_pointer,
}
use clia.Container.FixedOStream.Printing.{
  string, char, integer, put_all, spell_all, Agrees, put_all-Agrees,
}

abbrev empty : FixedOStream
empty = create (replicate 48 0)

empty-Holds : Holds 48 [] empty
unfolding create
empty-Holds = create-Holds 48 (replicate 48 0) refl (omega arith)

put_all-Agrees_example :
    Agrees 48
      (put_all 48 empty (string (some (codes "pid ")) ∷ integer (pos 17) ∷ char b'!' ∷ []))
      (spell_all 48 [] (string (some (codes "pid ")) ∷ integer (pos 17) ∷ char b'!' ∷ []))
put_all-Agrees_example =
    put_all-Agrees 48 (string (some (codes "pid ")) ∷ integer (pos 17) ∷ char b'!' ∷ []) empty []
      empty-Holds (tt, (omega arith, (tt, tt)))

put_all-str :
    (put_all 48 empty (string (some (codes "pid ")) ∷ integer (pos 17) ∷ char b'!' ∷ []) >>= λ s.
    ok (str s))
    ≡ ok (codes "pid 17!")
unfolding create FixedBuffer.create reset put_all put_string put_char put_integer add_converted
    append append_copy append_value add overwrite convert print digits
put_all-str = refl

-- With 31 characters free the number is left out.
put_all-str_full :
    (put_all 48 empty
        (string (some (codes "seventeen letters")) ∷ integer (pos 17) ∷ char b'!' ∷ [])
      >>= λ s. ok (str s))
    ≡ ok (codes "seventeen letters!")
unfolding create FixedBuffer.create reset put_all put_string put_char put_integer add_converted
    append append_copy append_value add overwrite convert
put_all-str_full = refl

-- The prefix of a pointer is printed twice where `%p` has one of its own.
put_pointer-str : (put_pointer 48 empty (codes "0x7f") >>= λ s. ok (str s)) ≡ ok (codes "0x0x7f")
unfolding create FixedBuffer.create reset put_pointer format vsnprintf add overwrite
put_pointer-str = refl
