-- ===== src/Net/Buffer/Bytes.antt =====
-- The specification of a `Buffer`: the stream of bytes that its owner sees.
use clia.Prelude.{
  ℕ, ◌+◌, List, [], ◌∷◌, ◌++◌, length, take, drop, leb, Outcome, ok, ◌>>=◌, ◌>>◌, assert,
}

-- What the owner asks for: bytes in, some or all bytes out, and bytes out through a socket that
-- takes as many as it wants.
pub data Op : Type 0 where
  appends : List ℕ → Op
  takes : ℕ → Op
  takes_all : Op
  sends : ℕ → Op

-- Each call answers with the bytes that it hands out.
unfoldable pub step : List ℕ → Op → Outcome (List ℕ × List ℕ)
step q (appends d) = ok ([], q ++ d)
step q (takes n) = do assert (leb n (length q)); ok (take n q, drop n q)
step q takes_all = ok (q, [])
step q (sends n) = do assert (leb n (length q)); ok ([], drop n q)

unfoldable pub run : List ℕ → List Op → Outcome (List (List ℕ) × List ℕ)
run q [] = ok ([], q)
run q (o ∷ os) = step q o >>= λ r. run r.1 os >>= λ s. ok (r.0 ∷ s.0, s.1)

-- How many bytes the calls append.
abbrev pub appended : Op → ℕ
appended (appends d) = length d
appended (takes n) = 0
appended takes_all = 0
appended (sends n) = 0

abbrev pub total_appended : List Op → ℕ
total_appended [] = 0
total_appended (o ∷ os) = appended o + total_appended os
