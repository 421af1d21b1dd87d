-- ===== src/Net/TcpServer/Counts.antt =====
-- What becomes of a connection, counted in the map of a server and in the tasks that it handed over.
use clia.Prelude.{
  ℕ, ◌+◌, ◌-◌, ◌≤◌, ◌≡◌, refl, ap, subst, Bool, true, false, Bool-cases, inl, inr, List, [], ◌∷◌,
  ◌++◌, ltb, ◌==◌, arith,
}
use clia.Net.TcpServer.{
  Connection, Task, establishes, destroys, removes, listens, find, insert, erase, is_same,
  destroys_all,
}

abbrev pub one_if : Bool → ℕ
one_if true = 1
one_if false = 0

-- How often the connection with the number `i` is in the map.
unfoldable pub mapped : ℕ → List Connection → ℕ
mapped i [] = 0
mapped i (c ∷ cs) = one_if (c.id == i) + mapped i cs

-- How often it was handed to a loop to be established, and to be destroyed.
unfoldable pub established : ℕ → List (ℕ × Task) → ℕ
established i [] = 0
established i ((l, establishes c) ∷ ts) = one_if (c.id == i) + established i ts
established i ((l, destroys c) ∷ ts) = established i ts
established i ((l, removes c) ∷ ts) = established i ts
established i ((l, listens) ∷ ts) = established i ts

unfoldable pub destroyed : ℕ → List (ℕ × Task) → ℕ
destroyed i [] = 0
destroyed i ((l, establishes c) ∷ ts) = destroyed i ts
destroyed i ((l, destroys c) ∷ ts) = one_if (c.id == i) + destroyed i ts
destroyed i ((l, removes c) ∷ ts) = destroyed i ts
destroyed i ((l, listens) ∷ ts) = destroyed i ts

pub established-append :
    (i : ℕ) (ts us : List (ℕ × Task))
    → established i (ts ++ us) ≡ established i ts + established i us
unfolding established
established-append i [] us = omega arith
established-append i ((l, establishes c) ∷ ts) us = omega (arith, established-append i ts us)
established-append i ((l, destroys c) ∷ ts) us = established-append i ts us
established-append i ((l, removes c) ∷ ts) us = established-append i ts us
established-append i ((l, listens) ∷ ts) us = established-append i ts us

pub destroyed-append :
    (i : ℕ) (ts us : List (ℕ × Task)) → destroyed i (ts ++ us) ≡ destroyed i ts + destroyed i us
unfolding destroyed
destroyed-append i [] us = omega arith
destroyed-append i ((l, establishes c) ∷ ts) us = destroyed-append i ts us
destroyed-append i ((l, destroys c) ∷ ts) us = omega (arith, destroyed-append i ts us)
destroyed-append i ((l, removes c) ∷ ts) us = destroyed-append i ts us
destroyed-append i ((l, listens) ∷ ts) us = destroyed-append i ts us

pub mapped-insert :
    (i : ℕ) (cs : List Connection) (c : Connection)
    → mapped i (insert cs c) ≡ one_if (c.id == i) + mapped i cs
unfolding mapped
mapped-insert i [] c = refl
mapped-insert i (d ∷ cs) c = elim (Bool-cases (ltb c.fd d.fd)) [
  | inl y ↦ rw y refl
  | inr n ↦ rw n (omega (arith, mapped-insert i cs c))
]

pub mapped-erase :
    (i : ℕ) (cs : List Connection) (c : Connection)
    → is_same (find cs c.fd) c ≡ true
    → mapped i cs ≡ one_if (c.id == i) + mapped i (erase cs c.fd)
unfolding mapped
mapped-erase i [] c h = cc
mapped-erase i (d ∷ cs) c h = elim (Bool-cases (d.fd == c.fd)) [
  | inl y ↦ rw y (same d.id c.id (rw y at h))
  | inr n ↦ rw n (omega (arith, mapped-erase i cs c (rw n at h)))
]
  where
    same :
        (a b : ℕ) → (a == b) ≡ true → one_if (a == i) + mapped i cs ≡ one_if (b == i) + mapped i cs
    same a b e = ap (λ x. one_if (x == i) + mapped i cs) (ground arith)

pub mapped-destroys_all :
    (i : ℕ) (cs : List Connection) → destroyed i (destroys_all cs) ≡ mapped i cs
unfolding mapped destroyed
mapped-destroys_all i [] = refl
mapped-destroys_all i (c ∷ cs) = ap (◌+◌ (one_if (c.id == i))) (mapped-destroys_all i cs)

pub established-destroys_all : (i : ℕ) (cs : List Connection) → established i (destroys_all cs) ≡ 0
unfolding established
established-destroys_all i [] = refl
established-destroys_all i (c ∷ cs) = established-destroys_all i cs

-- The tasks for the connection `i`, of which `n` are established: none is destroyed that is not
-- established before.
unfoldable pub InOrder : ℕ → ℕ → List (ℕ × Task) → Type 0
InOrder i n [] = Unit {0}
InOrder i n ((l, establishes c) ∷ ts) = InOrder i (n + one_if (c.id == i)) ts
InOrder i n ((l, destroys c) ∷ ts) =
    (one_if (c.id == i) ≤ n) × InOrder i (n - one_if (c.id == i)) ts
InOrder i n ((l, removes c) ∷ ts) = InOrder i n ts
InOrder i n ((l, listens) ∷ ts) = InOrder i n ts

pub append-InOrder :
    (i n m : ℕ) (ts us : List (ℕ × Task))
    → InOrder i n ts
    → InOrder i m us
    → m + destroyed i ts ≡ n + established i ts
    → InOrder i n (ts ++ us)
unfolding InOrder destroyed established
append-InOrder i n m [] us h k e = subst (λ x. InOrder i x us) (omega arith) k
append-InOrder i n m ((l, establishes c) ∷ ts) us h k e =
    append-InOrder i (n + one_if (c.id == i)) m ts us h k (omega arith)
append-InOrder i n m ((l, destroys c) ∷ ts) us (a, h) k e =
    (a, append-InOrder i (n - one_if (c.id == i)) m ts us h k (omega arith))
append-InOrder i n m ((l, removes c) ∷ ts) us h k e = append-InOrder i n m ts us h k e
append-InOrder i n m ((l, listens) ∷ ts) us h k e = append-InOrder i n m ts us h k e

pub destroys_all-InOrder :
    (i n : ℕ) (cs : List Connection) → mapped i cs ≤ n → InOrder i n (destroys_all cs)
unfolding InOrder mapped
destroys_all-InOrder i n [] h = tt
destroys_all-InOrder i n (c ∷ cs) h =
    (omega arith, destroys_all-InOrder i (n - one_if (c.id == i)) cs (omega arith))
