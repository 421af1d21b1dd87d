-- ===== src/Prelude/Outcomes.antt =====
-- What a call of the C++ code can end in besides a value. The repository's Makefile builds with
-- `CMAKE_BUILD_TYPE=Debug`, where a failed `assert` stops the process.
use mathlib.Core.Path.{◌≡◌, refl, subst}
use mathlib.Core.Bool.{Bool, true, false}
use clia.Prelude.Tests.{if◌then◌else◌}

-- `assertion` is a failed `assert`; `bad_access` an access outside an array or through a null pointer,
-- which C++ leaves undefined; `length_error` the exception of a `std::vector` asked to outgrow `max_size()`;
-- `aborted` a call of `std::abort`, `division` one by zero.
pub data Fault : Type 0 where
  assertion bad_access length_error aborted division : Fault

pub data Outcome {ℓ} (A : Type ℓ) : Type ℓ where
  err : Fault → Outcome A
  ok : A → Outcome A

module _ {ℓ κ} {A : Type ℓ} {B : Type κ} where
  infixl 5 ◌>>=◌
  abbrev pub ◌>>=◌ : Outcome A → (A → Outcome B) → Outcome B
  err fault >>= next = err fault
  ok value >>= next = next value

module _ {κ} {B : Type κ} where
  infixl 5 ◌>>◌
  abbrev pub ◌>>◌ : Outcome (Unit {0}) → Outcome B → Outcome B
  first >> second = first >>= λ _. second

-- `assert(b)`
abbrev pub assert : Bool → Outcome (Unit {0})
assert true = ok tt
assert false = err Fault.assertion

-- An access whose condition is not met faults.
abbrev pub accessible : Bool → Outcome (Unit {0})
accessible true = ok tt
accessible false = err Fault.bad_access

-- The call ends without a fault, in a value that meets `P`.
abbrev pub Returns {ℓ} : {A : Type ℓ} → Outcome A → (A → Type 0) → Type 0
Returns (ok a) P = P a
Returns (err e) P = ⊥

-- A chain returns if its first step does, and the rest does from there.
pub Returns-bind {ℓ κ} :
    {A : Type ℓ} {B : Type κ} (m : Outcome A) (f : A → Outcome B) (P : A → Type 0) (Q : B → Type 0)
    → Returns m P
    → ((a : A) → P a → Returns (f a) Q)
    → Returns (m >>= f) Q
Returns-bind (ok a) f P Q h k = k a h
Returns-bind (err e) f P Q h k = h

-- A chain fails if its rest does, from wherever its first step leads.
pub Returns-err {ℓ κ} :
    {A : Type ℓ} {B : Type κ} (m : Outcome A) (f : A → Outcome B) (P : A → Type 0) {fault : Fault}
    → Returns m P
    → ((a : A) → P a → f a ≡ err fault)
    → (m >>= f) ≡ err fault
Returns-err (ok a) f P h k = k a h
Returns-err (err e) f P h k = absurd h

pub Returns-mono {ℓ} :
    {A : Type ℓ} (m : Outcome A) (P Q : A → Type 0)
    → Returns m P
    → ((a : A) → P a → Q a)
    → Returns m Q
Returns-mono (ok a) P Q h k = k a h
Returns-mono (err e) P Q h k = h

pub Returns-both {ℓ} :
    {A : Type ℓ} (m : Outcome A) (P Q : A → Type 0)
    → Returns m P
    → Returns m Q
    → Returns m (λ a. P a × Q a)
Returns-both (ok a) P Q h k = (h, k)
Returns-both (err e) P Q h k = h

pub Returns-if {ℓ} :
    {A : Type ℓ} (b : Bool) (m n : Outcome A) (P : A → Type 0)
    → Returns m P
    → Returns n P
    → Returns (if b then m else n) P
Returns-if true m n P h k = h
Returns-if false m n P h k = k

-- What holds of every result that the call may return holds of the one it returns.
pub Returns-also {ℓ} :
    {A : Type ℓ} (m : Outcome A) (P Q : A → Type 0)
    → Returns m P
    → ((a : A) → m ≡ ok a → Q a)
    → Returns m (λ a. P a × Q a)
Returns-also (ok a) P Q h k = (h, k a refl)
Returns-also (err e) P Q h k = h

-- What is known of the result of a call that returned.
pub Returns-ok {ℓ} :
    {A : Type ℓ} (m : Outcome A) (a : A) (P : A → Type 0) → Returns m P → m ≡ ok a → P a
Returns-ok m a P h e = subst (λ r. Returns r P) e h

-- A chain that came out well did so step by step.
pub ok-bind {ℓ κ} :
    {A : Type ℓ} {B : Type κ} (m : Outcome A) {f : A → Outcome B} {b : B}
    → (m >>= f) ≡ ok b
    → (a : A) × (m ≡ ok a) × (f a ≡ ok b)
ok-bind (err fault) h = cc
ok-bind (ok value) h = (value, refl, h)

pub >>=_assoc {ℓ κ μ} :
    {A : Type ℓ} {B : Type κ} {C : Type μ} (m : Outcome A) (f : A → Outcome B) (g : B → Outcome C)
    → ((m >>= f) >>= g) ≡ (m >>= λ a. f a >>= g)
>>=_assoc (ok a) f g = refl
>>=_assoc (err fault) f g = refl
