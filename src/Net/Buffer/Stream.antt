-- ===== src/Net/Buffer/Stream.antt =====
-- A `Buffer` as the stream of bytes that its owner sees: the specification and the refinement.
use clia.Prelude.{
  ℕ, ◌+◌, ◌≤◌, ◌≡◌, refl, List, [], ◌∷◌, ◌++◌, length, take, drop, leb, some, Outcome, ok, err,
  Returns, ◌>>=◌, arith, max_size, inl, inr, Bool-cases, ap₂, take-all, drop-all, Returns-mono,
}
use clia.Net.Buffer.{
  Buffer, append, retrieve_as_string, retrieve_all_as_string, write_fd, retrieve, readable_bytes,
}
use clia.Net.Buffer.Bytes
use clia.Net.Buffer.Bytes.{Op, appends, takes, takes_all, sends, appended, total_appended}
use clia.Net.Buffer.Bounds.{Holds, Grown, sizes}
use clia.Net.Buffer.Contents.{
  append-Holds, retrieve_as_string-Holds, retrieve_as_string-beyond, retrieve-Holds,
  retrieve_beyond,
}

-- The code.
pub step : Buffer → Op → Outcome (List ℕ × Buffer)
step b (appends d) = append b d >>= λ b'. ok ([], b')
step b (takes n) = retrieve_as_string b n
step b takes_all = retrieve_all_as_string b
step b (sends n) = write_fd b (some n) >>= λ b'. ok ([], b')

pub run : Buffer → List Op → Outcome (List (List ℕ) × Buffer)
run b [] = ok ([], b)
run b (o ∷ os) = step b o >>= λ r. run r.1 os >>= λ s. ok (r.0 ∷ s.0, s.1)

-- Both end in the same answers, the buffer holding the stream in a vector at most `n` bytes larger
-- than that of `b`, or both end in the same fault.
abbrev pub Agrees : {A : Type 0} → Buffer → ℕ → Outcome (A × List ℕ) → Outcome (A × Buffer) → Type 0
Agrees b n (ok (a, q)) (ok (a', b')) = (a' ≡ a) × Grown b q n b'
Agrees b n (ok (a, q)) (err e) = ⊥
Agrees b n (err f) (ok (a', b')) = ⊥
Agrees b n (err f) (err e) = e ≡ f

answers :
    (b : Buffer) (q : List ℕ) (n : ℕ) (m : Outcome Buffer)
    → Returns m (Grown b q n)
    → Agrees {A = List ℕ} b n (ok ([], q)) (m >>= λ b'. ok ([], b'))
answers b q n (ok b') k = (refl, k)
answers b q n (err e) k = k

taken :
    (b : Buffer) (a q : List ℕ) (m : Outcome (List ℕ × Buffer))
    → Returns m (λ r. (r.0 ≡ a) × Holds q r.1 × (length r.1.buffer ≡ length b.buffer))
    → Agrees b 0 (ok (a, q)) m
taken b a q (ok r) k = (k.0, record { held = k.1; growth = omega (arith, k.2) })
taken b a q (err e) k = k

step-Agrees :
    (o : Op) (b : Buffer) (q : List ℕ)
    → Holds q b
    → length b.buffer + appended o ≤ max_size
    → Agrees b (appended o) (Bytes.step q o) (step b o)
unfolding Bytes.step step retrieve_all_as_string write_fd
step-Agrees (appends d) b q v h =
    answers b (q ++ d) (length d) (append b d) (append-Holds b q d v (omega (arith, v.valid)))
step-Agrees (takes n) b q v h = elim (Bool-cases (leb n (length q))) [
  | inl e ↦ rw e (taken b (take n q) (drop n q) _ (retrieve_as_string-Holds b q n v (ground arith)))
  | inr e ↦ rw (e, retrieve_as_string-beyond b q n v (ground arith)) refl
]
step-Agrees takes_all b q v h = taken b q [] (retrieve_as_string b (readable_bytes b)) (
    rw (sizes b v.valid).0 (
      rw v.bytes (
        all_taken (retrieve_as_string b (length q))
          (retrieve_as_string-Holds b q (length q) v (omega arith)))))
  where
    all_taken :
        (m : Outcome (List ℕ × Buffer))
        → Returns m (λ r.
          (r.0 ≡ take (length q) q)
          × Holds (drop (length q) q) r.1
          × (length r.1.buffer ≡ length b.buffer))
        → Returns m (λ r. (r.0 ≡ q) × Holds [] r.1 × (length r.1.buffer ≡ length b.buffer))
    all_taken m =
        rw (take-all (length q) q (omega arith), drop-all (length q) q (omega arith)) (λ k. k)
step-Agrees (sends n) b q v h = elim (Bool-cases (leb n (length q))) [
  | inl e ↦ rw e (
      answers b (drop n q) 0 (retrieve b n) (
        Returns-mono _ _ (Grown b (drop n q) 0) (retrieve-Holds b q n v (ground arith))
          (λ b' k. record { held = k.0; growth = omega (arith, k.1) })))
  | inr e ↦ rw (e, retrieve_beyond b q n v (ground arith)) refl
]

-- One more answer in front of the others.
cons-Agrees :
    (b b' : Buffer) (m n : ℕ) (a a' : List ℕ) (s : Outcome (List (List ℕ) × List ℕ))
    (r : Outcome (List (List ℕ) × Buffer))
    → a' ≡ a
    → length b'.buffer ≤ length b.buffer + m
    → Agrees b' n s r
    → Agrees b (m + n) (s >>= λ s. ok (a ∷ s.0, s.1)) (r >>= λ s. ok (a' ∷ s.0, s.1))
cons-Agrees b b' m n a a' (ok (xs, q)) (ok (xs', c)) e l k =
    (ap₂ ◌∷◌ e k.0, record { held = k.1.held; growth = omega (arith, k.1.growth) })
cons-Agrees b b' m n a a' (ok s) (err f) e l k = absurd k
cons-Agrees b b' m n a a' (err f) (ok r) e l k = absurd k
cons-Agrees b b' m n a a' (err f) (err g) e l k = k

-- As long as the bytes appended fit into the largest vector, any sequence of calls on a valid buffer
-- answers as the stream of the bytes that it holds does, call by call, stops at the same assertion
-- if one call asks for more bytes than there are, and leaves the buffer valid and holding the
-- stream's bytes.
pub run-Agrees :
    (os : List Op) (b : Buffer) (q : List ℕ)
    → Holds q b
    → length b.buffer + total_appended os ≤ max_size
    → Agrees b (total_appended os) (Bytes.run q os) (run b os)
unfolding Bytes.run run
run-Agrees [] b q v h = (refl, record { held = v; growth = omega arith })
run-Agrees (o ∷ os) b q v h =
    go (Bytes.step q o) (step b o) (step-Agrees o b q v (omega arith)) (run-Agrees os)
  where
    go :
        (s : Outcome (List ℕ × List ℕ)) (r : Outcome (List ℕ × Buffer))
        → Agrees b (appended o) s r
        → ((b' : Buffer) (p : List ℕ)
            → Holds p b'
            → length b'.buffer + total_appended os ≤ max_size
            → Agrees b' (total_appended os) (Bytes.run p os) (run b' os))
        → Agrees b
            (total_appended (o ∷ os))
            (s >>= λ r. Bytes.run r.1 os >>= λ s. ok (r.0 ∷ s.0, s.1))
            (r >>= λ r. run r.1 os >>= λ s. ok (r.0 ∷ s.0, s.1))
    go (ok (a, p)) (ok (a', b')) k ih =
        cons-Agrees b b' (appended o) (total_appended os) a a' (Bytes.run p os) (run b' os) k.0
          k.1.growth (ih b' p k.1.held (omega (arith, k.1.growth)))
    go (ok s) (err e) k ih = absurd k
    go (err f) (ok r) k ih = absurd k
    go (err f) (err e) k ih = k
