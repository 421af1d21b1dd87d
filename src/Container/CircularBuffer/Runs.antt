-- ===== src/Container/CircularBuffer/Runs.antt =====
-- Sequences of calls on a `CircularBuffer`, and the bounded queue that they are held against.
use clia.Prelude.{
  ℕ, ◌≡◌, refl, ap, subst, Bool-cases, inl, inr, List, [], ◌∷◌, ◌++◌, length, ltb, if◌then◌else◌,
  Outcome, ok, err, Fault, ◌>>=◌, Returns, arith,
}
use clia.Container.CircularBuffer.{CircularBuffer, capacity, push_back, front, pop_front}
use clia.Container.CircularBuffer.Fifo.{
  Holds, push_back-Holds, pop_front-Holds, push_back_full, front_empty,
}

-- `takes` reads the front and pops it.
pub data Call (A : Type 0) : Type 0 where
  pushes : A → Call A
  takes : Call A

module _ {A : Type 0} where
  -- The elements that the calls hand out, and the buffer.
  unfoldable pub run : CircularBuffer A → List (Call A) → Outcome (List A × CircularBuffer A)
  run c [] = ok ([], c)
  run c (pushes a ∷ calls) = do c' ← push_back c a; run c' calls
  run c (takes ∷ calls) = do a ← front c; c' ← pop_front c; r ← run c' calls; ok (a ∷ r.0, r.1)

  -- The specification: a queue that holds at most `n` elements.
  unfoldable pub run_queue : ℕ → List A → List (Call A) → Outcome (List A × List A)
  run_queue n q [] = ok ([], q)
  run_queue n q (pushes a ∷ calls) =
      let rest = run_queue n (q ++ a ∷ []) calls in
      if ltb (length q) n then rest else err Fault.assertion
  run_queue n [] (takes ∷ calls) = err Fault.assertion
  run_queue n (a ∷ q) (takes ∷ calls) = do r ← run_queue n q calls; ok (a ∷ r.0, r.1)

  -- Both come to the same fault, or hand out the same elements and keep the same.
  abbrev pub Matches : Outcome (List A × CircularBuffer A) → Outcome (List A × List A) → Type 0
  Matches m (err fault) = m ≡ err fault
  Matches m (ok r) = Returns m (λ d. (d.0 ≡ r.0) × Holds r.1 d.1)

  Matches-take :
      (a : A) (m : Outcome (List A × CircularBuffer A)) (k : Outcome (List A × List A))
      → Matches m k
      → Matches (m >>= λ d. ok (a ∷ d.0, d.1)) (k >>= λ r. ok (a ∷ r.0, r.1))
  Matches-take a m (err fault) h = rw h refl
  Matches-take a (ok d) (ok r) (e, v) = (ap (◌∷◌ a) e, v)
  Matches-take a (err fault) (ok r) h = h

  Matches-bind :
      (m : Outcome (CircularBuffer A)) (f : CircularBuffer A → Outcome (List A × CircularBuffer A))
      (k : Outcome (List A × List A)) (P : CircularBuffer A → Type 0)
      → Returns m P
      → ((c : CircularBuffer A) → P c → Matches (f c) k)
      → Matches (m >>= f) k
  Matches-bind (ok c) f k P h g = g c h
  Matches-bind (err fault) f k P h g = absurd h

  -- On every sequence of calls the ring hands out what a queue of its capacity does, and stops at an
  -- assertion exactly where that queue is full or empty.
  pub run-Matches :
      (calls : List (Call A)) (q : List A) (c : CircularBuffer A)
      → Holds q c
      → Matches (run c calls) (run_queue (capacity c) q calls)
  unfolding run run_queue
  run-Matches [] q c v = (refl, v)
  run-Matches (pushes a ∷ calls) q c v = elim (Bool-cases (ltb (length q) (capacity c))) [
    | inl y ↦ rw y (
        Matches-bind (push_back c a) (λ d. run d calls) _ _ (push_back-Holds q c a v (ground arith))
          (λ d h.
            subst (λ n. Matches (run d calls) (run_queue n (q ++ a ∷ []) calls)) h.1
              (run-Matches calls (q ++ a ∷ []) d h.0)))
    | inr n ↦ rw (n, push_back_full q c a v (ground (arith, v.fits))) refl
  ]
  run-Matches (takes ∷ calls) [] c v = rw (front_empty c v).0 refl
  run-Matches (takes ∷ calls) (a ∷ q) c v =
      let (first, rest) = pop_front-Holds a q c v in
      rw first (
        Matches-bind (pop_front c) (λ d. run d calls >>= λ r. ok (a ∷ r.0, r.1)) _ _ rest
          (λ d h. Matches-take a (run d calls) (run_queue (capacity c) q calls) (
            subst (λ n. Matches (run d calls) (run_queue n q calls)) h.1
              (run-Matches calls q d h.0))))
