-- ===== src/Util/AtomLck/Exclusion.antt =====
-- Threads at an `AtomLck`: which are inside, and when one gets in.
use clia.Prelude.{
  ℕ, ◌≡◌, ◌≢◌, ◌⊎◌, inl, inr, refl, sym, ap, ◌∙◌, Bool, true, false, Bool-cases, List, [], ◌∷◌,
  ◌==◌, arith,
}
use clia.Util.AtomLck.{
  Phase, outside, spinning, inside, Threads, start, set_phase, turn, step_from, step, run,
}

-- The flag is set exactly while a thread is inside, and at most one is.
record IsKept (s : Threads) : Type 0 where
  single : (i j : ℕ) → s.phase i ≡ inside → s.phase j ≡ inside → i ≡ j
  flagged : (i : ℕ) → s.phase i ≡ inside → s.lock.lck ≡ true
  owned : s.lock.lck ≡ true → (i : ℕ) × (s.phase i ≡ inside)

place : (i j : ℕ) → (i ≡ j) ⊎ (i ≢ j)
place i j = omega arith

set_at : (f : ℕ → Phase) (i : ℕ) (p : Phase) → set_phase f i p i ≡ p
set_at f i p = let same : (i == i) ≡ true = ground arith in rw same refl

set_away : (f : ℕ → Phase) (i j : ℕ) (p : Phase) → i ≢ j → set_phase f i p j ≡ f j
set_away f i j p h = let other : (i == j) ≡ false = ground arith in rw other refl

-- A thread that is inside, if `i` was put elsewhere, was there before.
still_inside :
    (f : ℕ → Phase) (i j : ℕ) (p : Phase)
    → p ≢ inside
    → set_phase f i p j ≡ inside
    → (i ≢ j) × (f j ≡ inside)
still_inside f i j p n h = elim (place i j) [
  | inl e ↦ absurd (n (sym (set_at f i p) ∙ ap (set_phase f i p) e ∙ h))
  | inr d ↦ (d, sym (set_away f i j p d) ∙ h)
]

step_from-IsKept :
    (s : Threads) (i : ℕ) (p : Phase) → s.phase i ≡ p → IsKept s → IsKept (step_from s i p)
step_from-IsKept s i outside e v = record {
  single = λ j k h l.
      v.single j k (still_inside s.phase i j spinning (λ x. cc) h).1
        (still_inside s.phase i k spinning (λ x. cc) l).1;
  flagged = λ j h. v.flagged j (still_inside s.phase i j spinning (λ x. cc) h).1;
  owned = λ t.
      let (j, h) = v.owned t in
      (j, set_away s.phase i j spinning (λ x. cc (e, h, ap s.phase x)) ∙ h);
}
step_from-IsKept s i inside e v = record {
  single = λ j k h l.
      v.single j k (still_inside s.phase i j outside (λ x. cc) h).1
        (still_inside s.phase i k outside (λ x. cc) l).1;
  flagged = λ j h.
      let (d, g) = still_inside s.phase i j outside (λ x. cc) h in absurd (d (v.single i j e g));
  owned = λ t. absurd (cc t);
}
step_from-IsKept s i spinning e v = turned s.lock.lck refl
  where
    none_inside : s.lock.lck ≡ false → (j : ℕ) → s.phase j ≢ inside
    none_inside f j h = cc (sym f ∙ v.flagged j h)

    only : (f : s.lock.lck ≡ false) (j : ℕ) → set_phase s.phase i inside j ≡ inside → i ≡ j
    only f j h = elim (place i j) [
      | inl same ↦ same
      | inr d ↦ absurd (none_inside f j (sym (set_away s.phase i j inside d) ∙ h))
    ]

    turned : (b : Bool) → s.lock.lck ≡ b → IsKept (turn s i (b, record { lck = true }))
    turned true t = record { single = v.single; flagged = λ j h. refl; owned = λ _. v.owned t }
    turned false f = record {
      single = λ j k h l. sym (only f j h) ∙ only f k l;
      flagged = λ j h. refl;
      owned = λ _. (i, set_at s.phase i inside);
    }

run-IsKept : (schedule : List ℕ) (s : Threads) → IsKept s → IsKept (run s schedule)
unfolding run step
run-IsKept [] s v = v
run-IsKept (i ∷ schedule) s v =
    run-IsKept schedule (step s i) (step_from-IsKept s i (s.phase i) refl v)

start-IsKept : IsKept start
start-IsKept = record { single = λ i j h l. cc; flagged = λ i h. cc; owned = λ t. absurd (cc t) }

-- However the threads step, two are never inside at once.
pub mutual_exclusion :
    (schedule : List ℕ) (i j : ℕ)
    → (run start schedule).phase i ≡ inside
    → (run start schedule).phase j ≡ inside
    → i ≡ j
mutual_exclusion schedule i j h l = (run-IsKept schedule start start-IsKept).single i j h l

-- However the threads have stepped, as long as none is inside, a thread that spins is inside after its next
-- step: the flag is not left set.
pub step-inside :
    (schedule : List ℕ) (i : ℕ)
    → ((j : ℕ) → (run start schedule).phase j ≢ inside)
    → (run start schedule).phase i ≡ spinning
    → (step (run start schedule) i).phase i ≡ inside
unfolding step
step-inside schedule i free h = elim (Bool-cases (run start schedule).lock.lck) [
  | inl t ↦ let (j, k) = (run-IsKept schedule start start-IsKept).owned t in absurd (free j k)
  | inr f ↦ rw (h, f) (set_at (run start schedule).phase i inside)
]
