-- ===== src/Util/CountDownLatch/Counting.antt =====
-- A `CountDownLatch` under any number of calls of `count_down`.
use clia.Prelude.{
  ℕ, zero, suc, ◌+◌, ◌≡◌, refl, Bool, true, false, ◌==◌, ltb, ok, err, Fault, Returns, arith,
}
use clia.Util.StrFunc.{pos, negsuc}
use clia.Util.CountDownLatch.{CountDownLatch, create, wait, count_down}

-- `k` calls, by whatever threads.
unfoldable pub count_down_all : ℕ → CountDownLatch → CountDownLatch
count_down_all zero s = s
count_down_all (suc k) s = count_down_all k (count_down s)

-- What a latch is after `k` of the `n` calls that it waits for, and after at least `n`.
abbrev pub Counted : Bool → CountDownLatch → Type 0
Counted true s = (wait s ≡ err Fault.bad_access) × (s.notified ≡ 0)
Counted false s = (wait s ≡ ok s) × (s.notified ≡ 1)

after_zero :
    (k i : ℕ) → Counted false (count_down_all k (record { count = negsuc i; notified = 1 }))
unfolding count_down_all count_down wait
after_zero zero i = (refl, refl)
after_zero (suc k) i = after_zero k (i + 1)

at_zero : (k : ℕ) → Counted false (count_down_all k (record { count = pos 0; notified = 1 }))
unfolding count_down_all count_down wait
at_zero zero = (refl, refl)
at_zero (suc k) = after_zero k 0

counting :
    (k n : ℕ)
    → Counted (ltb k (suc n)) (count_down_all k (record { count = pos (suc n); notified = 0 }))
unfolding count_down_all count_down wait
counting zero n = let before : ltb 0 (suc n) ≡ true = ground arith in rw before (refl, refl)
counting (suc k) zero = let over : ltb (suc k) 1 ≡ false = ground arith in rw over (at_zero k)
counting (suc k) (suc n) =
    let one_less : ltb (suc k) (suc (suc n)) ≡ ltb k (suc n) = ground arith in
    let more : (suc n == 0) ≡ false = ground arith in rw (one_less, more) (counting k n)

-- A latch that is made for `n` calls, of which `k` came: before the last a `wait` uses a null pointer and
-- nobody was notified; from the last on a `wait` returns at once, and all were notified, once. One that
-- is made for none fails its assertion.
pub count_down_all-Counted :
    (n k : ℕ)
    → Returns (create (pos (suc n))) (λ s. Counted (ltb k (suc n)) (count_down_all k s))
      × (create (pos zero) ≡ err Fault.assertion)
      × (create (negsuc n) ≡ err Fault.assertion)
unfolding create
count_down_all-Counted n k = (counting k n, refl, refl)
