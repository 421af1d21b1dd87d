-- ===== src/Reactor/EventLoopThreadPool/RoundRobin.antt =====
-- The order in which the pool hands out its loops.
use clia.Prelude.{
  ℕ, zero, suc, ◌+◌, ◌≡◌, refl, subst, Bool, true, false, List, [], ◌∷◌, ◌++◌, append_assoc, length,
  length-append, get_elem?, some, leb, ◌==◌, if◌then◌else◌, Outcome, ok, ◌>>=◌, Returns, arith,
}
use clia.Reactor.EventLoopThreadPool.{
  EventLoopThreadPool, start, start_threads, create, set_thread_num, pick, get_next_loop,
  get_all_loops,
}

-- `n` calls of `get_next_loop`, with what they return.
pub get_loops : ℕ → EventLoopThreadPool → Outcome (List ℕ × EventLoopThreadPool)
get_loops zero s = ok ([], s)
get_loops (suc n) s = do
  (loop, s') ← get_next_loop true s
  (loops, s'') ← get_loops n s'
  ok (loop ∷ loops, s'')

get_elem?-at :
    (before : List ℕ) (l : ℕ) (after : List ℕ)
    → get_elem? (before ++ l ∷ after) (length before) ≡ some l
get_elem?-at [] l after = refl
get_elem?-at (x ∷ before) l after = get_elem?-at before l after

-- A pool that was started, with the loops that it has and the index of the next.
abbrev pub running : ℕ → ℕ → List ℕ → List ℕ → ℕ → EventLoopThreadPool
running base num called loops next = record {
  base_loop = base;
  started = true;
  num_threads = num;
  next = next;
  loops = loops;
  called = called;
}

module _ (base num : ℕ) (called : List ℕ) where
  get_next_loop-at :
      (loops : List ℕ) (i l : ℕ)
      → (length loops == 0) ≡ false
      → get_elem? loops i ≡ some l
      → get_next_loop true (running base num called loops i)
        ≡ ok (l, running base num called loops (if leb (length loops) (i + 1) then 0 else i + 1))
  unfolding get_next_loop pick
  get_next_loop-at loops i l h k = rw (h, k) refl

  -- From the loop at `next` on, the calls hand out the loops up to the last, and return to the first.
  get_loops-rest :
      (before after : List ℕ) (l : ℕ)
      → get_loops
          (length (l ∷ after))
          (running base num called (before ++ l ∷ after) (length before))
        ≡ ok (l ∷ after, running base num called (before ++ l ∷ after) 0)
  unfolding get_loops
  get_loops-rest before [] l =
      let one : (length (before ++ l ∷ []) == 0) ≡ false =
        ground (arith, length-append before (l ∷ [])) in
      let last : leb (length (before ++ l ∷ [])) (length before + 1) ≡ true =
        ground (arith, length-append before (l ∷ [])) in
      rw
        (get_next_loop-at (before ++ l ∷ []) (length before) l one (get_elem?-at before l []), last)
        refl
  get_loops-rest before (k ∷ after) l =
      let some_loops : (length (before ++ l ∷ k ∷ after) == 0) ≡ false =
        ground (arith, length-append before (l ∷ k ∷ after)) in
      let more : leb (length (before ++ l ∷ k ∷ after)) (length before + 1) ≡ false =
        ground (arith, length-append before (l ∷ k ∷ after)) in
      let next_rest =
        subst
          (λ n.
            get_loops (length (k ∷ after)) (running base num called (before ++ l ∷ k ∷ after) n)
            ≡ ok (k ∷ after, running base num called (before ++ l ∷ k ∷ after) 0))
          (length-append before (l ∷ []))
          (subst
            (λ ls.
              get_loops (length (k ∷ after))
                (running base num called ls (length (before ++ l ∷ [])))
              ≡ ok (k ∷ after, running base num called ls 0))
            (append_assoc before (l ∷ []) (k ∷ after))
            (get_loops-rest (before ++ l ∷ []) after k)) in
      rw
        (
          get_next_loop-at (before ++ l ∷ k ∷ after) (length before) l some_loops
              (get_elem?-at before l (k ∷ after)),
          more,
          next_rest,
        )
        refl

-- Both answers of a pool that hands out `loops` in a round and is then as it was.
pub Rounds : List ℕ → EventLoopThreadPool → Type 0
Rounds loops s = (get_loops (length loops) s ≡ ok (loops, s)) × (get_all_loops true s ≡ ok loops)

-- A pool that is started with `n + 1` threads hands out each of their loops once, in their order, in
-- `n + 1` calls, after which it is as before; and get_all_loops names the same loops.
pub each_loop_once :
    (base n : ℕ) (start_loop : ℕ → ℕ) (has_callback : Bool)
    → Returns
        (start true (set_thread_num (create base) (suc n)) start_loop has_callback)
        (Rounds (start_threads start_loop 0 (suc n)))
unfolding start set_thread_num create start_threads get_all_loops Rounds
each_loop_once base n start_loop has_callback =
    let more : (suc n == 0) ≡ false = ground arith in
    let some_loops : (suc (length (start_threads start_loop 1 n)) == 0) ≡ false = ground arith in
    rw (more, some_loops)
      (get_loops-rest base (suc n) [] [] (start_threads start_loop 1 n) (start_loop 0), refl)
