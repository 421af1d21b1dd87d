-- ===== src/Container/BoundedBlockingQueue/Waiting.antt =====
-- When `put` and `take` wait.
use clia.Prelude.{
  ◌<◌, ◌≡◌, refl, Bool, Bool-cases, inl, inr, ◌==◌, Outcome, true, false, List, [], ◌∷◌, ◌++◌,
  length, Option, none, some, ok, err, Fault, Returns, Returns-bind, arith,
}
use clia.Container.CircularBuffer.{capacity, full, push_back, pop_front}
use clia.Container.CircularBuffer.Fifo.{Holds, push_back-Holds, pop_front-Holds, front_empty}
use clia.Container.BoundedBlockingQueue.{BoundedBlockingQueue, put, take}

module _ {A : Type 0} where
  -- The call went on, and left the elements `q`.
  abbrev pub Left : List A → Option (BoundedBlockingQueue A) → Type 0
  Left q none = ⊥
  Left q (some s) = Holds q s.buffer

  abbrev pub Took : A → List A → Option (A × BoundedBlockingQueue A) → Type 0
  Took a q none = ⊥
  Took a q (some (b, s)) = (b ≡ a) × Holds q s.buffer

  -- Below its capacity the queue takes an element at its end.
  pub put-Left :
      (q : List A) (s : BoundedBlockingQueue A) (a : A)
      → Holds q s.buffer
      → length q < capacity s.buffer
      → Returns (put s a) (Left (q ++ a ∷ []))
  unfolding put
  put-Left q s a v h =
      let room : full s.buffer ≡ false = ground (arith, v.count) in
      rw room
        (Returns-bind (push_back s.buffer a) _ _ _ (push_back-Holds q s.buffer a v h) (λ c k. k.0))

  -- Below its capacity the queue hands out its oldest element.
  pub take-Took :
      (a : A) (q : List A) (s : BoundedBlockingQueue A)
      → Holds (a ∷ q) s.buffer
      → length (a ∷ q) < capacity s.buffer
      → Returns (take s) (Took a q)
  unfolding take
  take-Took a q s v h =
      let room : full s.buffer ≡ false = ground (arith, v.count) in
      let (first, rest) = pop_front-Holds a q s.buffer v in
      rw (room, first) (Returns-bind (pop_front s.buffer) _ _ _ rest (λ c k. (refl, k.0)))

  -- A full queue is stuck: whoever puts waits, and so does whoever takes.
  pub stuck_full :
      (q : List A) (s : BoundedBlockingQueue A) (a : A)
      → Holds q s.buffer
      → length q ≡ capacity s.buffer
      → (put s a ≡ ok none) × (take s ≡ ok none)
  unfolding put take
  stuck_full q s a v h =
      let no_room : full s.buffer ≡ true = ground (arith, v.count) in rw no_room (refl, refl)

  -- Taking from an empty queue does not wait, but fails an assertion.
  pub take_empty :
      (s : BoundedBlockingQueue A)
      → Holds [] s.buffer
      → 0 < capacity s.buffer
      → take s ≡ err Fault.assertion
  unfolding take
  take_empty s v h =
      let room : full s.buffer ≡ false = ground (arith, v.count) in
      rw (room, (front_empty s.buffer v).0) refl

  -- What `put` comes to, by whether the queue is full.
  abbrev pub Puts : Bool → List A → A → Outcome (Option (BoundedBlockingQueue A)) → Type 0
  Puts true q a m = m ≡ ok none
  Puts false q a m = Returns m (Left (q ++ a ∷ []))

  -- What `take` comes to.
  abbrev pub Takes : Bool → List A → Outcome (Option (A × BoundedBlockingQueue A)) → Type 0
  Takes true q m = m ≡ ok none
  Takes false [] m = m ≡ err Fault.assertion
  Takes false (a ∷ q) m = Returns m (Took a q)

  -- On a queue with a capacity: when it is full, a put and a take both wait; below, a put adds an element
  -- behind the others, a take hands out the oldest and keeps the others, and on an empty queue it does not
  -- wait but fails an assertion.
  pub put-take :
      (q : List A) (s : BoundedBlockingQueue A) (a : A)
      → Holds q s.buffer
      → 0 < capacity s.buffer
      → Puts (length q == capacity s.buffer) q a (put s a)
        × Takes (length q == capacity s.buffer) q (take s)
  put-take q s a v h = elim (Bool-cases (length q == capacity s.buffer)) [
    | inl y ↦ let stuck = stuck_full q s a v (ground arith) in rw y stuck
    | inr n ↦
        let room : length q < capacity s.buffer = ground (arith, v) in
        rw n (put-Left q s a v room, taken q v room)
  ]
    where
      taken :
          (q : List A) → Holds q s.buffer → length q < capacity s.buffer → Takes false q (take s)
      taken [] v l = take_empty s v h
      taken (b ∷ q) v l = take-Took b q s v l
