-- ===== src/Log/AsyncLogger/Delivery.antt =====
-- One iteration of `sync_thread`: what it takes over from the producers, and what the appender gets.
use clia.Prelude.{
  ℕ, zero, suc, ◌+◌, ◌-◌, ◌≤◌, ◌<◌, ◌≡◌, refl, sym, ap, ◌∙◌, ◌≢◌, true, Option, none, some, List,
  [], ◌∷◌, ◌++◌, length, take, ltb, append_assoc, append-nil, Returns, Returns-bind, arith,
  length-append, Bool-cases, inl, inr, if◌then◌else◌, length-take, ◌==◌, not,
}
use clia.Container.FixedBuffer
use clia.Container.FixedBuffer.Contents.{contents, IsValid, size-length, reset-Holds}
use clia.Log.AsyncLogger.{
  AsyncLogger, Buffer, Worker, Call, appends, flushes, hand_over, swap_from, swap, pop_back, refill,
  write_all, cut, write_out, is_blank, is_empty,
}
use clia.Log.AsyncLogger.Buffers.{
  all_bytes, bytes_of, pending, all_bytes-append, AllValid, Points, MaybeBlank, Blank, IsSound,
  AllValid-append,
}

-- The bytes that an appender got.
abbrev pub delivered : List Call → List ℕ
delivered [] = []
delivered (appends bytes ∷ cs) = bytes ++ delivered cs
delivered (flushes ∷ cs) = delivered cs

pub delivered-append : (cs ds : List Call) → delivered (cs ++ ds) ≡ delivered cs ++ delivered ds
delivered-append [] ds = refl
delivered-append (appends bytes ∷ cs) ds =
    ap (◌++◌ bytes) (delivered-append cs ds)
    ∙ sym (append_assoc bytes (delivered cs) (delivered ds))
delivered-append (flushes ∷ cs) ds = delivered-append cs ds

-- The variables of `sync_thread` at the head of its loop, and behind the swap.
pub record IsRested (nm : ℕ) (w : Worker) : Type 0 where
  pub first : Blank nm w.new_buffer1
  pub second : Blank nm w.new_buffer2
  pub written : w.write_buffers ≡ []

pub record IsBusy (nm : ℕ) (w : Worker) : Type 0 where
  pub first : w.new_buffer1 ≡ none
  pub second : MaybeBlank nm w.new_buffer2
  pub valid : AllValid nm w.write_buffers
  pub enough : w.new_buffer2 ≡ none → 2 ≤ length w.write_buffers
  pub nonempty : 1 ≤ length w.write_buffers

-- Everything that was pending is taken over, in order.
pub record Swapped (nm : ℕ) (s : AsyncLogger) (r : AsyncLogger × Worker) : Type 0 where
  pub sound : IsSound nm r.0
  pub emptied : pending r.0 ≡ []
  pub busy : IsBusy nm r.1
  pub taken : all_bytes r.1.write_buffers ≡ pending s

is_blank-Blank : (nm : ℕ) (o : Option Buffer) → Blank nm o → is_blank o ≡ true
is_blank-Blank nm none h = absurd h
is_blank-Blank nm (some b) h = ground (arith, size-length nm b h.valid, ap length h.elements)

Blank-ne-none : (nm : ℕ) (o : Option Buffer) → Blank nm o → o ≢ none
Blank-ne-none nm none h e = h
Blank-ne-none nm (some b) h e = cc

Blank-MaybeBlank : (nm : ℕ) (o : Option Buffer) → Blank nm o → MaybeBlank nm o
Blank-MaybeBlank nm none h = tt
Blank-MaybeBlank nm (some b) h = h

pub bytes_of-Blank : (nm : ℕ) (o : Option Buffer) → Blank nm o → bytes_of o ≡ []
bytes_of-Blank nm none h = refl
bytes_of-Blank nm (some b) h = h.elements

Points-Blank : (nm : ℕ) (o : Option Buffer) → Blank nm o → Points nm o
Points-Blank nm none h = h
Points-Blank nm (some b) h = h.valid

length_pos : (bs : List Buffer) → bs ≢ [] → 1 ≤ length bs
length_pos [] h = absurd (h refl)
length_pos (b ∷ bs) h = omega arith

all_taken :
    (s : AsyncLogger) (b : Buffer)
    → s.current ≡ some b
    → all_bytes (s.buffers ++ b ∷ []) ≡ pending s
all_taken s b c = rw (c, all_bytes-append s.buffers (b ∷ []), append-nil (contents b))

hand_over-Swapped :
    (nm : ℕ) (s : AsyncLogger) (w : Worker) (o : Option Buffer) (b : Buffer)
    → s.next ≡ o
    → IsSound nm s
    → IsRested nm w
    → s.current ≡ some b
    → let (n, p) = hand_over o w.new_buffer2 in
      Swapped nm s (
        record s { current = w.new_buffer1; next = n; buffers = [] },
        record { new_buffer1 = none; new_buffer2 = p; write_buffers = s.buffers ++ b ∷ [] },
      )
unfolding hand_over
hand_over-Swapped nm s w none b e v r c = record {
  sound = record {
    current_valid = Points-Blank nm w.new_buffer1 r.first;
    next_blank = Blank-MaybeBlank nm w.new_buffer2 r.second;
    buffers_valid = tt;
    spare_waits = λ f. absurd (Blank-ne-none nm w.new_buffer2 r.second f);
    current_used = λ h. absurd (h refl);
  };
  emptied = bytes_of-Blank nm w.new_buffer1 r.first;
  busy = record {
    first = refl;
    second = tt;
    valid = AllValid-append nm s.buffers b v.buffers_valid (rw c at v.current_valid);
    enough = λ _.
        omega (arith, length-append s.buffers (b ∷ []), length_pos s.buffers (v.spare_waits e));
    nonempty = omega (arith, length-append s.buffers (b ∷ []));
  };
  taken = all_taken s b c;
}
hand_over-Swapped nm s w (some n) b e v r c = record {
  sound = record {
    current_valid = Points-Blank nm w.new_buffer1 r.first;
    next_blank = rw e at v.next_blank;
    buffers_valid = tt;
    spare_waits = λ f. cc;
    current_used = λ h. absurd (h refl);
  };
  emptied = bytes_of-Blank nm w.new_buffer1 r.first;
  busy = record {
    first = refl;
    second = Blank-MaybeBlank nm w.new_buffer2 r.second;
    valid = AllValid-append nm s.buffers b v.buffers_valid (rw c at v.current_valid);
    enough = λ f. absurd (Blank-ne-none nm w.new_buffer2 r.second f);
    nonempty = omega (arith, length-append s.buffers (b ∷ []));
  };
  taken = all_taken s b c;
}

swap_from-Swapped :
    (nm : ℕ) (s : AsyncLogger) (w : Worker) (o : Option Buffer)
    → s.current ≡ o
    → IsSound nm s
    → IsRested nm w
    → Returns (swap_from s w o) (Swapped nm s)
unfolding swap_from
swap_from-Swapped nm s w none e v r = absurd (rw e at v.current_valid)
swap_from-Swapped nm s w (some b) e v r = hand_over-Swapped nm s w s.next b refl v r e

-- Between iterations the swap meets its three assertions and a buffer to swap.
pub swap-Swapped :
    (nm : ℕ) (s : AsyncLogger) (w : Worker)
    → IsSound nm s
    → IsRested nm w
    → Returns (swap s w) (Swapped nm s)
unfolding swap
swap-Swapped nm s w v r =
    rw
      (
        is_blank-Blank nm w.new_buffer1 r.first,
        is_blank-Blank nm w.new_buffer2 r.second,
        ap is_empty r.written,
      )
      (swap_from-Swapped nm s w s.current refl v r)

delivered-write_all :
    (nm : ℕ) (bs : List Buffer) → AllValid nm bs → delivered (write_all bs) ≡ all_bytes bs
unfolding write_all
delivered-write_all nm [] v = refl
delivered-write_all nm (b ∷ bs) v = elim (Bool-cases (FixedBuffer.size b == 0)) [
  | inl e ↦
      let none_held : FixedBuffer.size b ≡ 0 = ground arith in
      rw e
        (delivered-write_all nm bs v.1 ∙ sym (ap (λ n. take n b.items ++ all_bytes bs) none_held))
  | inr e ↦ rw e (ap (◌++◌ (contents b)) (delivered-write_all nm bs v.1))
]

pop_back-AllValid :
    (nm : ℕ) (b : Buffer) (bs : List Buffer)
    → AllValid nm (b ∷ bs)
    → (init : List Buffer) × (c : Buffer) × (pop_back (b ∷ bs) ≡ some (init, c))
      × AllValid nm init
      × IsValid nm c
      × (length bs ≡ length init)
unfolding pop_back
pop_back-AllValid nm b [] v = ([], b, refl, tt, v.0, refl)
pop_back-AllValid nm b (c ∷ bs) v =
    let (init, d, e, vi, vd, l) = pop_back-AllValid nm c bs v.1 in
    (b ∷ init, d, rw e, (v.0, vi), vd, omega arith)

-- A spare buffer is left, or made of the last one.
refill-Blank :
    (nm : ℕ) (o : Option Buffer) (bs : List Buffer)
    → MaybeBlank nm o
    → AllValid nm bs
    → (o ≡ none → 1 ≤ length bs)
    → Returns (refill o bs) (λ r. Blank nm r.0 × AllValid nm r.1 × (length bs ≤ length r.1 + 1))
unfolding refill
refill-Blank nm (some b) bs v w h = (v, w, omega arith)
refill-Blank nm none [] v w h = absurd (omega (arith, h refl))
refill-Blank nm none (b ∷ bs) v w h =
    let (init, c, e, vi, vc, l) = pop_back-AllValid nm b bs w in
    rw (e, refill) (reset-Holds nm c vc, vi, omega arith)

AllValid-take : (nm n : ℕ) (bs : List Buffer) → AllValid nm bs → AllValid nm (take n bs)
AllValid-take nm zero bs v = tt
AllValid-take nm (suc n) [] v = tt
AllValid-take nm (suc n) (b ∷ bs) v = (v.0, AllValid-take nm n bs v.1)

-- What one iteration writes: all that was taken over, or, of more than 25 buffers, a notice and the
-- first two.
abbrev pub expected : (ℕ → List ℕ) → List Buffer → List ℕ
expected notice bs =
    if ltb 25 (length bs) then notice (length bs - 2) ++ all_bytes (take 2 bs) else all_bytes bs

record Kept (nm : ℕ) (notice : ℕ → List ℕ) (bs : List Buffer) (r : List Call × List Buffer)
    : Type 0 where
  valid : AllValid nm r.1
  lower : 2 ≤ length bs → 2 ≤ length r.1
  some_left : 1 ≤ length r.1
  bytes : delivered r.0 ++ all_bytes r.1 ≡ expected notice bs

cut-Kept :
    (nm : ℕ) (notice : ℕ → List ℕ) (bs : List Buffer)
    → AllValid nm bs
    → 1 ≤ length bs
    → Kept nm notice bs (cut notice bs)
unfolding cut
cut-Kept nm notice bs v l = elim (Bool-cases (ltb 25 (length bs))) [
  | inl e ↦
      let many : 25 < length bs = ground arith in
      rw e (record {
        valid = AllValid-take nm 2 bs v;
        lower = λ _. omega (arith, length-take 2 bs);
        some_left = omega (arith, length-take 2 bs);
        bytes = rw (append-nil (notice (length bs - 2)), e);
      })
  | inr e ↦ rw e (record { valid = v; lower = λ h. h; some_left = l; bytes = rw e })
]

pub record Wrote (nm : ℕ) (notice : ℕ → List ℕ) (w : Worker) (r : List Call × Worker) : Type 0 where
  pub rested : IsRested nm r.1
  pub bytes : delivered r.0 ≡ expected notice w.write_buffers

not_empty : (bs : List Buffer) → 1 ≤ length bs → not (is_empty bs) ≡ true
not_empty [] l = absurd (omega arith)
not_empty (b ∷ bs) l = refl

delivered_calls :
    (nm : ℕ) (said : List Call) (kept : List Buffer)
    → AllValid nm kept
    → delivered (said ++ write_all kept ++ flushes ∷ []) ≡ delivered said ++ all_bytes kept
delivered_calls nm said kept v = rw (
  delivered-append (said ++ write_all kept) (flushes ∷ []),
  append-nil,
  delivered-append said (write_all kept),
  delivered-write_all nm kept v,
)

-- After a swap the rest of the iteration meets its assertions, finds the two spare buffers of the next
-- iteration, and hands the appender the bytes that it should get.
pub write_out-Wrote :
    (nm : ℕ) (notice : ℕ → List ℕ) (w : Worker)
    → IsBusy nm w
    → Returns (write_out notice w) (Wrote nm notice w)
unfolding write_out
write_out-Wrote nm notice w v = rw (not_empty w.write_buffers v.nonempty) (
    Returns-bind (refill w.new_buffer1 kept) _ _ _
      (refill-Blank nm w.new_buffer1 kept (rw v.first tt) k.valid (λ _. k.some_left))
      (λ spare1 h1.
        Returns-bind (refill w.new_buffer2 spare1.1) _ _ (Wrote nm notice w)
          (refill-Blank nm w.new_buffer2 spare1.1 v.second h1.1
            (λ e. omega (arith, k.lower (v.enough e), h1.2)))
          (λ spare2 h2. record {
            rested = record { first = h1.0; second = h2.0; written = refl };
            bytes = delivered_calls nm (cut notice w.write_buffers).0 kept k.valid ∙ k.bytes;
          })))
  where
    kept : List Buffer
    kept = (cut notice w.write_buffers).1

    k : Kept nm notice w.write_buffers (cut notice w.write_buffers)
    k = cut-Kept nm notice w.write_buffers v.valid v.nonempty
