-- ===== src/Reactor/Epoller/Reached.antt =====
-- Whatever the owner of the channels and the kernel do, the kernel accepts every request.
use clia.Prelude.{
  ℕ, ◌*◌, ◌≡◌, ◌⊎◌, inl, inr, refl, ap, Bool, true, false, Bool-cases, ◌==◌, ==_iff, Option, none,
  some, List, [], ◌∷◌, if◌then◌else◌, ok, Returns-ok, ok-bind, Option-cases, leb, length,
}
use clia.Reactor.Channel.{Channel, Events, new, is_none_event, set_revents}
use clia.Reactor.Epoller.{
  Epoller, create, update_at, is_at, change, remove, poll, fill_active_channels,
}
use clia.Reactor.Epoller.Kernel.{serve}
use clia.Reactor.Epoller.Registry.{IsSound, ==_refl, Differs-IsSound_quiet}
use clia.Reactor.Epoller.Changes.{Changed, kept-Differs, change_lem, remove_lem}

-- The owner starts with channels that are new, changes their events, and removes them; in between the
-- loop polls.
pub data Reached : Epoller → Type 0 where
  created : (store : ℕ → Channel) → ((p : ℕ) → (store p).index ≡ new) → Reached (create store)
  changes :
      {e d : Epoller} → Reached e → (p : ℕ) (events : Events) → change e p events ≡ ok d → Reached d
  removes : {e d : Epoller} → Reached e → (p : ℕ) → remove e p ≡ ok d → Reached d
  polls :
      {e d : Epoller}
      → Reached e
      → (reported : Option (List (ℕ × Events))) (active : List ℕ) → poll e reported ≡ ok (active, d)
      → Reached d

pub create-IsSound :
    (store : ℕ → Channel) → ((p : ℕ) → (store p).index ≡ new) → IsSound (create store)
unfolding create serve
create-IsSound store fresh = record {
  served = refl;
  registered = λ fd p h. cc;
  found = λ p n. absurd (n (fresh p));
}

change-IsSound :
    (e d : Epoller) (p : ℕ) (events : Events) → IsSound e → change e p events ≡ ok d → IsSound d
change-IsSound e d p events v h =
    (Returns-ok (change e p events) d (Changed p events)
      ((change_lem e p events v).0 (λ i. free i (Option-cases (e.channels (e.store p).fd))))
      h).sound
  where
    free :
        (e.store p).index ≡ new
        → (e.channels (e.store p).fd ≡ none) ⊎ ((q : ℕ) × (e.channels (e.store p).fd ≡ some q))
        → e.channels (e.store p).fd ≡ none
    free i (inl n) = n
    free i (inr (q, at)) = cc ((change_lem e p events v).1 q i at)

remove-IsSound : (e d : Epoller) (p : ℕ) → IsSound e → remove e p ≡ ok d → IsSound d
remove-IsSound e d p v h =
    Returns-ok (remove e p) d IsSound
      ((remove_lem e p v).0 (λ i. cc ((remove_lem e p v).1 (inl i))) waits) h
  where
    waits : is_none_event (e.store p) ≡ true
    waits = elim (Bool-cases (is_none_event (e.store p))) [
      | inl y ↦ y
      | inr n ↦ cc ((remove_lem e p v).1 (inr n))
    ]

is_at-eq : (o : Option ℕ) (p : ℕ) → is_at o p ≡ true → o ≡ some p
is_at-eq none p h = cc
is_at-eq (some q) p h = ap some ((==_iff q p).0 h)

set_revents-IsSound :
    (e : Epoller) (p : ℕ) (revents : Events)
    → IsSound e
    → e.channels (e.store p).fd ≡ some p
    → IsSound (record e { store = update_at e.store p (set_revents (e.store p) revents) })
unfolding set_revents
set_revents-IsSound e p revents v at =
    Differs-IsSound_quiet
      (kept-Differs e p v (record (e.store p) { revents = revents }) e.channels e.requests refl
        (v.registered _ p at).1 at (λ fd h. refl) (inr at))
      v refl (rw (at, ==_refl p) refl)

fill-IsSound :
    (reported : List (ℕ × Events)) (e : Epoller) (r : List ℕ × Epoller)
    → IsSound e
    → fill_active_channels e reported ≡ ok r
    → IsSound r.1
unfolding fill_active_channels
fill-IsSound [] e r v h = Returns-ok (ok ([], e)) r (λ r. IsSound r.1) v h
fill-IsSound ((p, revents) ∷ reported) e r v h =
    elim (Bool-cases (is_at (e.channels (e.store p).fd) p)) [
      | inl y ↦
          let (rest, a, b) =
            ok-bind
              (fill_active_channels
                (record e { store = update_at e.store p (set_revents (e.store p) revents) })
                reported)
              (rw y at h) in
          let s =
            fill-IsSound reported _ rest (set_revents-IsSound e p revents v (is_at-eq _ p y)) a in
          Returns-ok (ok (p ∷ rest.0, rest.1)) r (λ r. IsSound r.1) s b
      | inr n ↦ cc (rw n at h)
    ]

resized-IsSound :
    (e : Epoller) (b : Bool)
    → IsSound e
    → IsSound (if b then record e { capacity = e.capacity * 2 } else e)
resized-IsSound e true v = record { served = v.served; registered = v.registered; found = v.found }
resized-IsSound e false v = v

poll-IsSound :
    (e : Epoller) (reported : Option (List (ℕ × Events))) (r : List ℕ × Epoller)
    → IsSound e
    → poll e reported ≡ ok r
    → IsSound r.1
unfolding poll
poll-IsSound e none r v h = Returns-ok (ok ([], e)) r (λ r. IsSound r.1) v h
poll-IsSound e (some []) r v h = Returns-ok (ok ([], e)) r (λ r. IsSound r.1) v h
poll-IsSound e (some (x ∷ reported)) r v h =
    elim (Bool-cases (leb (length (x ∷ reported)) e.capacity)) [
      | inl y ↦
          let (filled, a, b) = ok-bind (fill_active_channels e (x ∷ reported)) (rw y at h) in
          Returns-ok _ r (λ r. IsSound r.1)
            (resized-IsSound filled.1 (length (x ∷ reported) == filled.1.capacity)
              (fill-IsSound (x ∷ reported) e filled v a))
            b
      | inr n ↦ cc (rw n at h)
    ]

-- In every reachable state the kernel has accepted every request, in its order: no file descriptor was
-- added twice, and none modified or deleted that was not there. It watches exactly the channels that
-- the code takes for added, for exactly their events; and a channel is registered under its own file
-- descriptor exactly while it is not new.
pub Reached-IsSound : {e : Epoller} → Reached e → IsSound e
Reached-IsSound (created store fresh) = create-IsSound store fresh
Reached-IsSound (changes {e} {d} r p events h) = change-IsSound e d p events (Reached-IsSound r) h
Reached-IsSound (removes {e} {d} r p h) = remove-IsSound e d p (Reached-IsSound r) h
Reached-IsSound (polls {e} {d} r reported active h) =
    poll-IsSound e reported (active, d) (Reached-IsSound r) h
