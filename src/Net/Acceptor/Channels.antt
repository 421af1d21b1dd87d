-- ===== src/Net/Acceptor/Channels.antt =====
-- What a change and a removal leave of the channel of an `Acceptor`, beside the registry.
use mathlib.Core.Path.{fun_ext}
use clia.Prelude.{
  ℕ, ◌≡◌, ◌≢◌, ◌⊎◌, inl, inr, refl, sym, ap, ◌∙◌, subst, Bool, true, false, Bool-cases, ◌&&◌,
  Option, none, some, if◌then◌else◌, Outcome, ok, err, ◌>>◌, assert, Returns, arith,
}
use clia.Reactor.Channel.{Channel, Index, new, added, deleted, Events, is_none_event}
use clia.Reactor.Epoller.{
  Epoller, put, change, remove, remove_channel, update_channel, update_by, has_channel, update,
  destroy_channel, is_added, is_absent, is_at, is_registered, update_at, set_index, deletes,
}
use clia.Reactor.Epoller.Registry.{IsSound, interest_at, ==_refl, ==_ne}

-- `P` holds of the value, if there is one.
abbrev pub WhenOk : {A : Type 0} → Outcome A → (A → Type 0) → Type 0
WhenOk (err fault) P = Unit {0}
WhenOk (ok a) P = P a

pub Returns-WhenOk :
    {A : Type 0} (m : Outcome A) (P Q : A → Type 0)
    → Returns m P
    → WhenOk m Q
    → Returns m (λ a. P a × Q a)
Returns-WhenOk (ok a) P Q h k = (h, k)
Returns-WhenOk (err fault) P Q h k = h

WhenOk-assert :
    {A : Type 0} (b : Bool) (m : Outcome A) (P : A → Type 0) → WhenOk m P → WhenOk (assert b >> m) P
WhenOk-assert true m P h = h
WhenOk-assert false m P h = tt

-- A change leaves the mark of a running handler.
update_by-handling :
    (e : Epoller) (p : ℕ) (c : Channel) (i : Index)
    → WhenOk (update_by e p c i) (λ d. (d.store p).event_handling ≡ c.event_handling)
unfolding update_by put update has_channel
update_by-handling e p c new = elim (Bool-cases (is_absent (e.channels c.fd))) [
  | inl y ↦ rw (y, ==_refl p) refl
  | inr n ↦ rw n tt
]
update_by-handling e p c deleted = elim (Bool-cases (is_at (e.channels c.fd) p)) [
  | inl y ↦ rw (y, ==_refl p) refl
  | inr n ↦ rw n tt
]
update_by-handling e p c added = elim (Bool-cases (is_at (e.channels c.fd) p)) [
  | inl y ↦ rw y (elim (Bool-cases (is_none_event c)) [
    | inl idle ↦ rw (idle, ==_refl p) refl
    | inr busy ↦ rw (busy, ==_refl p) refl
  ])
  | inr n ↦ rw n tt
]

pub change-handling :
    (e : Epoller) (p : ℕ) (events : Events)
    → WhenOk (change e p events) (λ d. (d.store p).event_handling ≡ (e.store p).event_handling)
unfolding change update_channel
change-handling e p events =
    update_by-handling e p (record (e.store p) { events = events; added_to_loop = true })
      (e.store p).index

-- What `remove` leaves of the channel can be destroyed.
remove_channel-destroyed :
    (e : Epoller) (p : ℕ) (c : Channel)
    → c.event_handling ≡ false
    → c.added_to_loop ≡ false
    → WhenOk (remove_channel e p c) (λ d. destroy_channel true d p ≡ ok tt)
unfolding remove_channel destroy_channel put update has_channel
remove_channel-destroyed e p c quiet out =
    elim (Bool-cases (is_at (e.channels c.fd) p && is_none_event c)) [
      | inr n ↦ rw n tt
      | inl y ↦ rw y (by_index c.index)
    ]
  where
    without_it : Epoller
    without_it = record e { channels = update_at e.channels c.fd none }

    by_index :
        (i : Index)
        → WhenOk
            (assert (is_registered i)
              >> ok (
                  put
                    (if is_added i then update without_it deletes c else without_it)
                    p
                    (set_index c new)))
            (λ d. destroy_channel true d p ≡ ok tt)
    by_index new = tt
    by_index added = rw (==_refl p, quiet, out, ==_refl c.fd) refl
    by_index deleted = rw (==_refl p, quiet, out, ==_refl c.fd) refl

pub remove-destroyed :
    (e : Epoller) (p : ℕ)
    → (e.store p).event_handling ≡ false
    → WhenOk (remove e p) (λ d. destroy_channel true d p ≡ ok tt)
unfolding remove
remove-destroyed e p quiet =
    WhenOk-assert (is_none_event (e.store p))
      (remove_channel e p (record (e.store p) { added_to_loop = false })) _
      (remove_channel-destroyed e p (record (e.store p) { added_to_loop = false }) quiet refl)

-- A new channel at a place that no registered channel has.
pub put_new-IsSound :
    (e : Epoller) (p : ℕ) (c : Channel)
    → IsSound e
    → (e.store p).index ≡ new
    → c.index ≡ new
    → IsSound (put e p c)
unfolding put
put_new-IsSound e p c v free i = record {
  served =
      v.served ∙ ap some (fun_ext (λ fd. same_interest (e.channels fd) (λ q at. away fd q at)));
  registered = λ fd q at.
      subst (λ d. (d.fd ≡ fd) × (d.index ≢ new)) (sym (same_at q (away fd q at)))
        (v.registered fd q at);
  found = λ q n. elim (place q) [
    | inl h ↦ absurd (n (at_new q h))
    | inr h ↦
        subst (λ d. e.channels d.fd ≡ some q) (sym (same_at q h))
          (v.found q (subst (λ d. d.index ≢ new) (same_at q h) n))
  ];
}
  where
    place : (q : ℕ) → (q ≡ p) ⊎ (q ≢ p)
    place q = omega arith

    same_at : (q : ℕ) → q ≢ p → (put e p c).store q ≡ e.store q
    same_at q h = rw (==_ne p q h) refl

    at_new : (q : ℕ) → q ≡ p → ((put e p c).store q).index ≡ new
    at_new q h = subst (λ r. ((put e p c).store r).index ≡ new) (sym h) (rw (==_refl p) i)

    away : (fd q : ℕ) → e.channels fd ≡ some q → q ≢ p
    away fd q at same = (v.registered fd q at).1 (ap (λ r. (e.store r).index) same ∙ free)

    same_interest :
        (o : Option ℕ)
        → ((q : ℕ) → o ≡ some q → q ≢ p)
        → interest_at e o ≡ interest_at (put e p c) o
    same_interest none h = refl
    same_interest (some q) h = rw (==_ne p q (h q refl)) refl
