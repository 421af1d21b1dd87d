-- ===== src/Reactor/Epoller/Changes.antt =====
-- Every change of a channel keeps registry, indices and interest list in agreement.
use clia.Prelude.{
  ℕ, ◌≡◌, ◌≢◌, ◌⊎◌, inl, inr, refl, sym, ap, ◌∙◌, true, false, Bool-cases, Option, none, some, List,
  [], ◌∷◌, ◌++◌, if◌then◌else◌, err, Fault, Returns, arith,
}
use clia.Reactor.Channel.{Channel, Events, Index, new, added, deleted, is_none_event}
use clia.Reactor.Epoller.{
  Epoller, Request, Operation, adds, modifies, deletes, update_at, update_channel, update_by,
  remove_channel, is_added, is_at, has_channel, update, set_index, put, change, remove,
}
use clia.Reactor.Epoller.Kernel.{serve_one}
use clia.Reactor.Epoller.Registry.{
  IsSound, Differs, interest, interest_at, ==_refl, ==_ne, Differs-IsSound, Differs-IsSound_quiet,
}

-- The agreement holds, and the channel waits for `events`.
pub record Changed (p : ℕ) (events : Events) (d : Epoller) : Type 0 where
  pub sound : IsSound d
  pub waits_for : (d.store p).events ≡ events
  pub enrolled : (d.store p).index ≢ new

put-Changed :
    (e : Epoller) {p : ℕ} {events : Events} (c : Channel)
    → c.events ≡ events
    → c.index ≢ new
    → IsSound (put e p c)
    → Changed p events (put e p c)
unfolding put
put-Changed e {p} c f n v = record {
  sound = v;
  waits_for = rw (==_refl p) f;
  enrolled = rw (==_refl p) n;
}

module _ (e : Epoller) (p : ℕ) (v : IsSound e) where
  -- The object at `p` replaced by one with the same file descriptor, which is registered.
  pub kept-Differs :
      (c : Channel) (chans : ℕ → Option ℕ) (rs : List Request)
      → c.fd ≡ (e.store p).fd
      → c.index ≢ new
      → chans (e.store p).fd ≡ some p
      → ((fd : ℕ) → fd ≢ (e.store p).fd → chans fd ≡ e.channels fd)
      → (e.channels (e.store p).fd ≡ none) ⊎ (e.channels (e.store p).fd ≡ some p)
      → Differs e (record e { store = update_at e.store p c; channels = chans; requests = rs }) p
  kept-Differs c chans rs f n at others b = record {
    same_fd = rw (==_refl p) f;
    other_slots = others;
    other_channels = λ q h. rw (==_ne p q h) refl;
    before = b;
    after = inl (at, rw (==_refl p) n);
  }

  -- Adding, with the kernel not watching the file descriptor yet.
  adds-IsSound :
      (c : Channel) (chans : ℕ → Option ℕ)
      → c.fd ≡ (e.store p).fd
      → chans (e.store p).fd ≡ some p
      → ((fd : ℕ) → fd ≢ (e.store p).fd → chans fd ≡ e.channels fd)
      → (e.channels (e.store p).fd ≡ none) ⊎ (e.channels (e.store p).fd ≡ some p)
      → interest e (e.store p).fd ≡ none
      → IsSound (put (update (record e { channels = chans }) adds c) p (set_index c added))
  unfolding put update
  adds-IsSound c chans f at others b idle =
      Differs-IsSound (kept-Differs (set_index c added) chans _ f (λ h. cc) at others b) v _ refl
        (rw (f, idle, at, ==_refl p) refl)

  -- A request for a file descriptor that the kernel watches.
  watched-IsSound :
      (c d : Channel) (operation : Operation)
      → c.fd ≡ (e.store p).fd
      → d.fd ≡ (e.store p).fd
      → d.index ≢ new
      → e.channels (e.store p).fd ≡ some p
      → serve_one
          (interest e)
          (record { operation = operation; fd = (e.store p).fd; events = c.events })
        ≡ some (
            update_at
              (interest e)
              (e.store p).fd
              (if is_added d.index then some d.events else none))
      → IsSound (put (update e operation c) p d)
  unfolding put update
  watched-IsSound c d operation f g n at answered =
      Differs-IsSound (kept-Differs d e.channels _ g n at (λ fd h. refl) (inr at)) v _ refl
        (rw f (answered ∙ ap (λ o. some (update_at (interest e) (e.store p).fd o)) stands))
    where
      stands :
          (if is_added d.index then some d.events else none)
          ≡ interest (put (update e operation c) p d) (e.store p).fd
      stands = rw (at, ==_refl p) refl

  interest-added :
      (e.store p).index ≡ added
      → e.channels (e.store p).fd ≡ some p
      → interest e (e.store p).fd ≡ some (e.store p).events
  interest-added i at = rw (at, i) refl

  interest-deleted :
      (e.store p).index ≡ deleted
      → e.channels (e.store p).fd ≡ some p
      → interest e (e.store p).fd ≡ none
  interest-deleted i at = rw (at, i) refl

  pub is_at_refl : e.channels (e.store p).fd ≡ some p → is_at (e.channels (e.store p).fd) p ≡ true
  is_at_refl at = rw at (==_refl p)

  module _ (events : Events) where
    abbrev renewed : Channel
    renewed = record (e.store p) { events = events; added_to_loop = true }

    update_by-Changed :
        (i : Index)
        → (e.store p).index ≡ i
        → (i ≡ new → e.channels (e.store p).fd ≡ none)
        → Returns (update_by e p renewed i) (Changed p events)
    unfolding update_by has_channel
    update_by-Changed new i free = rw (free refl) (
        put-Changed _ (set_index renewed added) refl (λ h. cc)
          (adds-IsSound renewed (update_at e.channels (e.store p).fd (some p)) refl
            (rw (==_refl (e.store p).fd) refl) (λ fd h. rw (==_ne (e.store p).fd fd h) refl)
            (inl (free refl)) (rw (free refl) refl)))
    update_by-Changed deleted i free =
        let at = v.found p (rw i (λ h. cc)) in
        rw (is_at_refl at) (
          put-Changed _ (set_index renewed added) refl (λ h. cc)
            (adds-IsSound renewed e.channels refl at (λ fd h. refl) (inr at)
              (interest-deleted i at)))
    update_by-Changed added i free =
        let at = v.found p (rw i (λ h. cc)) in
        rw (is_at_refl at) (elim (Bool-cases (is_none_event renewed)) [
          | inl e' ↦ rw e' (
              put-Changed _ (set_index renewed deleted) refl (λ h. cc)
                (watched-IsSound renewed (set_index renewed deleted) deletes refl refl (λ h. cc) at
                  (rw (interest-added i at) refl)))
          | inr e' ↦ rw e' (
              put-Changed _ renewed refl (rw i (λ h. cc)) (
                watched-IsSound renewed renewed modifies refl refl (rw i (λ h. cc)) at
                  (rw (interest-added i at, i) refl)))
        ])

-- A change of the events of a channel returns and keeps the agreement, unless the channel is new and
-- its file descriptor is that of a registered one; then it fails its assertion.
pub change_lem :
    (e : Epoller) (p : ℕ) (events : Events)
    → IsSound e
    → (((e.store p).index ≡ new → e.channels (e.store p).fd ≡ none)
        → Returns (change e p events) (Changed p events))
      × ((q : ℕ)
          → (e.store p).index ≡ new
          → e.channels (e.store p).fd ≡ some q
          → change e p events ≡ err Fault.assertion)
unfolding change update_channel
change_lem e p events v = (
  update_by-Changed e p v events (e.store p).index refl,
  λ q i at. taken q at (e.store p).index i,
)
  where
    taken :
        (q : ℕ)
        → e.channels (e.store p).fd ≡ some q
        → (i : Index) → i ≡ new
        → update_by e p (renewed e p v events) i ≡ err Fault.assertion
    taken q at new h = rw (at, update_by)
    taken q at added h = cc
    taken q at deleted h = cc

module _ (e : Epoller) (p : ℕ) (v : IsSound e) where
  -- The object that `remove` leaves.
  abbrev retired : Channel
  retired = record (e.store p) { added_to_loop = false; index = new }

  abbrev retired_from : List Request → Epoller
  retired_from rs = record e {
    store = update_at e.store p retired;
    channels = update_at e.channels (e.store p).fd none;
    requests = rs;
  }

  abbrev farewell : Request
  farewell = record { operation = deletes; fd = (e.store p).fd; events = (e.store p).events }

  removed-Differs :
      (rs : List Request) → e.channels (e.store p).fd ≡ some p → Differs e (retired_from rs) p
  removed-Differs rs at = record {
    same_fd = rw (==_refl p) refl;
    other_slots = λ fd h. rw (==_ne (e.store p).fd fd h) refl;
    other_channels = λ q h. rw (==_ne p q h) refl;
    before = inr at;
    after = inr (rw (==_refl (e.store p).fd) refl, rw (==_refl p) refl);
  }

  removed_slot :
      (d : Epoller) → interest_at d (update_at e.channels (e.store p).fd none (e.store p).fd) ≡ none
  removed_slot d = rw (==_refl (e.store p).fd) refl

  remove_channel-IsSound :
      (i : Index)
      → (e.store p).index ≡ i
      → i ≢ new
      → is_none_event (e.store p) ≡ true
      → Returns (remove e p) IsSound
  unfolding remove remove_channel has_channel update put
  remove_channel-IsSound new i n idle = absurd (n refl)
  remove_channel-IsSound added i n idle =
      let at = v.found p (rw i (λ h. cc)) in
      rw (idle, is_at_refl e p v at, i)
        (Differs-IsSound (removed-Differs _ at) v farewell refl (
          rw (interest-added e p v i at) (
            ap (λ o. some (update_at (interest e) (e.store p).fd o))
              (sym (removed_slot (retired_from (e.requests ++ farewell ∷ [])))))))
  remove_channel-IsSound deleted i n idle =
      let at = v.found p (rw i (λ h. cc)) in
      rw (idle, is_at_refl e p v at, i)
        (Differs-IsSound_quiet (removed-Differs _ at) v refl
          (removed_slot (retired_from e.requests) ∙ sym (interest-deleted e p v i at)))

-- A registered channel that waits for nothing is removed with the agreement kept; a channel that is
-- new, or still waits for an event, fails an assertion.
pub remove_lem :
    (e : Epoller) (p : ℕ)
    → IsSound e
    → ((e.store p).index ≢ new → is_none_event (e.store p) ≡ true → Returns (remove e p) IsSound)
      × (((e.store p).index ≡ new) ⊎ (is_none_event (e.store p) ≡ false)
          → remove e p ≡ err Fault.assertion)
unfolding remove remove_channel has_channel
remove_lem e p v = (remove_channel-IsSound e p v (e.store p).index refl, λ r. ground arith)
