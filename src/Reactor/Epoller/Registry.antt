-- ===== src/Reactor/Epoller/Registry.antt =====
-- The registry, the channels' indices and the kernel's interest list agree after every change.
use mathlib.Core.Path.{fun_ext}
use clia.Prelude.{
  ℕ, ◌≡◌, ◌≢◌, ◌⊎◌, inl, inr, refl, sym, ap, ◌∙◌, subst, true, false, ◌==◌, ==_iff, Option, none,
  some, [], ◌∷◌, ◌++◌, if◌then◌else◌, arith,
}
use clia.Reactor.Channel.{Events, new}
use clia.Reactor.Epoller.{Epoller, Request, update_at, is_added}
use clia.Reactor.Epoller.Kernel.{Interest, serve, serve_one, serve-append}

-- The events that the kernel should watch: those of the channels that are added.
abbrev pub interest_at : Epoller → Option ℕ → Option Events
interest_at e none = none
interest_at e (some p) = if is_added (e.store p).index then some (e.store p).events else none

abbrev pub interest : Epoller → Interest
interest e fd = interest_at e (e.channels fd)

pub record IsSound (e : Epoller) : Type 0 where
  pub served : serve (some (λ fd. none)) e.requests ≡ some (interest e)
  pub registered :
      (fd p : ℕ) → e.channels fd ≡ some p → ((e.store p).fd ≡ fd) × ((e.store p).index ≢ new)
  pub found : (p : ℕ) → (e.store p).index ≢ new → e.channels (e.store p).fd ≡ some p

-- `d` differs from `e` at the channel `p` and at its file descriptor alone.
pub record Differs (e d : Epoller) (p : ℕ) : Type 0 where
  pub same_fd : (d.store p).fd ≡ (e.store p).fd
  pub other_slots : (fd : ℕ) → fd ≢ (e.store p).fd → d.channels fd ≡ e.channels fd
  pub other_channels : (q : ℕ) → q ≢ p → d.store q ≡ e.store q
  pub before : (e.channels (e.store p).fd ≡ none) ⊎ (e.channels (e.store p).fd ≡ some p)
  pub after :
      ((d.channels (e.store p).fd ≡ some p) × ((d.store p).index ≢ new))
      ⊎ ((d.channels (e.store p).fd ≡ none) × ((d.store p).index ≡ new))

ℕ-cases : (a b : ℕ) → (a ≡ b) ⊎ (a ≢ b)
ℕ-cases a b = omega arith

pub ==_refl : (a : ℕ) → (a == a) ≡ true
==_refl a = ground arith

pub ==_ne : (a b : ℕ) → b ≢ a → (a == b) ≡ false
==_ne a b h = ground arith

module _ {e d : Epoller} {p : ℕ} (f : Differs e d p) (v : IsSound e) where
  -- A channel registered elsewhere is another channel, and unchanged.
  elsewhere : (fd q : ℕ) → fd ≢ (e.store p).fd → e.channels fd ≡ some q → d.store q ≡ e.store q
  elsewhere fd q there h =
      f.other_channels q
        (λ same. there (sym (v.registered fd q h).0 ∙ ap (λ r. (e.store r).fd) same))

  unique : (q r : ℕ) {o : Option ℕ} → o ≡ some q → o ≡ some r → r ≡ q
  unique q r a b = cc

  registered_here :
      (q : ℕ)
      → d.channels (e.store p).fd ≡ some q
      → ((d.store q).fd ≡ (e.store p).fd) × ((d.store q).index ≢ new)
  registered_here q h = elim f.after [
    | inl (a, n) ↦
        subst (λ r. ((d.store r).fd ≡ (e.store p).fd) × ((d.store r).index ≢ new)) (unique q p h a)
          (f.same_fd, n)
    | inr (a, n) ↦ cc
  ]

  Differs-registered :
      (fd q : ℕ) → d.channels fd ≡ some q → ((d.store q).fd ≡ fd) × ((d.store q).index ≢ new)
  Differs-registered fd q h = elim (ℕ-cases fd (e.store p).fd) [
    | inl here ↦
        subst (λ g. ((d.store q).fd ≡ g) × ((d.store q).index ≢ new)) (sym here)
          (registered_here q (subst (λ g. d.channels g ≡ some q) here h))
    | inr there ↦
        let old : e.channels fd ≡ some q = sym (f.other_slots fd there) ∙ h in
        subst (λ c. (c.fd ≡ fd) × (c.index ≢ new)) (sym (elsewhere fd q there old))
          (v.registered fd q old)
  ]

  found_here : (d.store p).index ≢ new → d.channels (d.store p).fd ≡ some p
  found_here n = elim f.after [
    | inl (a, m) ↦ ap d.channels f.same_fd ∙ a
    | inr (a, m) ↦ absurd (n m)
  ]

  not_here : (q : ℕ) → q ≢ p → e.channels (e.store q).fd ≡ some q → (e.store q).fd ≢ (e.store p).fd
  not_here q there k same = elim f.before [
    | inl b ↦ cc (sym (ap e.channels same) ∙ k)
    | inr b ↦ there (unique p q b (sym (ap e.channels same) ∙ k))
  ]

  Differs-found : (q : ℕ) → (d.store q).index ≢ new → d.channels (d.store q).fd ≡ some q
  Differs-found q n = elim (ℕ-cases q p) [
    | inl here ↦
        subst (λ r. d.channels (d.store r).fd ≡ some r) (sym here)
          (found_here (subst (λ r. (d.store r).index ≢ new) here n))
    | inr there ↦
        let same = f.other_channels q there in
        let k = v.found q (subst (λ c. c.index ≢ new) same n) in
        subst (λ c. d.channels c.fd ≡ some q) (sym same)
          (f.other_slots (e.store q).fd (not_here q there k) ∙ k)
  ]

  Differs-interest : (fd : ℕ) → fd ≢ (e.store p).fd → interest d fd ≡ interest e fd
  Differs-interest fd there = go (e.channels fd) refl
    where
      go : (o : Option ℕ) → e.channels fd ≡ o → interest d fd ≡ interest e fd
      go none h = rw (f.other_slots fd there, h) refl
      go (some q) h = rw (f.other_slots fd there, h, elsewhere fd q there h) refl

  -- One request more, which the kernel answers as the change of `e` to `d` says.
  pub Differs-IsSound :
      (r : Request)
      → d.requests ≡ e.requests ++ r ∷ []
      → serve_one (interest e) r
        ≡ some (update_at (interest e) (e.store p).fd (interest d (e.store p).fd))
      → IsSound d
  Differs-IsSound r more served = record {
    served =
        rw (more, serve-append (some (λ fd. none)) e.requests r, v.served)
          (served ∙ ap some (fun_ext pointwise));
    registered = Differs-registered;
    found = Differs-found;
  }
    where
      pointwise :
          (fd : ℕ)
          → update_at (interest e) (e.store p).fd (interest d (e.store p).fd) fd ≡ interest d fd
      pointwise fd = elim (ℕ-cases fd (e.store p).fd) [
        | inl here ↦ rw (here, (==_iff (e.store p).fd (e.store p).fd).1 refl) refl
        | inr there ↦ rw (==_ne (e.store p).fd fd there) (sym (Differs-interest fd there))
      ]

  -- Without a request the kernel's list has to be as before at the channel too.
  pub Differs-IsSound_quiet :
      d.requests ≡ e.requests → interest d (e.store p).fd ≡ interest e (e.store p).fd → IsSound d
  Differs-IsSound_quiet same at = record {
    served = rw same (v.served ∙ ap some (fun_ext pointwise));
    registered = Differs-registered;
    found = Differs-found;
  }
    where
      pointwise : (fd : ℕ) → interest e fd ≡ interest d fd
      pointwise fd = elim (ℕ-cases fd (e.store p).fd) [
        | inl here ↦ subst (λ g. interest e g ≡ interest d g) (sym here) (sym at)
        | inr there ↦ sym (Differs-interest fd there)
      ]
