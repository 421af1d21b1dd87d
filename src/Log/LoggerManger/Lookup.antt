-- ===== src/Log/LoggerManger/Lookup.antt =====
-- Which logger a name stands for.
use clia.Prelude.{
  ℕ, ◌≡◌, refl, sym, ap, ◌∙◌, subst, true, false, Bool-cases, inl, inr, List, [], ◌∷◌, Option, none,
  some, Option-cases, if◌then◌else◌, ◌↔◌, arith,
}
use clia.Log.LoggerManger.{
  LoggerManger, same_name, find, or_default, logger, set_default, assign, register_logger,
}

pub same_name_iff : (a b : List ℕ) → (same_name a b ≡ true) ↔ (a ≡ b)
same_name_iff (c ∷ a) (d ∷ b) = ground (arith, same_name_iff a b)
same_name_iff _ _ = ground arith

-- The calls that change the manager.
pub data Change (L : Type 0) : Type 0 where
  defaults : Option L → Change L
  registers : List ℕ → Option L → Change L

module _ {L : Type 0} where
  unfoldable pub change : LoggerManger L → Change L → LoggerManger L
  change s (defaults l) = set_default s l
  change s (registers name l) = register_logger s name l

  unfoldable pub change_all : LoggerManger L → List (Change L) → LoggerManger L
  change_all s [] = s
  change_all s (c ∷ cs) = change_all (change s c) cs

  -- The specification: the last logger that was registered for the name.
  pub registered : List ℕ → Option (Option L) → List (Change L) → Option (Option L)
  registered name l [] = l
  registered name l (defaults d ∷ cs) = registered name l cs
  registered name l (registers n new ∷ cs) =
      registered name (if same_name n name then some new else l) cs

  -- The first default that was not null.
  pub chosen : Option L → List (Change L) → Option L
  chosen d [] = d
  chosen none (defaults l ∷ cs) = chosen l cs
  chosen (some d) (defaults l ∷ cs) = chosen (some d) cs
  chosen d (registers n new ∷ cs) = chosen d cs

  pub find-assign :
      (ls : List (List ℕ × Option L)) (n name : List ℕ) (l : Option L)
      → find (assign ls n l) name ≡ (if same_name n name then some l else find ls name)
  find-assign [] n name l = refl
  find-assign ((m, old) ∷ ls) n name l = elim (Bool-cases (same_name m n)) [
    | inl y ↦
        let e = (same_name_iff m n).0 y in
        rw y (
          subst
            (λ m. (if same_name m name then some l else find ls name) ≡ (
              if same_name n name
              then some l
              else if same_name m name
              then some old
              else find ls name))
            (sym e)
            (elim (Bool-cases (same_name n name)) [ inl t ↦ rw t refl | inr f ↦ rw f refl ]))
    | inr z ↦
        rw (z, find-assign ls n name l)
          (elim (Bool-cases (same_name m name)) [
            | inl t ↦
                let f : same_name n name ≡ false = elim (Bool-cases (same_name n name)) [
                  | inr f ↦ f
                  | inl u ↦ cc (
                      (same_name_iff m n).1
                        ((same_name_iff m name).0 t ∙ sym ((same_name_iff n name).0 u)))
                ] in
                rw (t, f) refl
            | inr f ↦ rw f refl
          ])
  ]

  -- After any sequence of registrations and settings of the default, a name stands for the logger that
  -- was registered for it last, also if that is null; another name for the first default that was not
  -- null.
  pub logger-change_all :
      (cs : List (Change L)) (s : LoggerManger L) (name : List ℕ)
      → logger (change_all s cs) name
        ≡ or_default (registered name (find s.loggers name) cs) (chosen s.default cs)
  unfolding logger change_all change set_default register_logger registered chosen
  logger-change_all [] s name = elim (Option-cases s.default) [
    | inl n ↦ rw n refl
    | inr (d, e) ↦ rw e refl
  ]
  logger-change_all (defaults l ∷ cs) s name = elim (Option-cases s.default) [
    | inl n ↦ rw n (logger-change_all cs (record { default = l; loggers = s.loggers }) name)
    | inr (d, e) ↦
        rw e (logger-change_all cs (record { default = some d; loggers = s.loggers }) name)
  ]
  logger-change_all (registers n l ∷ cs) s name =
      logger-change_all cs (record { default = s.default; loggers = assign s.loggers n l }) name
      ∙ ap (λ f. or_default (registered name f cs) (chosen s.default cs))
          (find-assign s.loggers n name l)
