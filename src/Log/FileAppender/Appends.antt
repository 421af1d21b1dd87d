-- ===== src/Log/FileAppender/Appends.antt =====
-- Sequences of calls of `append`.
use clia.Prelude.{
  ℕ, ◌⊎◌, ◌+◌, ◌*◌, ◌≤◌, ◌<◌, ◌≡◌, refl, sym, ap, ◌∙◌, subst, Bool, true, false, inl, List, [], ◌∷◌,
  ◌++◌, append_assoc, append-nil, length, Option, none, some, ◌==◌, if◌then◌else◌, Returns,
  Returns-mono, arith,
}
use clia.Util.Timestamp.{Tm}
use clia.Log.FileAppender.{
  FileAppender, RollAnswers, null, makes_dir, append_unlocked, append, write_loop, roll_if_due,
  create,
}
use clia.Log.FileAppender.Writing.{text, write_loop-IsWritten}
use clia.Log.FileAppender.Calls.{current, AllWithin}
use clia.Log.FileAppender.Calls.Files.{bytes_to, times_opened, bytes_to_within}
use clia.Log.FileAppender.Rolling.{
  IsCounted, Append, IsAnswered, Ends, Checked, Appended, roll_if_due-Checked, roll_file-Checked,
  written-Appended,
}

-- The messages in order.
abbrev pub messages : List Append → List ℕ
messages [] = []
messages (x ∷ xs) = x.buf ++ messages xs

abbrev pub AllAnswered : List Append → Type 0
AllAnswered [] = Unit {0}
AllAnswered (x ∷ xs) = IsAnswered x × AllAnswered xs

abbrev pub AllShort : ℕ → List Append → Type 0
AllShort m [] = Unit {0}
AllShort m (x ∷ xs) = (length x.buf ≤ m) × AllShort m xs

-- Each call finds the clock at a later second than the call before.
abbrev pub Ticking : ℕ → List Append → Type 0
Ticking t [] = Unit {0}
Ticking t (x ∷ xs) = (t < x.roll.now) × Ticking x.roll.now xs

pub Ends-mono :
    (o : Option FileAppender) (P Q : FileAppender → Type 0)
    → Ends o P
    → ((s : FileAppender) → P s → Q s)
    → Ends o Q
Ends-mono none P Q h f = absurd h
Ends-mono (some s) P Q h f = f s h

module _ (localtime : ℕ → Tm) (pid : ℕ) where
  abbrev pub append_all : FileAppender → List Append → Option FileAppender
  append_all s [] = some s
  append_all s (x ∷ xs) = elim (append localtime pid s (some x.buf) x.check_time x.roll x.answers) [
    | none ↦ none
    | some s' ↦ append_all s' xs
  ]

  nothing-Appended : (s : FileAppender) (x : Append) → x.buf ≡ [] → Appended s x s
  nothing-Appended s x e = record {
    behind = sym (ap (◌++◌ (text s.calls)) e ∙ append-nil (text s.calls));
    counted = λ c. c;
    within = λ m c l late v. v;
    same_limit = refl;
    at = inl refl;
  }

  pub append-Appended :
      (s : FileAppender) (x : Append)
      → IsAnswered x
      → Ends (append localtime pid s (some x.buf) x.check_time x.roll x.answers) (Appended s x)
  unfolding append append_unlocked
  append-Appended s x (v, clean, l) = go x.buf refl
    where
      go :
          (buf : List ℕ)
          → x.buf ≡ buf
          → Ends (append localtime pid s (some buf) x.check_time x.roll x.answers) (Appended s x)
      go [] e = nothing-Appended s x e
      go (c ∷ buf) e =
          let some_bytes : (length (c ∷ buf) == 0) ≡ false = ground arith in
          rw some_bytes (
            subst
              (λ b.
                Ends (append_unlocked localtime pid s b x.check_time x.roll x.answers)
                  (Appended s x))
              e
              (written-Appended s (roll_if_due localtime pid s x.check_time x.roll) x
                (write_loop x.buf x.answers)
                (roll_if_due-Checked localtime pid s x.check_time x.roll)
                (write_loop-IsWritten x.answers x.buf v l) clean))

  -- What a sequence of calls does, by induction over the calls.
  record AllAppended (s : FileAppender) (xs : List Append) (s' : FileAppender) : Type 0 where
    behind : text s'.calls ≡ text s.calls ++ messages xs
    counted : IsCounted s → IsCounted s'
    within :
        (m : ℕ)
        → IsCounted s
        → AllShort m xs
        → Ticking s.last_roll_time xs
        → AllWithin (s.roll_size_byte + m) [] s.calls
        → AllWithin (s.roll_size_byte + m) [] s'.calls

  then-AllAppended :
      (s s' s'' : FileAppender) (x : Append) (xs : List Append)
      → Appended s x s'
      → AllAppended s' xs s''
      → AllAppended s (x ∷ xs) s''
  then-AllAppended s s' s'' x xs v w = record {
    behind =
        w.behind
        ∙ ap (λ y. y ++ messages xs) v.behind
        ∙ append_assoc (text s.calls) x.buf (messages xs);
    counted = λ c. w.counted (v.counted c);
    within = λ m c (l, ls) (late, lates) inside.
        subst (λ k. AllWithin (k + m) [] s''.calls) v.same_limit
          (w.within m (v.counted c) ls (later xs v.at late lates) (
            subst (λ k. AllWithin (k + m) [] s'.calls) (sym v.same_limit)
              (v.within m c l (λ e. absurd (omega (arith, e, late))) inside)));
  }
    where
      later :
          (ys : List Append)
          → (s'.last_roll_time ≡ s.last_roll_time) ⊎ (s'.last_roll_time ≡ x.roll.now)
          → s.last_roll_time < x.roll.now
          → Ticking x.roll.now ys
          → Ticking s'.last_roll_time ys
      later [] at t v = tt
      later (y ∷ ys) at t (u, us) = (ground arith, us)

  all-AllAppended :
      (xs : List Append) (s : FileAppender)
      → AllAnswered xs
      → Ends (append_all s xs) (AllAppended s xs)
  all-AllAppended [] s v = record {
    behind = sym (append-nil (text s.calls));
    counted = λ c. c;
    within = λ m c l late inside. inside;
  }
  all-AllAppended (x ∷ xs) s (v, vs) =
      go (append localtime pid s (some x.buf) x.check_time x.roll x.answers) (append-Appended s x v)
        (λ s'. all-AllAppended xs s' vs)
    where
      go :
          (o : Option FileAppender)
          → Ends o (Appended s x)
          → ((s' : FileAppender) → Ends (append_all s' xs) (AllAppended s' xs))
          → Ends (elim o [ none ↦ none | some s' ↦ append_all s' xs ]) (AllAppended s (x ∷ xs))
      go none h rest = absurd h
      go (some s') h rest =
          Ends-mono (append_all s' xs) (AllAppended s' xs) _ (rest s')
            (λ s'' k. then-AllAppended s s' s'' x xs h k)

  -- As the constructor leaves it.
  pub record Fresh (limit t : ℕ) (s : FileAppender) : Type 0 where
    pub nothing : text s.calls ≡ []
    counted : IsCounted s
    within : (k : ℕ) → AllWithin k [] s.calls
    limited : s.roll_size_byte ≡ limit
    started : s.last_roll_time ≤ t

  rolled-Fresh :
      (s s' : FileAppender) (a : RollAnswers)
      → Fresh s.roll_size_byte 0 s
      → Checked s a s'
      → Fresh s.roll_size_byte a.now s'
  rolled-Fresh s s' a v w = record {
    nothing = w.kept.same_text ∙ v.nothing;
    counted = w.kept.counted v.counted;
    within = λ k. w.kept.within k (v.within k);
    limited = w.kept.same_limit;
    started = ground (arith, w.at, v.started);
  }

  Ticking-mono : (xs : List Append) (t u : ℕ) → t ≤ u → Ticking u xs → Ticking t xs
  Ticking-mono [] t u l v = tt
  Ticking-mono (x ∷ xs) t u l (v, vs) = (omega arith, vs)

  module _ (path logname : List ℕ) (limit days retain every : ℕ) (exists : Bool)
      (a : RollAnswers) where
    pub create-Fresh :
        0 < days
        → Returns
            (create localtime pid path logname limit days retain every exists a)
            (Fresh limit a.now)
    unfolding create
    create-Fresh l =
        let some_days : (days == 0) ≡ false = ground arith in
        rw some_days (rolled-Fresh _ _ a (first exists) (roll_file-Checked localtime pid _ a))
      where
        first :
            (exists : Bool)
            → Fresh limit 0 (record {
              path = path;
              logname = logname;
              roll_size_byte = limit;
              roll_period_sec = days * 24 * 60 * 60;
              retain_period_sec = retain * 24 * 60 * 60;
              check_every = every;
              count = 0;
              last_roll_time = 0;
              this_roll_period = 0;
              written_bytes = 0;
              file = null;
              calls = if exists then [] else makes_dir path ∷ [];
            })
        first true = record {
          nothing = refl;
          counted = refl;
          within = λ k. tt;
          limited = refl;
          started = omega arith;
        }
        first false = record {
          nothing = refl;
          counted = refl;
          within = λ k. tt;
          limited = refl;
          started = omega arith;
        }

    -- From the constructor on, as long as stdio reports no error, the bytes that were appended are handed
    -- to it in order, each once, however the files are rolled, and the count of bytes is that of the bytes
    -- handed over since the last `fopen`.
    pub append_all-text :
        (xs : List Append)
        → 0 < days
        → AllAnswered xs
        → Returns (create localtime pid path logname limit days retain every exists a) (λ s.
          Ends (append_all s xs) (λ s'.
            (text s'.calls ≡ messages xs) × (s'.written_bytes ≡ length (current [] s'.calls))))
    append_all-text xs l v =
        Returns-mono (create localtime pid path logname limit days retain every exists a)
          (Fresh limit a.now) _ (create-Fresh l)
          (λ s f.
            Ends-mono (append_all s xs) (AllAppended s xs) _ (all-AllAppended xs s v)
              (λ s' k. (k.behind ∙ ap (λ y. y ++ messages xs) f.nothing, k.counted f.counted)))

    -- When furthermore no message is longer than `m`, and each call finds the clock at a later second than
    -- the call before, a file that is opened n times gets at most n times as many bytes as the size at
    -- which it is rolled and `m` together.
    pub bytes_to-append_all :
        (m : ℕ) (xs : List Append)
        → 0 < days
        → AllAnswered xs
        → AllShort m xs
        → Ticking a.now xs
        → Returns (create localtime pid path logname limit days retain every exists a) (λ s.
          Ends (append_all s xs) (λ s'.
            (name : List ℕ)
            → length (bytes_to name false s'.calls) ≤ times_opened name s'.calls * (limit + m)))
    bytes_to-append_all m xs l v short late =
        Returns-mono (create localtime pid path logname limit days retain every exists a)
          (Fresh limit a.now) _ (create-Fresh l)
          (λ s f.
            Ends-mono (append_all s xs) (AllAppended s xs) _ (all-AllAppended xs s v) (λ s' k name.
              bytes_to_within name (limit + m) s'.calls (
                subst (λ n. AllWithin (n + m) [] s'.calls) f.limited
                  (k.within m f.counted short
                    (Ticking-mono xs s.last_roll_time a.now f.started late) (f.within _)))))
