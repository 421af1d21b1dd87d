-- ===== src/Log/FileAppender/Rolling.antt =====
-- What a `FileAppender` writes from one `fopen` to the next, and how much.
use clia.Prelude.{
  ℕ, ◌⊎◌, ◌+◌, ◌-◌, ◌*◌, ◌/◌, ◌≤◌, ◌≡◌, ◌≢◌, refl, sym, ap, ◌∙◌, subst, Bool, true, false,
  Bool-cases, inl, inr, List, [], ◌∷◌, ◌++◌, append-nil, length, length-append, Option, none, some,
  ltb, leb, ◌==◌, if◌then◌else◌, arith,
}
use clia.Util.Timestamp.{Tm}
use clia.Log.FileAppender.{
  FileAppender, StdioCall, Entry, RollAnswers, opens, sets_buffer, close_file, all_removed,
  old_files, get_date_prefix, get_logfilename, del_old_files, open_file, roll_file, roll_if_due,
  written_into,
}
use clia.Log.FileAppender.Writing.{text, AreAnswers, AreClean, IsWritten}
use clia.Log.FileAppender.Calls.{
  current, AllWithin, IsQuiet, text-append, current-append, AllWithin-append, quiet_lem,
  close_file-IsQuiet, all_removed-IsQuiet, writes_lem,
}

-- `written_bytes_` counts what was written since the last `fopen`.
abbrev pub IsCounted : FileAppender → Type 0
IsCounted s = s.written_bytes ≡ length (current [] s.calls)

-- From one state to another without a byte written.
pub record Kept (s s' : FileAppender) : Type 0 where
  pub same_text : text s'.calls ≡ text s.calls
  pub counted : IsCounted s → IsCounted s'
  pub within : (k : ℕ) → AllWithin k [] s.calls → AllWithin k [] s'.calls
  pub same_limit : s'.roll_size_byte ≡ s.roll_size_byte

quiet-Kept :
    (s : FileAppender) (calls : List StdioCall)
    → IsQuiet calls
    → Kept s (record s { calls = s.calls ++ calls })
quiet-Kept s calls q =
    let (nothing, same, v) = quiet_lem 0 calls (current [] s.calls) q in
    record {
      same_text =
          text-append s.calls calls ∙ ap (◌++◌ (text s.calls)) nothing ∙ append-nil (text s.calls);
      counted = λ c. c ∙ ap length (sym (current-append s.calls calls [] ∙ same));
      within =
          λ k v. AllWithin-append k s.calls calls [] v (quiet_lem k calls (current [] s.calls) q).2;
      same_limit = refl;
    }

text_quiet : (xs ys : List StdioCall) → text ys ≡ [] → text (xs ++ ys) ≡ text xs
text_quiet xs ys e = text-append xs ys ∙ ap (◌++◌ (text xs)) e ∙ append-nil (text xs)

-- After a file was closed and another opened.
opened_calls :
    (calls closing setting : List StdioCall) (name : List ℕ)
    → IsQuiet closing
    → IsQuiet setting
    → (text (calls ++ closing ++ opens name ∷ setting) ≡ text calls)
      × (current [] (calls ++ closing ++ opens name ∷ setting) ≡ [])
      × ((k : ℕ) → AllWithin k [] calls → AllWithin k [] (calls ++ closing ++ opens name ∷ setting))
opened_calls calls closing setting name q r = (
  text_quiet (calls ++ closing) (opens name ∷ setting) (quiet_lem 0 setting [] r).0
      ∙ text_quiet calls closing (quiet_lem 0 closing [] q).0,
  current-append (calls ++ closing) (opens name ∷ setting) [] ∙ (quiet_lem 0 setting [] r).1,
  λ k v.
      AllWithin-append k (calls ++ closing) (opens name ∷ setting) []
        (AllWithin-append k calls closing [] v (quiet_lem k closing (current [] calls) q).2)
        (quiet_lem k setting [] r).2,
)

Kept-trans : (s s' s'' : FileAppender) → Kept s s' → Kept s' s'' → Kept s s''
Kept-trans s s' s'' v w = record {
  same_text = w.same_text ∙ v.same_text;
  counted = λ c. w.counted (v.counted c);
  within = λ k h. w.within k (v.within k h);
  same_limit = w.same_limit ∙ v.same_limit;
}

-- Rolled at another time than the last, a file begins anew.
record Rolled (s : FileAppender) (a : RollAnswers) (s' : FileAppender) : Type 0 where
  kept : Kept s s'
  empty : s'.written_bytes ≡ 0
  at : s'.last_roll_time ≡ a.now

-- Behind the checks in front of the loop of `append_unlocked`.
pub record Checked (s : FileAppender) (a : RollAnswers) (s' : FileAppender) : Type 0 where
  pub kept : Kept s s'
  pub low : s.last_roll_time ≢ a.now → s'.written_bytes ≤ s'.roll_size_byte
  pub at : (s'.last_roll_time ≡ s.last_roll_time) ⊎ (s'.last_roll_time ≡ a.now)

counting-Checked :
    (s : FileAppender) (a : RollAnswers) (n : ℕ)
    → s.written_bytes ≤ s.roll_size_byte
    → Checked s a (record s { count = n })
counting-Checked s a n l = record {
  kept = record { same_text = refl; counted = λ c. c; within = λ k v. v; same_limit = refl };
  low = λ _. l;
  at = inl refl;
}

-- One call of `append` that stdio answers without an error.
pub record Append : Type 0 where
  pub buf : List ℕ
  pub check_time : ℕ
  pub roll : RollAnswers
  pub answers : List (ℕ × Bool)

abbrev pub IsAnswered : Append → Type 0
IsAnswered x = AreAnswers x.buf x.answers × AreClean x.answers × (length x.buf ≤ length x.answers)

-- The result of a call, which has come to its end, has `P`.
abbrev pub Ends : Option FileAppender → (FileAppender → Type 0) → Type 0
Ends none P = ⊥
Ends (some s) P = P s

-- What one call does.
pub record Appended (s : FileAppender) (x : Append) (s' : FileAppender) : Type 0 where
  pub behind : text s'.calls ≡ text s.calls ++ x.buf
  pub counted : IsCounted s → IsCounted s'
  pub within :
      (m : ℕ)
      → IsCounted s
      → length x.buf ≤ m
      → s.last_roll_time ≢ x.roll.now
      → AllWithin (s.roll_size_byte + m) [] s.calls
      → AllWithin (s.roll_size_byte + m) [] s'.calls
  pub same_limit : s'.roll_size_byte ≡ s.roll_size_byte
  pub at : (s'.last_roll_time ≡ s.last_roll_time) ⊎ (s'.last_roll_time ≡ x.roll.now)

pub written-Appended :
    (s s' : FileAppender) (x : Append) (o : Option (List StdioCall × ℕ))
    → Checked s x.roll s'
    → IsWritten x.buf x.answers o
    → AreClean x.answers
    → Ends (written_into s' o) (Appended s x)
written-Appended s s' x none v w clean = absurd w
written-Appended s s' x (some (calls, written)) v (only, _, _, whole) clean =
    let (t, n) = whole clean in
    let (now, _) = writes_lem 0 calls (current [] s'.calls) only in
    let grown : current [] (s'.calls ++ calls) ≡ current [] s'.calls ++ x.buf =
      current-append s'.calls calls [] ∙ now ∙ ap (◌++◌ (current [] s'.calls)) t in
    record {
      behind =
          text-append s'.calls calls
          ∙ ap (λ y. y ++ text calls) v.kept.same_text
          ∙ ap (◌++◌ (text s.calls)) t;
      counted = λ c.
          omega (
            arith,
            n,
            ap length grown,
            length-append (current [] s'.calls) x.buf,
            v.kept.counted c,
          );
      within = λ m c l late inside.
          AllWithin-append (s.roll_size_byte + m) s'.calls calls []
            (v.kept.within (s.roll_size_byte + m) inside)
            ((writes_lem (s.roll_size_byte + m) calls (current [] s'.calls) only).1 (
              omega (
                arith,
                ap length t,
                length-append (current [] s'.calls) (text calls),
                v.kept.counted c,
                v.low late,
                l,
                v.kept.same_limit,
              )));
      same_limit = v.kept.same_limit;
      at = v.at;
    }

module _ (localtime : ℕ → Tm) (pid : ℕ) where
  deleted-Rolled :
      (s s' : FileAppender) (a : RollAnswers) (t : ℕ) (entries : Option (List Entry))
      → Rolled s a s'
      → Rolled s a (del_old_files localtime s' t entries)
  unfolding del_old_files
  deleted-Rolled s s' a t none v = v
  deleted-Rolled s s' a t (some entries) v =
      let names =
        old_files s'.path (get_date_prefix localtime (t - s'.retain_period_sec)) entries in
      record {
        kept =
            Kept-trans s s' _ v.kept
              (quiet-Kept s' (all_removed names) (all_removed-IsQuiet names));
        empty = v.empty;
        at = v.at;
      }

  open_file-Rolled : (s : FileAppender) (a : RollAnswers) → Rolled s a (open_file localtime pid s a)
  unfolding open_file
  open_file-Rolled s a =
      let (t, c, w) =
        opened_calls s.calls (close_file s.file) (if a.is_opened then sets_buffer name ∷ [] else [])
          name (close_file-IsQuiet s.file) (quiet a.is_opened) in
      record {
        kept = record {
          same_text = t;
          counted = λ _. ap length (sym c);
          within = w;
          same_limit = refl;
        };
        empty = refl;
        at = refl;
      }
    where
      name : List ℕ
      name = get_logfilename localtime pid s a.name_time

      quiet : (is_opened : Bool) → IsQuiet (if is_opened then sets_buffer name ∷ [] else [])
      quiet true = tt
      quiet false = tt

  roll_file-Rolled :
      (s : FileAppender) (a : RollAnswers)
      → s.last_roll_time ≢ a.now
      → Rolled s a (roll_file localtime pid s a)
  unfolding roll_file
  roll_file-Rolled s a n =
      let other : (s.last_roll_time == a.now) ≡ false = ground arith in
      rw other (
        deleted-Rolled s (open_file localtime pid s a) a a.delete_time a.entries
          (open_file-Rolled s a))

  same_second :
      (s : FileAppender) (a : RollAnswers)
      → s.last_roll_time ≡ a.now
      → roll_file localtime pid s a ≡ s
  unfolding roll_file
  same_second s a e = let same : (s.last_roll_time == a.now) ≡ true = ground arith in rw same refl

  pub roll_file-Checked :
      (s : FileAppender) (a : RollAnswers) → Checked s a (roll_file localtime pid s a)
  roll_file-Checked s a = elim (Bool-cases (s.last_roll_time == a.now)) [
    | inl y ↦
        let e : s.last_roll_time ≡ a.now = ground arith in
        subst (Checked s a) (sym (same_second s a e)) (record {
          kept = record {
            same_text = refl;
            counted = λ c. c;
            within = λ k v. v;
            same_limit = refl;
          };
          low = λ n. absurd (n e);
          at = inl refl;
        })
    | inr z ↦
        let v = roll_file-Rolled s a (ground arith) in
        record { kept = v.kept; low = λ _. omega (arith, v.empty); at = inr v.at }
  ]

  pub roll_if_due-Checked :
      (s : FileAppender) (t : ℕ) (a : RollAnswers) → Checked s a (roll_if_due localtime pid s t a)
  unfolding roll_if_due
  roll_if_due-Checked s t a = elim (Bool-cases (ltb s.roll_size_byte s.written_bytes)) [
    | inl over ↦ rw over (roll_file-Checked s a)
    | inr under ↦
        let low : s.written_bytes ≤ s.roll_size_byte = ground arith in
        rw under (elim (Bool-cases (leb s.check_every (s.count + 1))) [
          | inr few ↦ rw few (counting-Checked s a (s.count + 1) low)
          | inl check ↦
              rw check
                (elim (Bool-cases
                  (t / s.roll_period_sec * s.roll_period_sec == s.this_roll_period)) [
                    | inl same ↦ rw same (counting-Checked s a 0 low)
                    | inr other ↦
                        rw other (recounted (roll_file-Checked (record s { count = 0 }) a))
                  ])
        ])
  ]
    where
      recounted : {s' : FileAppender} → Checked (record s { count = 0 }) a s' → Checked s a s'
      recounted v = record {
        kept = record {
          same_text = v.kept.same_text;
          counted = v.kept.counted;
          within = v.kept.within;
          same_limit = v.kept.same_limit;
        };
        low = v.low;
        at = v.at;
      }
