-- ===== src/Log/Event/Time.antt =====
-- The time in front of a line, and the variables of the thread that keep the text of its second.
use clia.Prelude.{
  ℕ, ◌+◌, ◌-◌, ◌≤◌, ◌≡◌, ◌≢◌, refl, sym, ap, ◌∙◌, true, false, Bool-cases, ◌⊎◌, inl, inr, List, [],
  ◌∷◌, ◌++◌, length, length-append, length-replicate, take, take-all, take-append_length, replicate,
  leb, ◌==◌, Outcome, ok, err, ◌>>=◌, ◌>>◌, accessible, Returns, arith,
}
use clia.Util.StrFunc.Printed.{length-decimal}
use clia.Util.Timestamp.{
  Timestamp, Tm, sec_since_epoch, micro_sec, to_format_str, short_date_time, decimal, padded,
}
use clia.Util.Timestamp.Width.{InRange, length-short_date_time}
use clia.Log.Event.{TimeCache, initial, refresh, fraction, stamp, time_buf_size}

module _ (localtime : ℕ → Tm) where
  -- Second and microsecond, without a cache.
  abbrev pub full_time : Timestamp → List ℕ
  full_time now = to_format_str localtime false now ++ fraction now

  abbrev second_text : ℕ → List ℕ
  second_text sec = short_date_time (localtime sec)

  -- The text of the last second is still in the buffer.
  pub record IsFresh (c : TimeCache) : Type 0 where
    pub kept :
        (c.last_update_sec ≡ 0)
        ⊎ ((take c.micro_sec_pos c.time_buf ≡ second_text c.last_update_sec)
            × (c.micro_sec_pos ≡ length (second_text c.last_update_sec)))

  -- A time after the first second of the epoch, whose second is printed in 56 characters or fewer.
  pub record IsUsual (now : Timestamp) : Type 0 where
    pub after_start : sec_since_epoch now ≢ 0
    pub fits : length (to_format_str localtime false now) ≤ 56

  length-fraction : (now : Timestamp) → length (fraction now) ≡ 7
  unfolding padded decimal
  length-fraction now = omega (
    arith,
    length-decimal (micro_sec now) (omega arith),
    length-append (replicate (6 - length (decimal (micro_sec now))) b'0') (decimal (micro_sec now)),
    length-replicate {A = ℕ} (6 - length (decimal (micro_sec now))) b'0',
  )

  -- What `stamp` leaves, once the text of the second stands in front.
  stamped :
      (c : TimeCache) (now : Timestamp)
      → IsUsual now
      → c.last_update_sec ≡ sec_since_epoch now
      → take c.micro_sec_pos c.time_buf ≡ second_text c.last_update_sec
      → c.micro_sec_pos ≡ length (second_text c.last_update_sec)
      → Returns
          (accessible (leb (c.micro_sec_pos + length (fraction now) + 1) time_buf_size)
            >> ok (record c { time_buf = take c.micro_sec_pos c.time_buf ++ fraction now }))
          (λ c'. (c'.time_buf ≡ full_time now) × IsFresh c')
  unfolding to_format_str
  stamped c now u e t p =
      let same : second_text c.last_update_sec ≡ second_text (sec_since_epoch now) =
        ap second_text e in
      let room : leb (c.micro_sec_pos + length (fraction now) + 1) time_buf_size ≡ true =
        ground (arith, length-fraction now, u.fits, p, ap length same) in
      rw room (
        ap (λ x. x ++ fraction now) (t ∙ same),
        record {
          kept = inr (
            take-append_length c.micro_sec_pos (take c.micro_sec_pos c.time_buf) (fraction now)
                  (ap length t ∙ sym p)
                ∙ t,
            p,
          );
        },
      )

  pub stamp-IsFresh :
      (c : TimeCache) (now : Timestamp)
      → IsFresh c
      → IsUsual now
      → Returns (stamp localtime c now) (λ c'. (c'.time_buf ≡ full_time now) × IsFresh c')
  unfolding stamp refresh to_format_str
  stamp-IsFresh c now v u = elim (Bool-cases (sec_since_epoch now == c.last_update_sec)) [
    | inl y ↦ rw y (same_second (ground arith) v.kept)
    | inr n ↦
        let whole : take 63 (second_text (sec_since_epoch now))
            ≡ second_text (sec_since_epoch now) =
          take-all 63 (second_text (sec_since_epoch now)) (omega (arith, u.fits)) in
        rw (n, whole)
          (stamped
            (record {
              micro_sec_pos = length (second_text (sec_since_epoch now));
              time_buf = second_text (sec_since_epoch now);
              last_update_sec = sec_since_epoch now;
            })
            now u refl (take-all _ (second_text (sec_since_epoch now)) (omega arith)) refl)
  ]
    where
      same_second :
          c.last_update_sec ≡ sec_since_epoch now
          → (c.last_update_sec ≡ 0)
            ⊎ ((take c.micro_sec_pos c.time_buf ≡ second_text c.last_update_sec)
                × (c.micro_sec_pos ≡ length (second_text c.last_update_sec)))
          → Returns
              (accessible (leb (c.micro_sec_pos + length (fraction now) + 1) time_buf_size)
                >> ok (record c { time_buf = take c.micro_sec_pos c.time_buf ++ fraction now }))
              (λ c'. (c'.time_buf ≡ full_time now) × IsFresh c')
      same_second e (inl z) = absurd (u.after_start (sym e ∙ z))
      same_second e (inr (t, p)) = stamped c now u e t p

  -- The times that one thread prints, one after the other.
  pub stamps : TimeCache → List Timestamp → Outcome (List (List ℕ))
  stamps c [] = ok []
  stamps c (now ∷ times) = do
    c' ← stamp localtime c now
    rest ← stamps c' times
    ok (c'.time_buf ∷ rest)

  abbrev pub full_times : List Timestamp → List (List ℕ)
  full_times [] = []
  full_times (now ∷ times) = full_time now ∷ full_times times

  -- Times after the first second of the epoch, of which `::localtime_r` makes what it documents.
  abbrev pub AllDated : List Timestamp → Type 0
  AllDated [] = Unit {0}
  AllDated (now ∷ times) =
      (sec_since_epoch now ≢ 0) × InRange (localtime (sec_since_epoch now)) × AllDated times

  dated-IsUsual :
      (now : Timestamp)
      → sec_since_epoch now ≢ 0
      → InRange (localtime (sec_since_epoch now))
      → IsUsual now
  unfolding to_format_str
  dated-IsUsual now n v = record {
    after_start = n;
    fits = omega (arith, length-short_date_time (localtime (sec_since_epoch now)) v);
  }

  stamps-from :
      (times : List Timestamp) (c : TimeCache)
      → IsFresh c
      → AllDated times
      → stamps c times ≡ ok (full_times times)
  unfolding stamps
  stamps-from [] c v u = refl
  stamps-from (now ∷ times) c v (n, u, us) =
      go (stamp localtime c now) (stamp-IsFresh c now v (dated-IsUsual now n u))
        (λ c' w. stamps-from times c' w us)
    where
      go :
          (m : Outcome TimeCache)
          → Returns m (λ c'. (c'.time_buf ≡ full_time now) × IsFresh c')
          → ((c' : TimeCache) → IsFresh c' → stamps c' times ≡ ok (full_times times))
          → (m >>= λ c'. stamps c' times >>= λ rest. ok (c'.time_buf ∷ rest))
            ≡ ok (full_time now ∷ full_times times)
      go (ok c') (e, w) rest = rw (rest c' w) (ap (λ t. ok (t ∷ full_times times)) e)
      go (err fault) h rest = absurd h

  pub initial-IsFresh : IsFresh initial
  initial-IsFresh = record { kept = inl refl }

  -- At whatever times after the first second of the epoch a thread logs, in any order, when the fields
  -- that `::localtime_r` answers are in their ranges and the years have at most four digits, each is
  -- printed as without the variables that keep the text of the last second, and inside of the array.
  pub stamps-full_times :
      (times : List Timestamp) → AllDated times → stamps initial times ≡ ok (full_times times)
  stamps-full_times times u = stamps-from times initial initial-IsFresh u
