-- ===== src/Log/Event/Line.antt =====
-- The line that one `CLIA_LOG` hands to the logger.
use clia.Prelude.{
  ℕ, ◌^◌, ◌≤◌, ◌<◌, ◌≡◌, refl, ap, subst, true, false, List, [], ◌∷◌, ◌++◌, length, Option, none,
  some, leb, Outcome, ok, err, ◌>>=◌, >>=_assoc, Returns, arith,
}
use clia.Util.Timestamp.{Timestamp, Tm}
use clia.Container.FixedOStream
use clia.Container.FixedOStream.{FixedOStream, str}
use clia.Container.FixedBuffer.Contents.{Holds}
use clia.Container.FixedBuffer.Contents
use clia.Container.FixedOStream.Printing.{
  Piece, char, put_all, spell_all, extend, spell_all-append, Agrees, AllPrintable, put_all-Agrees,
  char-Agrees,
}
use clia.Log.Trait.{Level}
use clia.Log.Event.{
  TimeCache, Site, Event, stream_size, stamp, tips, create, write, destroy, log_line,
}
use clia.Log.Event.Time.{IsFresh, IsUsual, full_time, stamp-IsFresh}

-- The first comes to the fault of the second, or `P` holds of their results.
abbrev pub Follows : {A : Type 0} → Outcome A → Outcome (List ℕ) → (A → List ℕ → Type 0) → Type 0
Follows m (err fault) P = m ≡ err fault
Follows m (ok q) P = Returns m (λ a. P a q)

module _ {A B : Type 0} where
  Follows-bind :
      (m : Outcome A) (k : Outcome (List ℕ)) (P : A → List ℕ → Type 0) (f : A → Outcome B)
      (g : List ℕ → Outcome (List ℕ)) (Q : B → List ℕ → Type 0)
      → Follows m k P
      → ((a : A) (q : List ℕ) → P a q → Follows (f a) (g q) Q)
      → Follows (m >>= f) (k >>= g) Q
  Follows-bind m (err fault) P f g Q h step = rw h refl
  Follows-bind (ok a) (ok q) P f g Q h step = step a q h
  Follows-bind (err fault) (ok q) P f g Q h step = absurd h

Follows-Agrees :
    (m : Outcome FixedOStream) (k : Outcome (List ℕ))
    → Agrees stream_size m k
    → Follows m k (λ s q. Holds stream_size q s)
Follows-Agrees m (err fault) h = h
Follows-Agrees m (ok q) h = h

-- The numbers of a line fit in 64 bits.
abbrev pub IsSite : Site → Type 0
IsSite site = (site.pid < 2 ^ 64) × (site.tid < 2 ^ 64) × (site.line < 2 ^ 64)

module _ (localtime : ℕ → Tm) where
  -- The line was handed over, and the variables of the thread are fit for the next.
  abbrev pub IsLine : Option (List ℕ) × TimeCache → List ℕ → Type 0
  IsLine (line, c) q = (line ≡ some q) × IsFresh localtime c

  ended :
      (e : Event) (c : TimeCache) (q : List ℕ)
      → Holds stream_size q e.stream
      → IsFresh localtime c
      → Follows
          (destroy e >>= λ line. ok (some line, c))
          (spell_all stream_size q (char b'\n' ∷ []))
          IsLine
  unfolding destroy spell_all
  ended e c q v w =
      rw
        (>>=_assoc {C = Option (List ℕ) × TimeCache}
          (FixedOStream.put_char stream_size e.stream b'\n') (λ stream. ok (str stream))
          (λ line. ok (some line, c)))
        (Follows-bind (FixedOStream.put_char stream_size e.stream b'\n')
          (extend stream_size q (b'\n' ∷ [])) (λ s q. Holds stream_size q s)
          (λ s. ok (some (str s), c)) (λ q. ok q) IsLine
          (Follows-Agrees _ (extend stream_size q (b'\n' ∷ []))
            (char-Agrees stream_size e.stream q b'\n' v))
          (λ s q h. (ap some h.elements, w)))

  written :
      (level : Level) (s : FixedOStream) (c : TimeCache) (q : List ℕ) (pieces : List Piece)
      → Holds stream_size q s
      → IsFresh localtime c
      → AllPrintable pieces
      → Follows
          (write (record { level = level; stream = s }) pieces >>= λ e.
            destroy e >>= λ line. ok (some line, c))
          (spell_all stream_size q (pieces ++ char b'\n' ∷ []))
          IsLine
  unfolding write
  written level s c q pieces v w p =
      rw
        (
          >>=_assoc {C = Option (List ℕ) × TimeCache} (put_all stream_size s pieces)
              (λ stream. ok (record { level = level; stream = stream }))
              (λ e. destroy e >>= λ line. ok (some line, c)),
          spell_all-append stream_size pieces (char b'\n' ∷ []) q,
        )
        (Follows-bind (put_all stream_size s pieces) (spell_all stream_size q pieces)
          (λ s q. Holds stream_size q s)
          (λ stream.
            destroy (record { level = level; stream = stream }) >>= λ line. ok (some line, c))
          (λ q'. spell_all stream_size q' (char b'\n' ∷ [])) IsLine
          (Follows-Agrees _ (spell_all stream_size q pieces)
            (put_all-Agrees stream_size pieces s q v p))
          (λ s q h. ended (record { level = level; stream = s }) c q h w))

  -- The two parts of a line, behind the time.
  abbrev opened : Level → TimeCache → FixedOStream → Outcome (Event × TimeCache)
  opened level c stream = ok (record { level = level; stream = stream }, c)

  abbrev rest_of : List Piece → Event × TimeCache → Outcome (Option (List ℕ) × TimeCache)
  rest_of pieces r = write r.0 pieces >>= λ e. destroy e >>= λ line. ok (some line, r.1)

  empty :
      (items : List ℕ)
      → length items ≡ stream_size
      → Holds stream_size [] (FixedOStream.create items)
  unfolding FixedOStream.create
  empty items l = Contents.create-Holds stream_size items l (omega arith)

  -- From the constructor on, with the time that `stamp` left.
  begun :
      (level : Level) (site : Site) (items : List ℕ) (pieces : List Piece) (time : List ℕ)
      (c : TimeCache)
      → length items ≡ stream_size
      → IsSite site
      → AllPrintable pieces
      → IsFresh localtime c
      → Follows
          (put_all stream_size (FixedOStream.create items) (tips time level site)
            >>= opened level c
            >>= rest_of pieces)
          (spell_all stream_size [] (tips time level site ++ (pieces ++ char b'\n' ∷ [])))
          IsLine
  begun level site items pieces time c l (pid, tid, line) p w =
      rw
        (
          >>=_assoc {C = Option (List ℕ) × TimeCache}
              (put_all stream_size (FixedOStream.create items) (tips time level site))
              (opened level c) (rest_of pieces),
          spell_all-append stream_size (tips time level site) (pieces ++ char b'\n' ∷ []) [],
        )
        (Follows-bind (put_all stream_size (FixedOStream.create items) (tips time level site))
          (spell_all stream_size [] (tips time level site)) (λ s q. Holds stream_size q s)
          (λ stream. write (record { level = level; stream = stream }) pieces >>= λ e.
            destroy e >>= λ line. ok (some line, c))
          (λ q'. spell_all stream_size q' (pieces ++ char b'\n' ∷ [])) IsLine
          (Follows-Agrees _ (spell_all stream_size [] (tips time level site)) (
            put_all-Agrees stream_size (tips time level site) (FixedOStream.create items) []
              (empty items l) printable))
          (λ s q h. written level s c q pieces h w p))
    where
      printable : AllPrintable (tips time level site)
      printable = (
        tt,
        (
          tt,
          (
            pid,
            (tt, (tid, (tt, (tt, (tt, (tt, (tt, (tt, (tt, (tt, (line, (tt, (tt, tt))))))))))))),
          ),
        ),
      )

  -- A line that is logged at or above the logger's level is the time, not taken from the cache, the
  -- process, the thread, the level, the place in the source, then the operands in order, and a newline;
  -- or the call stops where this text does not leave a character of the 1024 free. Below the level,
  -- and without a logger, nothing is printed and nothing changes.
  pub log_line_lem :
      (least level : Level) (site : Site) (c : TimeCache) (now : Timestamp) (items : List ℕ)
      (pieces : List Piece)
      → IsFresh localtime c
      → IsUsual localtime now
      → length items ≡ stream_size
      → IsSite site
      → AllPrintable pieces
      → (least ≤ level
          → Follows
              (log_line localtime (some least) level site c now items pieces)
              (spell_all stream_size []
                (tips (full_time localtime now) level site ++ (pieces ++ char b'\n' ∷ [])))
              IsLine)
        × (level < least
            → log_line localtime (some least) level site c now items pieces ≡ ok (none, c))
        × (log_line localtime none level site c now items pieces ≡ ok (none, c))
  unfolding log_line create
  log_line_lem least level site c now items pieces v u l site_ok p = (
    λ h.
        let above : leb least level ≡ true = ground arith in
        rw above (go (stamp localtime c now) (stamp-IsFresh localtime c now v u)),
    λ h. let below : leb least level ≡ false = ground arith in rw below refl,
    refl,
  )
    where
      go :
          (m : Outcome TimeCache)
          → Returns m (λ c'. (c'.time_buf ≡ full_time localtime now) × IsFresh localtime c')
          → Follows
              (m
                >>= (λ c'.
                    put_all stream_size (FixedOStream.create items) (tips c'.time_buf level site)
                    >>= opened level c')
                >>= rest_of pieces)
              (spell_all stream_size []
                (tips (full_time localtime now) level site ++ (pieces ++ char b'\n' ∷ [])))
              IsLine
      go (ok c') (e, w) =
          subst
            (λ time.
              Follows
                (put_all stream_size (FixedOStream.create items) (tips c'.time_buf level site)
                  >>= opened level c'
                  >>= rest_of pieces)
                (spell_all stream_size [] (tips time level site ++ (pieces ++ char b'\n' ∷ [])))
                IsLine)
            e (begun level site items pieces c'.time_buf c' l site_ok p w)
      go (err fault) h = absurd h
