-- ===== src/Log/Event/Logged.antt =====
-- A line of `CLIA_LOG` on its way into an `AsyncLogger`.
use clia.Prelude.{
  ℕ, ◌+◌, ◌≤◌, ◌<◌, ◌≡◌, sym, ◌∙◌, subst, true, Bool-cases, inl, inr, List, [], ◌∷◌, ◌++◌,
  append_assoc, length, length-append, Option, some, ltb, Outcome, ok, err, Fault, ◌>>=◌, Returns,
  Returns-bind, max_size, arith,
}
use clia.Util.Timestamp.{Timestamp, Tm}
use clia.Container.FixedOStream.Printing.{Piece, char, spell_all, spell_all-append, AllPrintable}
use clia.Log.Trait.{Level}
use clia.Log.Event.{TimeCache, Site, stream_size, tips, log_line}
use clia.Log.Event.Time.{IsFresh, IsUsual, full_time}
use clia.Log.Event.Line.{IsLine, IsSite, Follows, log_line_lem}
use clia.Log.AsyncLogger.{AsyncLogger, buffer_size, accepts, log}
use clia.Log.AsyncLogger.Buffers.{IsSound, Logged, log_lem}

-- Positions in a buffer of the logger are machine numbers.
pub small : buffer_size ≤ max_size
small = omega arith

abbrev pub IsShort : List ℕ → Type 0
IsShort r = (0 < length r) × (length r < stream_size)

ends-IsShort :
    (k : Outcome (List ℕ)) (r : List ℕ)
    → (k >>= λ q. spell_all stream_size q (char b'\n' ∷ [])) ≡ ok r
    → IsShort r
unfolding spell_all
ends-IsShort (err fault) r e = ground arith
ends-IsShort (ok q) r e = elim (Bool-cases (ltb (length q + 1) stream_size)) [
  | inl y ↦
      let same : ok (q ++ b'\n' ∷ []) ≡ ok r = rw y at e in
      ground (arith, length-append q (b'\n' ∷ []))
  | inr n ↦ let same : err Fault.assertion ≡ ok r = rw n at e in ground arith
]

line-IsShort :
    (ps : List Piece) (r : List ℕ)
    → spell_all stream_size [] (ps ++ char b'\n' ∷ []) ≡ ok r
    → IsShort r
line-IsShort ps r e =
    ends-IsShort (spell_all stream_size [] ps) r
      (sym (spell_all-append stream_size ps (char b'\n' ∷ []) []) ∙ e)

module _ (localtime : ℕ → Tm) where
  -- `CLIA_LOG(logger, level) << …` on an `AsyncLogger`.
  unfoldable pub log_event :
      AsyncLogger
      → Level
      → Site
      → TimeCache
      → Timestamp
      → List ℕ
      → List Piece
      → Outcome (AsyncLogger × TimeCache)
  log_event s level site c now items pieces = do
    (line, c') ← log_line localtime (some s.level) level site c now items pieces
    s' ← log buffer_size s level line
    ok (s', c')

  -- The line is queued behind all that was logged before, and the thread may log again.
  abbrev pub IsQueued : AsyncLogger → List ℕ → AsyncLogger × TimeCache → Type 0
  IsQueued s line (s', c) = Logged buffer_size small s line s' × IsFresh localtime c

  short-accepts :
      (s : AsyncLogger) (level : Level) (line : List ℕ)
      → s.running ≡ true
      → s.level ≤ level
      → IsShort line
      → accepts buffer_size s level (some line) ≡ true
  unfolding accepts
  short-accepts s level line r h k = ground (arith)

  handed :
      (s : AsyncLogger) (level : Level) (line : List ℕ) (c : TimeCache)
      → IsSound buffer_size s
      → s.running ≡ true
      → s.level ≤ level
      → IsShort line
      → IsFresh localtime c
      → Returns (log buffer_size s level (some line) >>= λ s'. ok (s', c)) (IsQueued s line)
  handed s level line c v r h k w =
      Returns-bind (log buffer_size s level (some line)) _ (Logged buffer_size small s line)
        (IsQueued s line)
        ((log_lem buffer_size small s level line v).0 (short-accepts s level line r h k)
          (omega (arith, k)))
        (λ s' d. (d, w))

  -- While the logger runs, a line at or above its level whose text leaves a character of the 1024 of
  -- the stream free is queued whole behind all that was logged before it, with its own time in front, and
  -- both the logger and the variables of the thread are as they have to be for the next line.
  pub log_event-IsQueued :
      (s : AsyncLogger) (level : Level) (site : Site) (c : TimeCache) (now : Timestamp)
      (items : List ℕ) (pieces : List Piece) (line : List ℕ)
      → IsSound buffer_size s
      → s.running ≡ true
      → s.level ≤ level
      → IsFresh localtime c
      → IsUsual localtime now
      → length items ≡ stream_size
      → IsSite site
      → AllPrintable pieces
      → spell_all stream_size []
          (tips (full_time localtime now) level site ++ (pieces ++ char b'\n' ∷ []))
        ≡ ok line
      → Returns (log_event s level site c now items pieces) (IsQueued s line)
  unfolding log_event
  log_event-IsQueued s level site c now items pieces line v r h w u l p q e =
      Returns-bind (log_line localtime (some s.level) level site c now items pieces) _
        (λ a. IsLine localtime a line) (IsQueued s line)
        (subst
          (λ k.
            Follows (log_line localtime (some s.level) level site c now items pieces) k
              (IsLine localtime))
          e ((log_line_lem localtime s.level level site c now items pieces w u l p q).0 h))
        (λ a d. go a.0 a.1 d.0 d.1)
    where
      short : IsShort line
      short = line-IsShort (tips (full_time localtime now) level site ++ pieces) line (
          rw
            (sym
              (append_assoc (tips (full_time localtime now) level site) pieces (char b'\n' ∷ [])))
            at e)

      go :
          (o : Option (List ℕ)) (c' : TimeCache)
          → o ≡ some line
          → IsFresh localtime c'
          → Returns (log buffer_size s level o >>= λ s'. ok (s', c')) (IsQueued s line)
      go o c' f w' =
          subst (λ o. Returns (log buffer_size s level o >>= λ s'. ok (s', c')) (IsQueued s line))
            (sym f) (handed s level line c' v r h short w')
