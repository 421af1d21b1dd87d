-- ===== src/Log/Pipeline/Written.antt =====
-- What an `AsyncLogger` took in, and what its `FileAppender` handed to stdio.
use clia.Prelude.{
  ℕ, ◌≤◌, ◌<◌, ◌≡◌, sym, ap, ◌∙◌, Bool, false, List, [], ◌∷◌, ◌++◌, append_assoc, append-nil,
  max_size, Option, none, some, ok, Returns, Returns-mono,
}
use clia.Util.Timestamp.{Tm}
use clia.Log.AsyncLogger.{wants_more}
use clia.Log.AsyncLogger.Delivery.{delivered}
use clia.Log.AsyncLogger.System.{System, Steps, start, top, free}
use clia.Log.AsyncLogger.NoLoss.{complete_at_end}
use clia.Log.FileAppender.{FileAppender, RollAnswers, append, flush, flushes, create}
use clia.Log.FileAppender.Writing.{text}
use clia.Log.FileAppender.Calls.{text-append}
use clia.Log.FileAppender.Rolling.{IsAnswered, Ends, Appended}
use clia.Log.FileAppender.Appends.{Ends-mono, append-Appended, Fresh, create-Fresh}
use clia.Log.Pipeline.{Request, asks_append, asks_flush, calls_of, serve, serve_all}

abbrev pub AllServed : List Request → Type 0
AllServed [] = Unit {0}
AllServed (asks_append x ∷ rs) = IsAnswered x × AllServed rs
AllServed (asks_flush ∷ rs) = AllServed rs

module _ (localtime : ℕ → Tm) (pid : ℕ) where
  flush-text : (s : FileAppender) → text (flush s).calls ≡ text s.calls
  flush-text s = text-append s.calls (flushes ∷ []) ∙ append-nil (text s.calls)

  serve_all-text :
      (rs : List Request) (s : FileAppender)
      → AllServed rs
      → Ends
          (serve_all localtime pid s rs)
          (λ s'. text s'.calls ≡ text s.calls ++ delivered (calls_of rs))
  unfolding serve_all serve
  serve_all-text [] s v = sym (append-nil (text s.calls))
  serve_all-text (asks_flush ∷ rs) s v =
      Ends-mono (serve_all localtime pid (flush s) rs) _ _ (serve_all-text rs (flush s) v)
        (λ s' e. e ∙ ap (λ t. t ++ delivered (calls_of rs)) (flush-text s))
  serve_all-text (asks_append x ∷ rs) s (v, vs) =
      go (append localtime pid s (some x.buf) x.check_time x.roll x.answers)
        (append-Appended localtime pid s x v) (λ s'. serve_all-text rs s' vs)
    where
      go :
          (o : Option FileAppender)
          → Ends o (Appended s x)
          → ((s' : FileAppender)
              → Ends
                  (serve_all localtime pid s' rs)
                  (λ s''. text s''.calls ≡ text s'.calls ++ delivered (calls_of rs)))
          → Ends
              (elim o [ none ↦ none | some s' ↦ serve_all localtime pid s' rs ])
              (λ s'. text s'.calls ≡ text s.calls ++ (x.buf ++ delivered (calls_of rs)))
      go none h rest = absurd h
      go (some s') h rest = Ends-mono (serve_all localtime pid s' rs) _ _ (rest s') (λ s'' e.
          e
          ∙ ap (λ t. t ++ delivered (calls_of rs)) h.behind
          ∙ append_assoc (text s.calls) x.buf (delivered (calls_of rs)))

  -- When the thread of an `AsyncLogger` leaves its loop while no producer is between the moves of the
  -- buffers in `log`, however the producers and it have stepped and
  -- whenever its appender's files were rolled, unless an iteration dropped buffers and as long as stdio
  -- reports no error, stdio was handed every byte taken in until then, each once and in order.
  pub serve_all-logged :
      (nm : ℕ) (notice : ℕ → List ℕ) (level : ℕ) (path logname : List ℕ)
      (limit days retain every : ℕ) (exists : Bool) (a : RollAnswers) (rs : List Request)
      {s : System}
      → nm ≤ max_size
      → Steps nm notice (start nm level) s
      → s.phase ≡ top
      → s.section ≡ free
      → wants_more s.logger ≡ ok false
      → s.dropped ≡ false
      → calls_of rs ≡ s.calls
      → 0 < days
      → AllServed rs
      → Returns
          (create localtime pid path logname limit days retain every exists a)
          (λ f. Ends (serve_all localtime pid f rs) (λ f'. text f'.calls ≡ s.logged))
  serve_all-logged nm notice level path logname limit days retain every exists a rs {s} small r p c
        m d same l v =
      Returns-mono (create localtime pid path logname limit days retain every exists a)
        (Fresh localtime pid limit a.now) _
        (create-Fresh localtime pid path logname limit days retain every exists a l)
        (λ f fresh. Ends-mono (serve_all localtime pid f rs) _ _ (serve_all-text rs f v) (λ f' e.
          e
          ∙ ap (λ t. t ++ delivered (calls_of rs)) fresh.nothing
          ∙ ap delivered same
          ∙ complete_at_end nm notice small level r p c m d))
