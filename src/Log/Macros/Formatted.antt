-- ===== src/Log/Macros/Formatted.antt =====
-- The macros of clia/clia/log.h that take a format, beside those that take operands.
use mathlib.Core.Path.{fun_ext}
use clia.Prelude.{
  ℕ, ◌≡◌, refl, ap, sym, List, [], ◌∷◌, Option, none, some, leb, if◌then◌else◌, Outcome, ok, err,
  ◌>>=◌, >>=_assoc,
}
use clia.Util.Timestamp.{Timestamp, Tm}
use clia.Container.FixedOStream
use clia.Container.FixedOStream.Printing.{formatted, put_all}
use clia.Log.Trait.{Level}
use clia.Log.Event.{
  Event, TimeCache, Site, stream_size, create, write, format, destroy, large_create, large_write,
  large_destroy, log_line, large_line,
}
use clia.Log.Macros.{fmt_log, large_log, large_fmt_log}

one_piece : (m : Outcome FixedOStream.FixedOStream) → (m >>= λ s'. put_all stream_size s' []) ≡ m
unfolding put_all
one_piece (ok s) = refl
one_piece (err fault) = refl

format-write : (e : Event) (text : Option (List ℕ)) → write e (formatted text ∷ []) ≡ format e text
unfolding write format put_all
format-write e text =
    ap (λ m. m >>= λ stream. ok (record e { stream = stream }))
      (one_piece (FixedOStream.format stream_size e.stream text))

module _ (localtime : ℕ → Tm) where
  -- A macro with a format makes the same line as the one with operands when these print the text that
  -- `vsnprintf` or `vasprintf` makes, or come to the same fault: with an `Event`, also when the format
  -- fails, and with a `LargeEvent`.
  pub fmt_log-operands :
      (logger : Option Level) (level : Level) (site : Site) (c : TimeCache) (now : Timestamp)
      (items : List ℕ) (text : Option (List ℕ)) (body : List ℕ)
      → (fmt_log localtime logger level site c now items text
          ≡ log_line localtime logger level site c now items (formatted text ∷ []))
        × (large_fmt_log localtime logger level site c now (some body)
            ≡ large_log localtime logger level site c now body)
  unfolding fmt_log log_line large_log large_fmt_log large_line
  fmt_log-operands none level site c now items text body = (refl, refl)
  fmt_log-operands (some least) level site c now items text body = (
    ap (λ line. if leb least level then line else ok (none, c))
        (ap (λ k. create localtime c now items level site >>= k)
          (fun_ext λ r.
            ap (λ m. m >>= λ e'. destroy e' >>= λ line. ok (some line, r.1))
              (sym (format-write r.0 text)))),
    ap (λ line. if leb least level then line else ok (none, c))
        (sym (
          >>=_assoc (large_create localtime c now level site)
            (λ r. ok (large_destroy (large_write r.0 body), r.1)) (λ r. ok (some r.0, r.1)))),
  )
