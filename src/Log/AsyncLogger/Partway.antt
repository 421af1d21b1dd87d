-- ===== src/Log/AsyncLogger/Partway.antt =====
-- An `AsyncLogger` between the moves of the buffers in `log`, when the current one was full.
use clia.Prelude.{
  ℕ, ◌≤◌, ◌<◌, ◌≡◌, refl, sym, ap, ◌∙◌, ◌≢◌, false, Option, none, some, List, [], ◌∷◌, ◌++◌, length,
  ltb, append-nil, Returns, Returns-bind, arith, max_size, length-append,
}
use clia.Container.FixedBuffer
use clia.Container.FixedBuffer.Contents.{contents, IsValid, size-length}
use clia.Log.AsyncLogger.{
  AsyncLogger, Buffer, append_to, replacement, move_full, take_next, append_current,
}
use clia.Log.AsyncLogger.Buffers.{
  all_bytes, bytes_of, pending, all_bytes-append, AllValid, MaybeBlank, Blank, Points, IsSound,
  AllValid-append, new_buffer-Holds, append_to-Holds, Logged,
}
use clia.Log.AsyncLogger.Delivery.{bytes_of-Blank}

-- The buffers that wait, of which the last was full, and the message that did not fit into it.
pub record Partway (nm : ℕ) (message : List ℕ) (s : AsyncLogger) : Type 0 where
  pub pos : 0 < length message
  pub short : length message < nm
  pub next_blank : MaybeBlank nm s.next
  pub buffers_valid : AllValid nm s.buffers
  pub waits : s.buffers ≢ []
  pub full : 0 < length (all_bytes s.buffers)

pub record Moved (nm : ℕ) (message : List ℕ) (s : AsyncLogger) : Type 0 where
  pub partway : Partway nm message s
  pub current_null : s.current ≡ none

pub record Taken (nm : ℕ) (message : List ℕ) (s : AsyncLogger) : Type 0 where
  pub partway : Partway nm message s
  pub current_blank : Blank nm s.current
  pub next_null : s.next ≡ none

module _ (nm : ℕ) (small : nm ≤ max_size) where
  pub move_full-Moved :
      (s : AsyncLogger) (message : List ℕ) (b : Buffer)
      → IsSound nm s
      → 0 < length message
      → length message < nm
      → s.current ≡ some b
      → ltb (length message) (FixedBuffer.avail nm b) ≡ false
      → Moved nm message (move_full nm s b) × (pending (move_full nm s b) ≡ pending s)
  move_full-Moved s message b v pos short e full = (
    record {
      partway = record {
        pos = pos;
        short = short;
        next_blank = v.next_blank;
        buffers_valid = AllValid-append nm s.buffers b v.buffers_valid valid;
        waits = λ f. absurd (omega (arith, ap length f, length-append s.buffers (b ∷ [])));
        full =
            omega
              (arith, some_held, ap length all, length-append (all_bytes s.buffers) (contents b));
      };
      current_null = refl;
    },
    append-nil (all_bytes (s.buffers ++ b ∷ [])) ∙ all ∙ rw e refl,
  )
    where
      valid : IsValid nm b
      valid = rw e at v.current_valid

      some_held : 0 < length (contents b)
      some_held = ground (arith, valid, size-length nm b valid)

      all : all_bytes (s.buffers ++ b ∷ []) ≡ all_bytes s.buffers ++ contents b
      all =
          all_bytes-append s.buffers (b ∷ [])
          ∙ ap (◌++◌ (all_bytes s.buffers)) (append-nil (contents b))

  replacement-Blank : (o : Option Buffer) → MaybeBlank nm o → Blank nm (replacement nm o)
  unfolding replacement
  replacement-Blank none v = new_buffer-Holds nm small
  replacement-Blank (some b) v = v

  pub take_next-Taken :
      (s : AsyncLogger) (message : List ℕ)
      → Moved nm message s
      → Taken nm message (take_next nm s) × (pending (take_next nm s) ≡ pending s)
  take_next-Taken s message v =
      let blank = replacement-Blank s.next v.partway.next_blank in
      (
        record {
          partway = record {
            pos = v.partway.pos;
            short = v.partway.short;
            next_blank = tt;
            buffers_valid = v.partway.buffers_valid;
            waits = v.partway.waits;
            full = v.partway.full;
          };
          current_blank = blank;
          next_null = refl;
        },
        ap (◌++◌ (all_bytes s.buffers))
            (bytes_of-Blank nm (replacement nm s.next) blank ∙ ap bytes_of (sym v.current_null)),
      )

  append_to-Blank :
      (o : Option Buffer) (message : List ℕ)
      → Blank nm o
      → length message < nm
      → Returns (append_to nm o message) (λ c. Points nm c × (bytes_of c ≡ message))
  append_to-Blank none message v l = absurd v
  append_to-Blank (some b) message v l = append_to-Holds nm small b [] message v (omega arith)

  -- The append that ends the section.
  pub append_current-Logged :
      (s : AsyncLogger) (message : List ℕ)
      → Taken nm message s
      → Returns (append_current nm s message) (Logged nm small s message)
  append_current-Logged s message v =
      Returns-bind (append_to nm s.current message) _ _ (Logged nm small s message)
        (append_to-Blank s.current message v.current_blank v.partway.short)
        (λ c k. record {
          sound = record {
            current_valid = k.0;
            next_blank = v.partway.next_blank;
            buffers_valid = v.partway.buffers_valid;
            spare_waits = λ _. v.partway.waits;
            current_used = λ _ e. absurd (omega (arith, v.partway.pos, ap length (sym k.1 ∙ e)));
          };
          queued =
              ap (◌++◌ (all_bytes s.buffers)) k.1
              ∙ sym (
                  ap (λ t. (all_bytes s.buffers ++ t) ++ message)
                    (bytes_of-Blank nm s.current v.current_blank)
                  ∙ ap (λ t. t ++ message) (append-nil (all_bytes s.buffers)));
        })
