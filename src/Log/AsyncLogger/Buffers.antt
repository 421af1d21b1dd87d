-- ===== src/Log/AsyncLogger/Buffers.antt =====
-- What the buffers of an `AsyncLogger` hold between its sections, and that no pointer is null and no
-- assertion fails where they are used.
use clia.Prelude.{
  ℕ, ◌+◌, ◌≤◌, ◌<◌, ◌≡◌, refl, sym, ap, ◌∙◌, ◌≢◌, true, false, Option, none, some, List, [], ◌∷◌,
  ◌++◌, length, ltb, ge→ltb, append_assoc, append-nil, ok, err, Fault, Returns, Returns-bind, arith,
  max_size, length-replicate, length-append, Bool-cases, inl, inr, ◌⊎◌, replicate,
}
use clia.Container.FixedBuffer
use clia.Container.FixedBuffer.Contents.{
  contents, IsValid, Holds, size-length, create-Holds, append-Holds, append_full,
}
use clia.Log.AsyncLogger.{
  AsyncLogger, Buffer, new_buffer, create, append_to, replacement, log_into, log_locked, log,
  accepts,
}

-- The bytes of buffers in a row.
abbrev pub all_bytes : List Buffer → List ℕ
all_bytes [] = []
all_bytes (b ∷ bs) = contents b ++ all_bytes bs

abbrev pub bytes_of : Option Buffer → List ℕ
bytes_of none = []
bytes_of (some b) = contents b

-- What was logged and not yet swapped out.
abbrev pub pending : AsyncLogger → List ℕ
pending s = all_bytes s.buffers ++ bytes_of s.current

pub all_bytes-append : (bs cs : List Buffer) → all_bytes (bs ++ cs) ≡ all_bytes bs ++ all_bytes cs
all_bytes-append [] cs = refl
all_bytes-append (b ∷ bs) cs =
    ap (◌++◌ (contents b)) (all_bytes-append bs cs)
    ∙ sym (append_assoc (contents b) (all_bytes bs) (all_bytes cs))

module _ (nm : ℕ) where
  abbrev pub AllValid : List Buffer → Type 0
  AllValid [] = Unit {0}
  AllValid (b ∷ bs) = IsValid nm b × AllValid bs

  -- A pointer to a valid buffer.
  abbrev pub Points : Option Buffer → Type 0
  Points none = ⊥
  Points (some b) = IsValid nm b

  -- No buffer, or an empty one.
  abbrev pub MaybeBlank : Option Buffer → Type 0
  MaybeBlank none = Unit {0}
  MaybeBlank (some b) = Holds nm [] b

  abbrev pub Blank : Option Buffer → Type 0
  Blank none = ⊥
  Blank (some b) = Holds nm [] b

  -- A full buffer waits wherever `next_buffer_` was taken, and wherever one waits the current buffer
  -- holds a message.
  pub record IsSound (s : AsyncLogger) : Type 0 where
    pub current_valid : Points s.current
    pub next_blank : MaybeBlank s.next
    pub buffers_valid : AllValid s.buffers
    pub spare_waits : s.next ≡ none → s.buffers ≢ []
    pub current_used : s.buffers ≢ [] → bytes_of s.current ≢ []

  pub AllValid-append :
      (bs : List Buffer) (b : Buffer) → AllValid bs → IsValid nm b → AllValid (bs ++ b ∷ [])
  AllValid-append [] b v w = (w, tt)
  AllValid-append (c ∷ bs) b v w = (v.0, AllValid-append bs b v.1 w)

module _ (nm : ℕ) (small : nm ≤ max_size) where
  pub new_buffer-Holds : Holds nm [] (new_buffer nm)
  unfolding new_buffer
  new_buffer-Holds = create-Holds nm (replicate nm 0) (length-replicate nm 0) small

  pub create-IsSound : (level : ℕ) → IsSound nm (create nm level) × (pending (create nm level) ≡ [])
  unfolding create
  create-IsSound level = (
    record {
      current_valid = new_buffer-Holds.valid;
      next_blank = new_buffer-Holds;
      buffers_valid = tt;
      spare_waits = λ e. cc;
      current_used = λ h. absurd (h refl);
    },
    new_buffer-Holds.elements,
  )

  pub append_to-Holds :
      (b : Buffer) (q message : List ℕ)
      → Holds nm q b
      → length q + length message < nm
      → Returns (append_to nm (some b) message) (λ c. Points nm c × (bytes_of c ≡ q ++ message))
  unfolding append_to
  append_to-Holds b q message v l =
      Returns-bind (FixedBuffer.append nm true b message) _ (Holds nm (q ++ message)) _
        (append-Holds nm true b q message v l) (λ b' h. (h.valid, h.elements))

  append_to-replacement :
      (o : Option Buffer) (message : List ℕ)
      → MaybeBlank nm o
      → length message < nm
      → Returns
          (append_to nm (replacement nm o) message)
          (λ c. Points nm c × (bytes_of c ≡ message))
  unfolding replacement
  append_to-replacement none message v l =
      append_to-Holds (new_buffer nm) [] message new_buffer-Holds (omega arith)
  append_to-replacement (some b) message v l = append_to-Holds b [] message v (omega arith)

  append_ne_nil : (xs ys : List ℕ) → 0 < length ys → xs ++ ys ≢ []
  append_ne_nil xs ys h e = absurd (omega (arith, ap length e, length-append xs ys))

  -- The message is behind all that was logged before it.
  pub record Logged (s : AsyncLogger) (message : List ℕ) (s' : AsyncLogger) : Type 0 where
    pub sound : IsSound nm s'
    pub queued : pending s' ≡ pending s ++ message

  same_buffer :
      (s : AsyncLogger) (message : List ℕ) (b : Buffer) (c : Option Buffer)
      → s.current ≡ some b
      → IsSound nm s
      → 0 < length message
      → Points nm c × (bytes_of c ≡ contents b ++ message)
      → Logged s message (record s { current = c })
  same_buffer s message b c e v pos k = record {
    sound = record {
      current_valid = k.0;
      next_blank = v.next_blank;
      buffers_valid = v.buffers_valid;
      spare_waits = v.spare_waits;
      current_used = λ _. rw k.1 (append_ne_nil (contents b) message pos);
    };
    queued = rw (k.1, e) (sym (append_assoc (all_bytes s.buffers) (contents b) message));
  }

  other_buffer :
      (s : AsyncLogger) (message : List ℕ) (b : Buffer) (c : Option Buffer)
      → s.current ≡ some b
      → IsSound nm s
      → 0 < length message
      → IsValid nm b
      → Points nm c × (bytes_of c ≡ message)
      → Logged s message (record s { buffers = s.buffers ++ b ∷ []; next = none; current = c })
  other_buffer s message b c e v pos w k = record {
    sound = record {
      current_valid = k.0;
      next_blank = tt;
      buffers_valid = AllValid-append nm s.buffers b v.buffers_valid w;
      spare_waits = λ _ f. absurd (omega (arith, ap length f, length-append s.buffers (b ∷ [])));
      current_used = λ _. rw k.1 (append_ne_nil [] message pos);
    };
    queued = rw (k.1, e, all_bytes-append s.buffers (b ∷ []), append-nil (contents b)) refl;
  }

  log_into-Logged :
      (s : AsyncLogger) (message : List ℕ) (o : Option Buffer)
      → s.current ≡ o
      → IsSound nm s
      → 0 < length message
      → length message < nm
      → Returns (log_into nm s message o) (Logged s message)
  unfolding log_into
  log_into-Logged s message none e v pos l = absurd (rw e at v.current_valid)
  log_into-Logged s message (some b) e v pos l =
      elim (Bool-cases (ltb (length message) (FixedBuffer.avail nm b))) [
        | inl fits ↦ rw fits (
            Returns-bind (append_to nm (some b) message) _ _ (Logged s message)
              (append_to-Holds b (contents b) message (record { valid = valid; elements = refl })
                (omega (arith, size-length nm b valid, fit fits)))
              (λ c k. same_buffer s message b c e v pos k))
        | inr full ↦ rw full (
            Returns-bind (append_to nm (replacement nm s.next) message) _ _ (Logged s message)
              (append_to-replacement s.next message v.next_blank l)
              (λ c k. other_buffer s message b c e v pos valid k))
      ]
    where
      valid : IsValid nm b
      valid = rw e at v.current_valid

      fit :
          ltb (length message) (FixedBuffer.avail nm b) ≡ true
          → FixedBuffer.size b + length message < nm
      fit h = ground (arith, valid)

  -- A message shorter than a buffer is always taken in, without a fault, behind all others.
  pub log_locked-Logged :
      (s : AsyncLogger) (message : List ℕ)
      → IsSound nm s
      → 0 < length message
      → length message < nm
      → Returns (log_locked nm s message) (Logged s message)
  unfolding log_locked
  log_locked-Logged s message v pos l = log_into-Logged s message s.current refl v pos l

  append_to_full :
      (o : Option Buffer) (message : List ℕ)
      → MaybeBlank nm o
      → nm ≤ length message
      → append_to nm (replacement nm o) message ≡ err Fault.assertion
  unfolding append_to replacement
  append_to_full none message v l =
      rw (append_full nm true (new_buffer nm) [] message new_buffer-Holds (omega arith))
  append_to_full (some b) message v l = rw (append_full nm true b [] message v (omega arith))

  log_into_full :
      (s : AsyncLogger) (message : List ℕ) (o : Option Buffer)
      → s.current ≡ o
      → IsSound nm s
      → nm ≤ length message
      → log_into nm s message o ≡ err Fault.assertion
  unfolding log_into
  log_into_full s message none e v l = absurd (rw e at v.current_valid)
  log_into_full s message (some b) e v l =
      let valid : IsValid nm b = rw e at v.current_valid in
      rw (
        ge→ltb (length message) (FixedBuffer.avail nm b) (omega (arith, valid)),
        append_to_full s.next message v.next_blank l,
      )

  accepts_pos :
      (s : AsyncLogger) (level : ℕ) (message : List ℕ)
      → accepts nm s level (some message) ≡ true
      → 0 < length message
  unfolding accepts
  accepts_pos s level message h = ground arith

  accepts_refused :
      (s : AsyncLogger) (level : ℕ) (message : List ℕ)
      → (level < s.level) ⊎ (length message ≡ 0) ⊎ (nm < length message) ⊎ (s.running ≡ false)
      → accepts nm s level (some message) ≡ false
  unfolding accepts
  accepts_refused s level message h = ground arith

  -- On every branch of `log`: an accepted message shorter than a buffer is queued behind all others;
  -- an accepted message of exactly a buffer's size fails an assertion of the buffer; a message below
  -- the level, empty, longer than a buffer, or after the stop changes nothing, and so does a null one.
  pub log_lem :
      (s : AsyncLogger) (level : ℕ) (message : List ℕ)
      → IsSound nm s
      → (accepts nm s level (some message) ≡ true
          → length message < nm
          → Returns (log nm s level (some message)) (Logged s message))
        × (accepts nm s level (some message) ≡ true
            → length message ≡ nm
            → log nm s level (some message) ≡ err Fault.assertion)
        × ((level < s.level) ⊎ (length message ≡ 0) ⊎ (nm < length message) ⊎ (s.running ≡ false)
            → log nm s level (some message) ≡ ok s)
        × (log nm s level none ≡ ok s)
  unfolding log log_locked
  log_lem s level message v = (
    λ a l. rw a (log_into-Logged s message s.current refl v (accepts_pos s level message a) l),
    λ a l. rw a (log_into_full s message s.current refl v (omega arith)),
    λ r. rw (accepts_refused s level message r),
    refl,
  )
