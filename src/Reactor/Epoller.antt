-- ===== src/Reactor/Epoller.antt =====
-- clia/src/reactor/epoller.cc: the registry of the channels of one loop. A `Channel*` is a number, at
-- which `store` has the object; `channels` is the map `channels_`. What `::epoll_ctl` is asked is a
-- list of requests: the code only logs its failures.
pub mod Kernel
pub mod Registry
pub mod Changes
pub mod Reached
mod Tests
use clia.Prelude.{
  ℕ, ◌*◌, ◌==◌, Bool, true, false, ◌&&◌, ◌||◌, not, Option, none, some, List, [], ◌∷◌, ◌++◌, length,
  ltb, leb, if◌then◌else◌, Outcome, ok, err, Fault, ◌>>=◌, ◌>>◌, assert,
}
use clia.Reactor.Channel.{
  Channel, Events, Index, new, added, deleted, is_none_event, set_revents, join, without,
  read_event, write_event, none_event,
}

-- EPOLL_CTL_ADD, EPOLL_CTL_MOD, EPOLL_CTL_DEL
pub data Operation : Type 0 where
  adds modifies deletes : Operation

pub record Request : Type 0 where
  pub operation : Operation
  pub fd : ℕ
  pub events : Events

abbrev pub init_event_list_size : ℕ
init_event_list_size = 16

-- `capacity` is `events_.size()`.
pub record Epoller : Type 0 where
  pub store : ℕ → Channel
  pub channels : ℕ → Option ℕ
  pub requests : List Request
  pub capacity : ℕ

-- `f` changed at `i`.
abbrev pub update_at {ℓ} : {A : Type ℓ} → (ℕ → A) → ℕ → A → ℕ → A
update_at f i a j = if i == j then a else f j

unfoldable pub create : (ℕ → Channel) → Epoller
create store = record {
  store = store;
  channels = λ fd. none;
  requests = [];
  capacity = init_event_list_size;
}

-- `it != channels_.end() && it->second == channel`
abbrev pub is_at : Option ℕ → ℕ → Bool
is_at none p = false
is_at (some q) p = q == p

-- A function that is handed a `Channel*` gets the number and the object that stands there.
unfoldable pub has_channel : Epoller → ℕ → Channel → Bool
has_channel e p c = is_at (e.channels c.fd) p

-- `update(operation, channel)`
unfoldable pub update : Epoller → Operation → Channel → Epoller
update e operation c = record e {
  requests = e.requests ++ record { operation = operation; fd = c.fd; events = c.events } ∷ [];
}

-- The object `*channel` written back.
unfoldable pub put : Epoller → ℕ → Channel → Epoller
put e p c = record e { store = update_at e.store p c }

abbrev pub set_index : Channel → Index → Channel
set_index c index = record c { index = index }

abbrev pub is_absent : Option ℕ → Bool
is_absent none = true
is_absent (some q) = false

-- `update_channel` by the index of the channel.
unfoldable pub update_by : Epoller → ℕ → Channel → Index → Outcome Epoller
unfolding has_channel update put
update_by e p c new = do
  assert (is_absent (e.channels c.fd))
  let e' : Epoller = record e { channels = update_at e.channels c.fd (some p) }
  ok (put (update e' adds c) p (set_index c added))
update_by e p c deleted = do
  assert (has_channel e p c)
  ok (put (update e adds c) p (set_index c added))
update_by e p c added = do
  assert (has_channel e p c)
  ok (
      if is_none_event c
      then put (update e deletes c) p (set_index c deleted)
      else put (update e modifies c) p c)

unfoldable pub update_channel : Epoller → ℕ → Channel → Outcome Epoller
unfolding update_by
update_channel e p c = update_by e p c c.index

abbrev pub is_registered : Index → Bool
is_registered new = false
is_registered added = true
is_registered deleted = true

abbrev pub is_added : Index → Bool
is_added new = false
is_added added = true
is_added deleted = false

unfoldable pub remove_channel : Epoller → ℕ → Channel → Outcome Epoller
unfolding has_channel update put
remove_channel e p c = do
  assert (has_channel e p c && is_none_event c)
  assert (is_registered c.index)
  let e' : Epoller = record e { channels = update_at e.channels c.fd none }
  ok (put (if is_added c.index then update e' deletes c else e') p (set_index c new))

-- `Channel::update`, after the assignment of `events_` that goes before it.
unfoldable pub change : Epoller → ℕ → Events → Outcome Epoller
unfolding update_channel
change e p events =
    update_channel e p (record (e.store p) { events = events; added_to_loop = true })

abbrev pub enable_reading : Epoller → ℕ → Outcome Epoller
enable_reading e p = change e p (join (e.store p).events read_event)

abbrev pub disable_reading : Epoller → ℕ → Outcome Epoller
disable_reading e p = change e p (without (e.store p).events read_event)

abbrev pub enable_writing : Epoller → ℕ → Outcome Epoller
enable_writing e p = change e p (join (e.store p).events write_event)

abbrev pub disable_writing : Epoller → ℕ → Outcome Epoller
disable_writing e p = change e p (without (e.store p).events write_event)

abbrev pub disable_all : Epoller → ℕ → Outcome Epoller
disable_all e p = change e p none_event

-- `Channel::remove`.
unfoldable pub remove : Epoller → ℕ → Outcome Epoller
unfolding remove_channel
remove e p = do
  assert (is_none_event (e.store p))
  remove_channel e p (record (e.store p) { added_to_loop = false })

-- The destructor of the `Channel`; `in_loop` is whether it runs on the loop's thread.
unfoldable pub destroy_channel : Bool → Epoller → ℕ → Outcome (Unit {0})
unfolding has_channel
destroy_channel in_loop e p = do
  assert (not (e.store p).event_handling)
  assert (not (e.store p).added_to_loop)
  if in_loop then assert (not (has_channel e p (e.store p))) else ok tt

-- `fill_active_channels`: the events that `::epoll_wait` reported, each with its channel.
pub fill_active_channels : Epoller → List (ℕ × Events) → Outcome (List ℕ × Epoller)
fill_active_channels e [] = ok ([], e)
fill_active_channels e ((p, revents) ∷ reported) = do
  assert (is_at (e.channels (e.store p).fd) p)
  let e' : Epoller = record e { store = update_at e.store p (set_revents (e.store p) revents) }
  rest ← fill_active_channels e' reported
  ok (p ∷ rest.0, rest.1)

-- `poll`: `none` stands for -1. The list of events doubles when it was filled.
unfoldable pub poll : Epoller → Option (List (ℕ × Events)) → Outcome (List ℕ × Epoller)
poll e none = ok ([], e)
poll e (some []) = ok ([], e)
poll e (some (r ∷ reported)) = do
  assert (leb (length (r ∷ reported)) e.capacity)
  filled ← fill_active_channels e (r ∷ reported)
  let e' : Epoller = filled.1
  ok (
    filled.0,
    if length (r ∷ reported) == e'.capacity then record e' { capacity = e'.capacity * 2 } else e',
  )
