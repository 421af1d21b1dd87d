-- ===== src/Reactor/Channel.antt =====
-- clia/src/reactor/channel.cc: the events that a `Channel` waits for, and the order in which it hands
-- the events that arrived to its callbacks. The methods that tell the loop of a change are in
-- Reactor/Epoller.
use clia.Prelude.{ℕ, Bool, true, false, ◌&&◌, ◌||◌, not, List, [], ◌∷◌, ◌++◌, if◌then◌else◌}

-- The bits of <sys/epoll.h> that the code names; it neither sets nor tests any other.
pub record Events : Type 0 where
  pub epollin : Bool
  pub epollpri : Bool
  pub epollout : Bool
  pub epollerr : Bool
  pub epollhup : Bool
  pub epollrdhup : Bool

abbrev pub none_event : Events
none_event = record {
  epollin = false;
  epollpri = false;
  epollout = false;
  epollerr = false;
  epollhup = false;
  epollrdhup = false;
}

abbrev pub read_event : Events
read_event = record none_event { epollin = true; epollpri = true }

abbrev pub write_event : Events
write_event = record none_event { epollout = true }

-- `a | b`, `a & ~b`, and `a & b` as a condition.
unfoldable pub join : Events → Events → Events
join a b = record {
  epollin = a.epollin || b.epollin;
  epollpri = a.epollpri || b.epollpri;
  epollout = a.epollout || b.epollout;
  epollerr = a.epollerr || b.epollerr;
  epollhup = a.epollhup || b.epollhup;
  epollrdhup = a.epollrdhup || b.epollrdhup;
}

unfoldable pub without : Events → Events → Events
without a b = record {
  epollin = a.epollin && not b.epollin;
  epollpri = a.epollpri && not b.epollpri;
  epollout = a.epollout && not b.epollout;
  epollerr = a.epollerr && not b.epollerr;
  epollhup = a.epollhup && not b.epollhup;
  epollrdhup = a.epollrdhup && not b.epollrdhup;
}

unfoldable pub meets : Events → Events → Bool
meets a b =
    (a.epollin && b.epollin)
    || (a.epollpri && b.epollpri)
    || (a.epollout && b.epollout)
    || (a.epollerr && b.epollerr)
    || (a.epollhup && b.epollhup)
    || (a.epollrdhup && b.epollrdhup)

-- `events_ == kNoneEvent`
unfoldable pub is_none : Events → Bool
is_none a =
    not a.epollin
    && not a.epollpri
    && not a.epollout
    && not a.epollerr
    && not a.epollhup
    && not a.epollrdhup

-- `index_`: -1, 1 and 2.
pub data Index : Type 0 where
  new added deleted : Index

-- A callback is told by whether it is set.
pub record Channel : Type 0 where
  pub fd : ℕ
  pub events : Events
  pub revents : Events
  pub index : Index
  pub event_handling : Bool
  pub added_to_loop : Bool
  pub tied : Bool
  pub read_callback : Bool
  pub write_callback : Bool
  pub close_callback : Bool
  pub error_callback : Bool

unfoldable pub create : ℕ → Channel
create fd = record {
  fd = fd;
  events = none_event;
  revents = none_event;
  index = new;
  event_handling = false;
  added_to_loop = false;
  tied = false;
  read_callback = false;
  write_callback = false;
  close_callback = false;
  error_callback = false;
}

abbrev pub is_none_event : Channel → Bool
is_none_event c = is_none c.events

abbrev pub is_writing : Channel → Bool
is_writing c = meets c.events write_event

abbrev pub is_reading : Channel → Bool
is_reading c = meets c.events read_event

unfoldable pub set_revents : Channel → Events → Channel
set_revents c revents = record c { revents = revents }

unfoldable pub tie : Channel → Channel
tie c = record c { tied = true }

-- The setters; an empty function is not set.
abbrev pub set_read_callback : Channel → Bool → Channel
set_read_callback c is_set = record c { read_callback = is_set }

abbrev pub set_write_callback : Channel → Bool → Channel
set_write_callback c is_set = record c { write_callback = is_set }

abbrev pub set_close_callback : Channel → Bool → Channel
set_close_callback c is_set = record c { close_callback = is_set }

abbrev pub set_error_callback : Channel → Bool → Channel
set_error_callback c is_set = record c { error_callback = is_set }

pub data Callback : Type 0 where
  closes errors reads writes : Callback

-- `if (test) { if (callback_) callback_(); }`
abbrev pub call_if : Bool → Bool → Callback → List Callback
call_if test is_set callback = if test && is_set then callback ∷ [] else []

-- The callbacks that are called, in order.
unfoldable pub handle_event_with_guard : Channel → List Callback
handle_event_with_guard c =
    call_if (c.revents.epollhup && not c.revents.epollin) c.close_callback closes
    ++ (call_if c.revents.epollerr c.error_callback errors
        ++ (call_if (c.revents.epollin || c.revents.epollpri || c.revents.epollrdhup)
              c.read_callback reads
            ++ call_if c.revents.epollout c.write_callback writes))

-- `alive` tells whether `tie_.lock()` finds the object.
unfoldable pub handle_event : Bool → Channel → List Callback
unfolding handle_event_with_guard
handle_event alive c =
    if c.tied then (if alive then handle_event_with_guard c else []) else handle_event_with_guard c
