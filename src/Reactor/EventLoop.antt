-- ===== src/Reactor/EventLoop.antt =====
-- clia/src/reactor/event_loop.cc: the loop of one thread, its queue of functors and the eventfd that
-- wakes it. A functor is a number; what it calls in turn is a call of its own. A method takes first
-- whether its caller is on the thread of the loop; the channels handed over are the loop's own.
pub mod Queue
pub mod Interleaved
pub mod Start
mod Tests
use clia.Prelude.{
  ℕ, ◌+◌, ◌*◌, Bool, true, false, not, ◌&&◌, ◌||◌, List, [], ◌∷◌, ◌++◌, Option, none, some, ◌==◌,
  if◌then◌else◌, Outcome, ok, err, Fault, ◌>>=◌, ◌>>◌, assert,
}
use clia.Reactor.Channel
use clia.Reactor.Channel.{Channel, Events, Callback, reads, closes, errors, writes, handle_event}
use clia.Reactor.Epoller
use clia.Reactor.Epoller.{Epoller, update_at, enable_reading, disable_all, remove, poll, is_at}

-- Where the thread stands: outside of `loop`, at the test of `quit_`, in the poll, before the channels that are left to handle,
-- or before the functors that are left to run.
pub data Phase : Type 0 where
  outside checks polls : Phase
  handles : List ℕ → Phase
  runs : List ℕ → Phase

-- `wakeup_count` is the counter of the eventfd, `called` what the channels called, and `executed` are
-- the functors that ran from the queue.
pub record EventLoop : Type 0 where
  pub looping : Bool
  pub quitting : Bool
  pub event_handing : Bool
  pub calling_pending_functors : Bool
  pub current_active_channel : Option ℕ
  pub active_channels : List ℕ
  pub poller : Epoller
  pub wakeup_channel : ℕ
  pub wakeup_count : ℕ
  pub pending_functors : List ℕ
  pub phase : Phase
  pub called : List (ℕ × Callback)
  pub executed : List ℕ

-- The constructor, on a thread that has a loop already or not; `p` is where the wakeup channel stands.
unfoldable pub create : Bool → Epoller → ℕ → ℕ → Outcome EventLoop
create has_loop e p wakeup_fd = do
  assert (not has_loop)
  let c : Channel = record (Channel.create wakeup_fd) { read_callback = true }
  e' ← enable_reading (record e { store = update_at e.store p c }) p
  ok (record {
    looping = false;
    quitting = false;
    event_handing = false;
    calling_pending_functors = false;
    current_active_channel = none;
    active_channels = [];
    poller = e';
    wakeup_channel = p;
    wakeup_count = 0;
    pending_functors = [];
    phase = outside;
    called = [];
    executed = [];
  })

-- The destructor: what is left of the poller.
unfoldable pub destroy : EventLoop → Outcome Epoller
destroy s = do e ← disable_all s.poller s.wakeup_channel; remove e s.wakeup_channel

-- The 8 bytes that are written add 1 to the counter.
unfoldable pub wakeup : EventLoop → EventLoop
wakeup s = record s { wakeup_count = s.wakeup_count + 1 }

-- Reading resets the counter.
unfoldable pub handle_read : EventLoop → EventLoop
handle_read s = record s { wakeup_count = 0 }

-- `queue_in_loop` up to the end of the section under the mutex.
unfoldable pub push : EventLoop → ℕ → EventLoop
push s cb = record s { pending_functors = s.pending_functors ++ cb ∷ [] }

unfoldable pub queue_in_loop : Bool → EventLoop → ℕ → EventLoop
unfolding push wakeup
queue_in_loop on_loop s cb =
    if not on_loop || s.calling_pending_functors then wakeup (push s cb) else push s cb

-- On the thread of the loop the functor runs at once; the second result tells so.
pub run_in_loop : Bool → EventLoop → ℕ → EventLoop × Bool
unfolding queue_in_loop
run_in_loop on_loop s cb = if on_loop then (s, true) else (queue_in_loop on_loop s cb, false)

unfoldable pub quit : Bool → EventLoop → EventLoop
unfolding wakeup
quit on_loop s =
    let s' : EventLoop = record s { quitting = true } in if on_loop then s' else wakeup s'

-- `loop` up to its first test of `quit_`.
unfoldable pub enter : Bool → EventLoop → Outcome EventLoop
enter on_loop s = do
  assert (not s.looping && on_loop)
  ok (record s { looping = true; quitting = false; phase = checks })

-- The poll with the answer of `::epoll_wait`.
unfoldable pub polled : EventLoop → Option (List (ℕ × Events)) → Outcome EventLoop
polled s answer = do
  (active, e) ← poll s.poller answer
  ok (record s {
    poller = e;
    active_channels = active;
    event_handing = true;
    phase = handles active;
  })

abbrev pub does_read : List Callback → Bool
does_read [] = false
does_read (closes ∷ cs) = does_read cs
does_read (errors ∷ cs) = does_read cs
does_read (reads ∷ cs) = true
does_read (writes ∷ cs) = does_read cs

abbrev pub all_at : ℕ → List Callback → List (ℕ × Callback)
all_at p [] = []
all_at p (c ∷ cs) = (p, c) ∷ all_at p cs

-- The callbacks of the channel at `p`: for the wakeup channel `handle_read`, for others the user's.
unfoldable pub deliver : EventLoop → ℕ → List Callback → EventLoop
unfolding handle_read
deliver s p cs =
    let s' : EventLoop = record s { called = s.called ++ all_at p cs } in
    if (p == s.wakeup_channel) && does_read cs then handle_read s' else s'

-- One round of the loop over the active channels; `alive` is for the tie of the channel.
unfoldable pub handle_next : EventLoop → ℕ → List ℕ → Bool → EventLoop
unfolding deliver
handle_next s p rest alive =
    deliver (record s { current_active_channel = some p; phase = handles rest }) p
      (handle_event alive (s.poller.store p))

-- From the end of the channels to the swap in `do_pending_functors`.
unfoldable pub swap : EventLoop → EventLoop
swap s = record s {
  current_active_channel = none;
  event_handing = false;
  calling_pending_functors = true;
  pending_functors = [];
  phase = runs s.pending_functors;
}

unfoldable pub run_next : EventLoop → ℕ → List ℕ → EventLoop
run_next s cb rest = record s { executed = s.executed ++ cb ∷ []; phase = runs rest }

-- The end of `do_pending_functors`.
unfoldable pub finish : EventLoop → EventLoop
finish s = record s { calling_pending_functors = false; phase = checks }

-- `while (!quit_)`, with what follows the loop.
unfoldable pub check : EventLoop → EventLoop
check s =
    if s.quitting then record s { looping = false; phase = outside } else record s { phase = polls }

abbrev pub is_active : ℕ → List ℕ → Bool
is_active p [] = false
is_active p (q ∷ qs) = (q == p) || is_active p qs

pub update_channel : Bool → EventLoop → ℕ → Channel → Outcome EventLoop
update_channel on_loop s p c = do
  assert on_loop
  e ← Epoller.update_channel s.poller p c
  ok (record s { poller = e })

-- A channel that is still to be handled must stay.
abbrev pub may_remove : EventLoop → ℕ → Bool
may_remove s p =
    not s.event_handing || (is_at s.current_active_channel p || not (is_active p s.active_channels))

pub remove_channel : Bool → EventLoop → ℕ → Channel → Outcome EventLoop
remove_channel on_loop s p c = do
  assert on_loop
  assert (may_remove s p)
  e ← Epoller.remove_channel s.poller p c
  ok (record s { poller = e })

pub has_channel : Bool → EventLoop → ℕ → Channel → Outcome Bool
has_channel on_loop s p c = do assert on_loop; ok (Epoller.has_channel s.poller p c)
