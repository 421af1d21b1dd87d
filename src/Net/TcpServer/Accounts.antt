-- ===== src/Net/TcpServer/Accounts.antt =====
-- Every connection that a server establishes is destroyed once.
use clia.Prelude.{
  ℕ, suc, ◌+◌, ◌≤◌, ◌≡◌, refl, sym, ap, ◌∙◌, Bool, true, false, Bool-cases, ◌⊎◌, inl, inr, not,
  List, [], ◌∷◌, ◌++◌, ◌==◌, ok, ◌>>◌, assert, Returns, Returns-ok, ok-bind, arith,
}
use clia.Reactor.EventLoopThreadPool
use clia.Reactor.EventLoopThreadPool.{get_next_loop}
use clia.Net.TcpServer.{
  TcpServer, Connection, Task, establishes, destroys, removes, listens, create, find, insert, hand,
  start, is_absent, is_same, new_connection, remove_connection, remove_connection_in_loop,
  destroys_all, destroy, set_connection_callback, set_message_callback, set_write_complete_callback,
  set_thread_num,
}
use clia.Net.TcpServer.Counts.{
  mapped, established, destroyed, established-append, destroyed-append, mapped-insert, mapped-erase,
  mapped-destroys_all, established-destroys_all, InOrder, append-InOrder, destroys_all-InOrder,
}

-- A server under any sequence of its methods, the calls of `remove_connection` from other threads and
-- the tasks that these queue.
pub data Reached : TcpServer → Type 0 where
  created : (loop : ℕ) → Reached (create loop)
  starts :
      {s t : TcpServer}
      → Reached s
      → (start_loop : ℕ → ℕ) (has_callback : Bool) → start true s start_loop has_callback ≡ ok t
      → Reached t
  accepts :
      {s t : TcpServer} → Reached s → (sockfd : ℕ) → new_connection true s sockfd ≡ ok t → Reached t
  closes :
      {s t : TcpServer}
      → Reached s
      → (on_loop : Bool) (conn : Connection) → remove_connection on_loop s conn ≡ ok t
      → Reached t
  removed :
      {s t : TcpServer}
      → Reached s
      → (conn : Connection) → remove_connection_in_loop true s conn ≡ ok t
      → Reached t
  sets :
      {s : TcpServer}
      → Reached s
      → (connection message write_complete : Bool) (num : ℕ)
      → Reached (
          set_thread_num
            (set_write_complete_callback
              (set_message_callback (set_connection_callback s connection) message)
              write_complete)
            num)

pub record IsBalanced (s : TcpServer) : Type 0 where
  pub balance : (i : ℕ) → established i s.tasks ≡ mapped i s.connections + destroyed i s.tasks
  pub once : (i : ℕ) → established i s.tasks ≤ 1
  pub order : (i : ℕ) → InOrder i 0 s.tasks
  pub fresh : (i : ℕ) → s.next_conn_id ≤ i → established i s.tasks ≡ 0

create-IsBalanced : (loop : ℕ) → IsBalanced (create loop)
unfolding create established destroyed mapped InOrder
create-IsBalanced loop = record {
  balance = λ i. refl;
  once = λ i. omega arith;
  order = λ i. tt;
  fresh = λ i h. refl;
}

-- A task handed over behind those that are there.
hand-InOrder :
    (s : TcpServer) (i : ℕ) (ts : List (ℕ × Task))
    → IsBalanced s
    → InOrder i (mapped i s.connections) ts
    → InOrder i 0 (s.tasks ++ ts)
hand-InOrder s i ts v k =
    append-InOrder i 0 (mapped i s.connections) s.tasks ts (v.order i) k
      (omega (arith, v.balance i))

listens-IsBalanced : (s : TcpServer) (l : ℕ) → IsBalanced s → IsBalanced (hand s l listens)
unfolding established destroyed InOrder
listens-IsBalanced s l v = record {
  balance = λ i. omega (
    arith,
    v.balance i,
    established-append i s.tasks ((l, listens) ∷ []),
    destroyed-append i s.tasks ((l, listens) ∷ []),
  );
  once = λ i. omega (arith, v.once i, established-append i s.tasks ((l, listens) ∷ []));
  order = λ i. hand-InOrder s i ((l, listens) ∷ []) v tt;
  fresh = λ i h. omega (arith, v.fresh i h, established-append i s.tasks ((l, listens) ∷ []));
}

removes-IsBalanced :
    (s : TcpServer) (l : ℕ) (c : Connection) → IsBalanced s → IsBalanced (hand s l (removes c))
unfolding established destroyed InOrder
removes-IsBalanced s l c v = record {
  balance = λ i. omega (
    arith,
    v.balance i,
    established-append i s.tasks ((l, removes c) ∷ []),
    destroyed-append i s.tasks ((l, removes c) ∷ []),
  );
  once = λ i. omega (arith, v.once i, established-append i s.tasks ((l, removes c) ∷ []));
  order = λ i. hand-InOrder s i ((l, removes c) ∷ []) v tt;
  fresh = λ i h. omega (arith, v.fresh i h, established-append i s.tasks ((l, removes c) ∷ []));
}

start-IsBalanced :
    (s t : TcpServer) (start_loop : ℕ → ℕ) (has_callback : Bool)
    → IsBalanced s
    → start true s start_loop has_callback ≡ ok t
    → IsBalanced t
unfolding start
start-IsBalanced s t start_loop has_callback v h = elim (Bool-cases (s.started == 0)) [
  | inl y ↦
      let (pool, a, b) =
        ok-bind (EventLoopThreadPool.start true s.threadpool start_loop has_callback) (rw y at h) in
      first pool (Bool-cases s.listening) b
  | inr n ↦
      Returns-ok (ok (record s { started = suc s.started })) t IsBalanced
        (record { balance = v.balance; once = v.once; order = v.order; fresh = v.fresh })
        (rw n at h)
]
  where
    first :
        (pool : _)
        → (s.listening ≡ true) ⊎ (s.listening ≡ false)
        → (assert (not s.listening)
            >> ok (hand (record s { started = suc s.started; threadpool = pool }) s.loop listens))
          ≡ ok t
        → IsBalanced t
    first pool (inl y) b = cc (rw y at b)
    first pool (inr n) b =
        Returns-ok
          (ok (hand (record s { started = suc s.started; threadpool = pool }) s.loop listens)) t
          IsBalanced
          (listens-IsBalanced (record s { started = suc s.started; threadpool = pool }) s.loop
            (record { balance = v.balance; once = v.once; order = v.order; fresh = v.fresh }))
          (ap
              (λ b.
                assert (not b)
                >> ok
                    (hand (record s { started = suc s.started; threadpool = pool }) s.loop listens))
              (sym n)
            ∙ b)

accepted-IsBalanced :
    (s : TcpServer) (c : Connection) (l : ℕ) (pool : EventLoopThreadPool.EventLoopThreadPool)
    → c.id ≡ s.next_conn_id
    → IsBalanced s
    → IsBalanced (
        hand
          (record s {
            threadpool = pool;
            next_conn_id = s.next_conn_id + 1;
            connections = insert s.connections c;
          })
          l
          (establishes c))
unfolding established destroyed InOrder
accepted-IsBalanced s c l pool e v = record {
  balance = λ i. omega (
    arith,
    v.balance i,
    mapped-insert i s.connections c,
    established-append i s.tasks ((l, establishes c) ∷ []),
    destroyed-append i s.tasks ((l, establishes c) ∷ []),
  );
  once = λ i.
      ground (arith, v.once i, v.fresh i, established-append i s.tasks ((l, establishes c) ∷ []));
  order = λ i. hand-InOrder s i ((l, establishes c) ∷ []) v tt;
  fresh = λ i h. ground (arith, v.fresh i, established-append i s.tasks ((l, establishes c) ∷ []));
}

new_connection-IsBalanced :
    (s t : TcpServer) (sockfd : ℕ)
    → IsBalanced s
    → new_connection true s sockfd ≡ ok t
    → IsBalanced t
unfolding new_connection
new_connection-IsBalanced s t sockfd v h =
    let ((io_loop, pool), a, b) = ok-bind (get_next_loop true s.threadpool) h in
    elim (Bool-cases (is_absent (find s.connections sockfd))) [
      | inl y ↦ Returns-ok _ t IsBalanced (accepted-IsBalanced s _ io_loop pool refl v) (rw y at b)
      | inr n ↦ cc (rw n at b)
    ]

removed-IsBalanced :
    (s t : TcpServer) (c : Connection)
    → IsBalanced s
    → remove_connection_in_loop true s c ≡ ok t
    → IsBalanced t
unfolding remove_connection_in_loop established destroyed InOrder
removed-IsBalanced s t c v h = elim (Bool-cases (is_same (find s.connections c.fd) c)) [
  | inl y ↦
      let task : List (ℕ × Task) = (c.io_loop, destroys c) ∷ [] in
      Returns-ok _ t IsBalanced
        (record {
          balance = λ i. omega (
            arith,
            v.balance i,
            mapped-erase i s.connections c y,
            established-append i s.tasks task,
            destroyed-append i s.tasks task,
          );
          once = λ i. omega (arith, v.once i, established-append i s.tasks task);
          order =
              λ i. hand-InOrder s i task v (omega (arith, mapped-erase i s.connections c y), tt);
          fresh = λ i h. omega (arith, v.fresh i h, established-append i s.tasks task);
        })
        (rw y at h)
  | inr n ↦ cc (rw n at h)
]

Reached-IsBalanced : {s : TcpServer} → Reached s → IsBalanced s
unfolding remove_connection set_connection_callback set_message_callback set_write_complete_callback
    set_thread_num
Reached-IsBalanced (created loop) = create-IsBalanced loop
Reached-IsBalanced (starts {s} {t} r start_loop has_callback h) =
    start-IsBalanced s t start_loop has_callback (Reached-IsBalanced r) h
Reached-IsBalanced (accepts {s} {t} r sockfd h) =
    new_connection-IsBalanced s t sockfd (Reached-IsBalanced r) h
Reached-IsBalanced (closes {s} {t} r true conn h) =
    removed-IsBalanced s t conn (Reached-IsBalanced r) h
Reached-IsBalanced (closes {s} {t} r false conn h) =
    Returns-ok (ok (hand s s.loop (removes conn))) t IsBalanced
      (removes-IsBalanced s s.loop conn (Reached-IsBalanced r)) h
Reached-IsBalanced (sets r connection message write_complete num) =
    let v = Reached-IsBalanced r in
    record { balance = v.balance; once = v.once; order = v.order; fresh = v.fresh }
Reached-IsBalanced (removed {s} {t} r conn h) = removed-IsBalanced s t conn (Reached-IsBalanced r) h

-- In every reachable state of a server, each connection was handed to a loop to be established at most
-- once, and as often as it is in the map or was handed over to be destroyed, which never comes before
-- it; and when the server's destructor has run, every established connection was handed over to be
-- destroyed, exactly once and after it.
pub established_destroyed :
    {s : TcpServer}
    → Reached s
    → IsBalanced s
      × Returns (destroy true s) (λ ts.
        (i : ℕ) → (established i ts ≡ destroyed i ts) × (established i ts ≤ 1) × InOrder i 0 ts)
unfolding destroy
established_destroyed {s} r =
    let v = Reached-IsBalanced r in
    let left = destroys_all s.connections in
    (
      v,
      λ i.
          let made = established-append i s.tasks left in
          let ended = destroyed-append i s.tasks left in
          let none_made = established-destroys_all i s.connections in
          let all_ended = mapped-destroys_all i s.connections in
          (
            omega (arith, v.balance i, made, ended, none_made, all_ended),
            omega (arith, v.once i, made, none_made),
            hand-InOrder s i left v
                (destroys_all-InOrder i (mapped i s.connections) s.connections (omega arith)),
          ),
    )
