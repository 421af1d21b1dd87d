-- ===== src/Net/TcpServer.antt =====
-- clia/src/net/tcp_server.cc: the connections of a server. Of a TcpConnection it has what the server
-- uses: which object it is, its socket, its loop and which callbacks were handed over. A method takes
-- first whether its caller is on the thread of the server's loop.
pub mod Counts
pub mod Accounts
pub mod Serving
mod Tests
use clia.Prelude.{
  ℕ, suc, ◌+◌, Bool, true, false, not, ◌&&◌, List, [], ◌∷◌, ◌++◌, Option, none, some, ltb, ◌==◌,
  if◌then◌else◌, Outcome, ok, err, Fault, ◌>>=◌, ◌>>◌, assert,
}
use clia.Reactor.EventLoopThreadPool
use clia.Reactor.EventLoopThreadPool.{EventLoopThreadPool, get_next_loop}

pub record Connection : Type 0 where
  pub id : ℕ
  pub fd : ℕ
  pub io_loop : ℕ
  pub connection_callback : Bool
  pub message_callback : Bool
  pub write_complete_callback : Bool

-- What the server hands to a loop, by `run_in_loop` or `queue_in_loop`.
pub data Task : Type 0 where
  establishes destroys removes : Connection → Task
  listens : Task

-- `connections` is the map by socket, in its order; `tasks` are the tasks with their loops, in the order
-- in which they were handed over. Objects are numbered by `next_conn_id`.
pub record TcpServer : Type 0 where
  pub loop : ℕ
  pub threadpool : EventLoopThreadPool
  pub listening : Bool
  pub next_conn_id : ℕ
  pub started : ℕ
  pub connection_callback : Bool
  pub message_callback : Bool
  pub write_complete_callback : Bool
  pub connections : List Connection
  pub tasks : List (ℕ × Task)

unfoldable pub create : ℕ → TcpServer
create loop = record {
  loop = loop;
  threadpool = EventLoopThreadPool.create loop;
  listening = false;
  next_conn_id = 1;
  started = 0;
  connection_callback = false;
  message_callback = false;
  write_complete_callback = false;
  connections = [];
  tasks = [];
}

-- The setters of the callbacks, told whether the callback is not empty.
unfoldable pub set_connection_callback : TcpServer → Bool → TcpServer
set_connection_callback s cb = record s { connection_callback = cb }

unfoldable pub set_message_callback : TcpServer → Bool → TcpServer
set_message_callback s cb = record s { message_callback = cb }

unfoldable pub set_write_complete_callback : TcpServer → Bool → TcpServer
set_write_complete_callback s cb = record s { write_complete_callback = cb }

unfoldable pub set_thread_num : TcpServer → ℕ → TcpServer
set_thread_num s num = record s { threadpool = EventLoopThreadPool.set_thread_num s.threadpool num }

-- `connections_.find(fd)`
abbrev pub find : List Connection → ℕ → Option Connection
find [] fd = none
find (c ∷ cs) fd = if c.fd == fd then some c else find cs fd

-- `connections_[conn->fd()] = conn`, for a key that is not there.
abbrev pub insert : List Connection → Connection → List Connection
insert [] conn = conn ∷ []
insert (c ∷ cs) conn = if ltb conn.fd c.fd then conn ∷ c ∷ cs else c ∷ insert cs conn

-- `connections_.erase(fd)`
abbrev pub erase : List Connection → ℕ → List Connection
erase [] fd = []
erase (c ∷ cs) fd = if c.fd == fd then cs else c ∷ erase cs fd

abbrev pub hand : TcpServer → ℕ → Task → TcpServer
hand s loop task = record s { tasks = s.tasks ++ (loop, task) ∷ [] }

-- `start_loop` is the loop of a thread of the pool.
unfoldable pub start : Bool → TcpServer → (ℕ → ℕ) → Bool → Outcome TcpServer
start on_loop s start_loop has_callback =
    if s.started == 0
    then (do
      pool ← EventLoopThreadPool.start on_loop s.threadpool start_loop has_callback
      assert (not s.listening)
      ok (hand (record s { started = suc s.started; threadpool = pool }) s.loop listens))
    else ok (record s { started = suc s.started })

abbrev pub is_absent : Option Connection → Bool
is_absent none = true
is_absent (some c) = false

unfoldable pub new_connection : Bool → TcpServer → ℕ → Outcome TcpServer
new_connection on_loop s sockfd = do
  assert on_loop
  (io_loop, pool) ← get_next_loop on_loop s.threadpool
  let conn : Connection = record {
    id = s.next_conn_id;
    fd = sockfd;
    io_loop = io_loop;
    connection_callback = s.connection_callback;
    message_callback = s.message_callback;
    write_complete_callback = s.write_complete_callback;
  }
  assert (is_absent (find s.connections sockfd))
  ok (
      hand
        (record s {
          threadpool = pool;
          next_conn_id = s.next_conn_id + 1;
          connections = insert s.connections conn;
        })
        io_loop (establishes conn))

-- `connections_[conn->fd()].get() == conn.get()`
abbrev pub is_same : Option Connection → Connection → Bool
is_same none conn = false
is_same (some c) conn = c.id == conn.id

unfoldable pub remove_connection_in_loop : Bool → TcpServer → Connection → Outcome TcpServer
remove_connection_in_loop on_loop s conn = do
  assert on_loop
  assert (is_same (find s.connections conn.fd) conn)
  ok (hand (record s { connections = erase s.connections conn.fd }) conn.io_loop (destroys conn))

-- The close callback of a connection, on the thread of its loop.
unfoldable pub remove_connection : Bool → TcpServer → Connection → Outcome TcpServer
unfolding remove_connection_in_loop
remove_connection on_loop s conn =
    if on_loop then remove_connection_in_loop on_loop s conn else ok (hand s s.loop (removes conn))

abbrev pub destroys_all : List Connection → List (ℕ × Task)
destroys_all [] = []
destroys_all (c ∷ cs) = (c.io_loop, destroys c) ∷ destroys_all cs

-- The destructor: the tasks that it leaves.
unfoldable pub destroy : Bool → TcpServer → Outcome (List (ℕ × Task))
destroy on_loop s = do assert on_loop; ok (s.tasks ++ destroys_all s.connections)
