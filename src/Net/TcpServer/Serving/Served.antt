-- ===== src/Net/TcpServer/Serving/Served.antt =====
-- What becomes of the connections that the acceptor of a server accepts.
use clia.Prelude.{
  ℕ, zero, suc, not, ◌&&◌, ◌+◌, ◌<◌, ◌≡◌, ◌⊎◌, refl, sym, ap, ◌∙◌, Bool, Bool-cases, true, false,
  inl, inr, ◌||◌, List, [], ◌∷◌, ◌++◌, append_assoc, append-nil, length, drop, get_elem?, some, ltb,
  leb, ◌==◌, if◌then◌else◌, Outcome, ok, err, ◌>>=◌, Returns, Returns-bind, Returns-mono, arith,
}
use clia.Reactor.EventLoopThreadPool.{EventLoopThreadPool, get_next_loop, pick}
use clia.Net.InetAddress.{InetAddress}
use clia.Net.Socket.{AcceptAnswer, AcceptError, accepted, failed, is_named, accept}
use clia.Net.Acceptor
use clia.Net.Acceptor.{Acceptor, Handled, calls_back, drops}
use clia.Net.Acceptor.Accepting.{AllNamed}
use clia.Net.TcpServer.{
  TcpServer, Connection, Task, establishes, destroys, removes, listens, find, insert, is_absent,
  new_connection,
}
use clia.Net.TcpServer.Serving.{Listening, call_all, handle_read, handle_all}

-- A pool that was started, whose next loop is one of its loops if it has any.
pub record IsReady (p : EventLoopThreadPool) : Type 0 where
  pub started : p.started ≡ true
  pub next_loop : (p.loops ≡ []) ⊎ (p.next < length p.loops)

-- The sockets of the connections that were handed to a loop to be established, in order.
abbrev pub opened : List (ℕ × Task) → List ℕ
opened [] = []
opened ((l, establishes c) ∷ ts) = c.fd ∷ opened ts
opened ((l, destroys c) ∷ ts) = opened ts
opened ((l, removes c) ∷ ts) = opened ts
opened ((l, listens) ∷ ts) = opened ts

abbrev pub accepted_fds : List AcceptAnswer → List ℕ
accepted_fds [] = []
accepted_fds (accepted connfd addr ∷ answers) = connfd ∷ accepted_fds answers
accepted_fds (failed error ∷ answers) = accepted_fds answers

abbrev pub is_member : ℕ → List ℕ → Bool
is_member fd [] = false
is_member fd (x ∷ xs) = (x == fd) || is_member fd xs

-- The kernel does not return a descriptor that is open.
abbrev pub AllNew : List ℕ → List Connection → Type 0
AllNew [] cs = Unit {0}
AllNew (fd ∷ fds) cs = (is_absent (find cs fd) ≡ true) × (is_member fd fds ≡ false) × AllNew fds cs

find-insert :
    (cs : List Connection) (c : Connection) (fd : ℕ)
    → is_absent (find cs c.fd) ≡ true
    → find (insert cs c) fd ≡ (if c.fd == fd then some c else find cs fd)
find-insert [] c fd h = refl
find-insert (d ∷ cs) c fd h = elim (Bool-cases (ltb c.fd d.fd)) [
  | inl y ↦ rw y refl
  | inr n ↦ elim (Bool-cases (d.fd == c.fd)) [
    | inl e ↦ cc (rw e at h)
    | inr f ↦ rw n (elim (Bool-cases (d.fd == fd)) [
      | inl y ↦ let other : (c.fd == fd) ≡ false = ground arith in rw (y, other) refl
      | inr z ↦ rw z (find-insert cs c fd (rw f at h))
    ])
  ]
]

get_elem?-some : (xs : List ℕ) (i : ℕ) → i < length xs → (x : ℕ) × (get_elem? xs i ≡ some x)
get_elem?-some [] i h = absurd (omega arith)
get_elem?-some (x ∷ xs) zero h = (x, refl)
get_elem?-some (x ∷ xs) (suc i) h = get_elem?-some xs i (omega arith)

next_index : (n k : ℕ) → k < n → (if leb n (k + 1) then 0 else k + 1) < n
next_index n k h = ground arith

get_next_loop-IsReady :
    (p : EventLoopThreadPool) → IsReady p → Returns (get_next_loop true p) (λ r. IsReady r.1)
unfolding get_next_loop pick
get_next_loop-IsReady p v = elim v.next_loop [
  | inl e ↦ rw (v.started, e) (record { started = refl; next_loop = inl refl })
  | inr h ↦
      let (l, k) = get_elem?-some p.loops p.next h in
      let some_loops : (length p.loops == 0) ≡ false = ground arith in
      rw (v.started, some_loops, k)
        (record { started = refl; next_loop = inr (next_index (length p.loops) p.next h) })
]

-- A server that went from `s` over connections on `fds`.
pub record Served (s : TcpServer) (fds : List ℕ) (t : TcpServer) : Type 0 where
  pub opened : opened t.tasks ≡ opened s.tasks ++ fds
  pub entered :
      (fd : ℕ)
      → is_absent (find t.connections fd)
        ≡ (is_absent (find s.connections fd) && not (is_member fd fds))
  pub ready : IsReady t.threadpool

opened-append : (ts us : List (ℕ × Task)) → opened (ts ++ us) ≡ opened ts ++ opened us
opened-append [] us = refl
opened-append ((l, establishes c) ∷ ts) us = ap (◌∷◌ c.fd) (opened-append ts us)
opened-append ((l, destroys c) ∷ ts) us = opened-append ts us
opened-append ((l, removes c) ∷ ts) us = opened-append ts us
opened-append ((l, listens) ∷ ts) us = opened-append ts us

entered_one :
    (cs : List Connection) (c : Connection) (fd : ℕ)
    → is_absent (find cs c.fd) ≡ true
    → is_absent (find (insert cs c) fd) ≡ (is_absent (find cs fd) && not (is_member fd (c.fd ∷ [])))
entered_one cs c fd h = ap is_absent (find-insert cs c fd h) ∙ (elim (Bool-cases (c.fd == fd)) [
  | inl y ↦ rw y (sym (ends (is_absent (find cs fd))))
  | inr n ↦ rw n (sym (same (is_absent (find cs fd))))
])
  where
    ends : (b : Bool) → (b && false) ≡ false
    ends true = refl
    ends false = refl

    same : (b : Bool) → (b && true) ≡ b
    same true = refl
    same false = refl

new_connection-Served :
    (s : TcpServer) (fd : ℕ)
    → IsReady s.threadpool
    → is_absent (find s.connections fd) ≡ true
    → Returns (new_connection true s fd) (Served s (fd ∷ []))
unfolding new_connection
new_connection-Served s fd v h =
    Returns-bind (get_next_loop true s.threadpool) _ (λ r. IsReady r.1) _
      (get_next_loop-IsReady s.threadpool v)
      (λ r ready. rw h (record {
        opened = opened-append s.tasks _;
        entered = λ x. entered_one s.connections _ x h;
        ready = ready;
      }))

both_entered : (b hit m : Bool) → ((b && not (hit || false)) && not m) ≡ (b && not (hit || m))
both_entered true true m = refl
both_entered true false m = refl
both_entered false hit m = refl

then-Served :
    {s t u : TcpServer} {fd : ℕ} {fds : List ℕ}
    → Served s (fd ∷ []) t
    → Served t fds u
    → Served s (fd ∷ fds) u
then-Served {s} {t} {u} {fd} {fds} v w = record {
  opened = w.opened ∙ ap (λ x. x ++ fds) v.opened ∙ append_assoc (opened s.tasks) (fd ∷ []) fds;
  entered = λ x.
      w.entered x
      ∙ ap (λ b. b && not (is_member x fds)) (v.entered x)
      ∙ both_entered (is_absent (find s.connections x)) (fd == x) (is_member x fds);
  ready = w.ready;
}

-- The others are still new when one has been entered.
AllNew-Served :
    (fds : List ℕ) (s t : TcpServer) (fd : ℕ)
    → Served s (fd ∷ []) t
    → is_member fd fds ≡ false
    → AllNew fds s.connections
    → AllNew fds t.connections
AllNew-Served [] s t fd v h n = tt
AllNew-Served (x ∷ fds) s t fd v h (a, b, n) =
    let other : (fd == x) ≡ false = ground (arith, h) in
    (v.entered x ∙ rw (a, other) refl, b, AllNew-Served fds s t fd v (ground (arith, h)) n)

drop_before : (xs ys : List Handled) → drop (length xs) (xs ++ ys) ≡ ys
drop_before [] ys = refl
drop_before (x ∷ xs) ys = drop_before xs ys

call_none : (s : TcpServer) → call_all true s [] ≡ ok s
unfolding call_all
call_none s = refl

call_one :
    (s : TcpServer) (fd : ℕ) (addr : InetAddress)
    → call_all true s (calls_back fd addr ∷ []) ≡ new_connection true s fd
unfolding call_all
call_one s fd addr = ends (new_connection true s fd)
  where
    ends : (m : Outcome TcpServer) → (m >>= λ s'. ok s') ≡ m
    ends (ok t) = refl
    ends (err fault) = refl

-- One call of the read callback.
record Answered (l : Listening) (fds : List ℕ) (m : Listening) : Type 0 where
  served : Served l.server fds m.server
  callback : m.acceptor.new_connection_callback ≡ l.acceptor.new_connection_callback

nothing-Served : (s : TcpServer) → IsReady s.threadpool → Served s [] s
nothing-Served s v = record {
  opened = sym (append-nil (opened s.tasks));
  entered = λ fd. unchanged (is_absent (find s.connections fd));
  ready = v;
}
  where
    unchanged : (b : Bool) → b ≡ (b && true)
    unchanged true = refl
    unchanged false = refl

handle_read-accepted :
    (l : Listening) (fd : ℕ) (addr : InetAddress)
    → l.acceptor.new_connection_callback ≡ true
    → IsReady l.server.threadpool
    → is_absent (find l.server.connections fd) ≡ true
    → Returns (handle_read true l (accepted fd addr)) (Answered l (fd ∷ []))
unfolding handle_read Acceptor.handle_read accept
handle_read-accepted l fd addr c v n =
    rw (c, drop_before l.acceptor.handled (calls_back fd addr ∷ []), call_one l.server fd addr)
      (Returns-bind (new_connection true l.server fd) _ (Served l.server (fd ∷ [])) _
        (new_connection-Served l.server fd v n) (λ s w. record { served = w; callback = refl }))

handle_read-failed :
    (l : Listening) (error : AcceptError)
    → is_named error ≡ true
    → handle_read true l (failed error) ≡ ok l
unfolding handle_read Acceptor.handle_read accept
handle_read-failed l error named = rw (named, all_handled) refl
  where
    all_handled :
        call_all true l.server (drop (length l.acceptor.handled) l.acceptor.handled) ≡ ok l.server
    all_handled =
        ap (λ hs. call_all true l.server (drop (length l.acceptor.handled) hs))
          (sym (append-nil l.acceptor.handled))
        ∙ ap (call_all true l.server) (drop_before l.acceptor.handled [])
        ∙ call_none l.server

-- On a server whose pool was started, under any answers of `accept4` with connections whose descriptors
-- are not in the map and differ from each other, and with errors that the code names, every connection
-- that was accepted, and no other, is handed to a loop to be established, once and in order, and is in
-- the map with those that were there before.
pub handle_all-Served :
    (answers : List AcceptAnswer) (l : Listening)
    → l.acceptor.new_connection_callback ≡ true
    → IsReady l.server.threadpool
    → AllNamed answers
    → AllNew (accepted_fds answers) l.server.connections
    → Returns (handle_all l answers) (λ m. Served l.server (accepted_fds answers) m.server)
unfolding handle_all
handle_all-Served [] l c v named n = nothing-Served l.server v
handle_all-Served (accepted fd addr ∷ answers) l c v named (absent, once, n) =
    Returns-bind (handle_read true l (accepted fd addr)) (λ l'. handle_all l' answers)
      (Answered l (fd ∷ [])) _ (handle_read-accepted l fd addr c v absent)
      (λ l' k.
        Returns-mono (handle_all l' answers) (λ m. Served l'.server (accepted_fds answers) m.server)
          _
          (handle_all-Served answers l' (k.callback ∙ c) k.served.ready named
            (AllNew-Served (accepted_fds answers) l.server l'.server fd k.served once n))
          (λ m w. then-Served k.served w))
handle_all-Served (failed error ∷ answers) l c v (named, rest) n =
    rw (handle_read-failed l error named) (handle_all-Served answers l c v rest n)
