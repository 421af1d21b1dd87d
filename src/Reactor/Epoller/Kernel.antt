-- ===== src/Reactor/Epoller/Kernel.antt =====
-- The documented behaviour of `::epoll_ctl` (epoll_ctl(2)): the specification that the requests of an
-- `Epoller` are held against. A file descriptor may be added if it is not registered, and modified or
-- deleted if it is.
use clia.Prelude.{ℕ, ◌≡◌, refl, Option, none, some, List, [], ◌∷◌, ◌++◌}
use clia.Reactor.Channel.{Events}
use clia.Reactor.Epoller.{Request, Operation, adds, modifies, deletes, update_at}

abbrev pub Interest : Type 0
Interest = ℕ → Option Events

abbrev pub answer : Interest → ℕ → Events → Operation → Option Events → Option Interest
answer i fd events adds none = some (update_at i fd (some events))
answer i fd events adds (some old) = none
answer i fd events modifies none = none
answer i fd events modifies (some old) = some (update_at i fd (some events))
answer i fd events deletes none = none
answer i fd events deletes (some old) = some (update_at i fd none)

-- `none` is a failure (EEXIST, ENOENT).
abbrev pub serve_one : Interest → Request → Option Interest
serve_one i r = answer i r.fd r.events r.operation (i r.fd)

abbrev pub serve_next : Option Interest → Request → Option Interest
serve_next none r = none
serve_next (some i) r = serve_one i r

unfoldable pub serve : Option Interest → List Request → Option Interest
serve i [] = i
serve i (r ∷ rs) = serve (serve_next i r) rs

pub serve-append :
    (i : Option Interest) (rs : List Request) (r : Request)
    → serve i (rs ++ r ∷ []) ≡ serve_next (serve i rs) r
unfolding serve
serve-append i [] r = refl
serve-append i (q ∷ rs) r = serve-append (serve_next i q) rs r
