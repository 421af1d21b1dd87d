-- ===== src/Net/Socket.antt =====
-- clia/src/net/socket.cc: `Socket`. What the kernel is asked is a list of calls, and what it answers is an
-- argument; failures that are only logged change nothing here.
use clia.Prelude.{
  ℕ, Bool, true, false, List, [], ◌∷◌, ◌++◌, Option, none, some, if◌then◌else◌, Outcome, ok, err,
  Fault,
}
use clia.Net.InetAddress.{Family, inet, inet6, unspecified, InetAddress}

pub data SocketOption : Type 0 where
  tcp_nodelay reuse_addr reuse_port keep_alive : SocketOption

pub data SystemCall : Type 0 where
  binds : ℕ → InetAddress → SystemCall
  listens : ℕ → SystemCall
  shuts_write : ℕ → SystemCall
  sets : ℕ → SocketOption → Bool → SystemCall
  closes : ℕ → SystemCall

-- The descriptor, and the calls so far.
pub record Socket : Type 0 where
  pub sockfd : ℕ
  pub calls : List SystemCall

abbrev pub create : ℕ → Socket
create sockfd = record { sockfd = sockfd; calls = [] }

abbrev pub call : Socket → SystemCall → Socket
call s c = record s { calls = s.calls ++ c ∷ [] }

unfoldable pub destroy : Socket → Socket
destroy s = call s (closes s.sockfd)

-- A call that ends the process where the kernel refuses it.
abbrev pub or_abort : Bool → Socket → Outcome Socket
or_abort accepted s = if accepted then ok s else err Fault.aborted

abbrev pub has_family : Family → Bool
has_family inet = true
has_family inet6 = true
has_family unspecified = false

unfoldable pub bind_address : Socket → InetAddress → Bool → Outcome Socket
bind_address s local_addr accepted =
    if has_family local_addr.family
    then or_abort accepted (call s (binds s.sockfd local_addr))
    else err Fault.aborted

unfoldable pub listen : Socket → Bool → Outcome Socket
listen s accepted = or_abort accepted (call s (listens s.sockfd))

-- The errors of `::accept4` that the code names, and all others.
pub data AcceptError : Type 0 where
  eagain econnaborted eintr eproto eperm emfile : AcceptError
  ebadf efault einval enfile enobufs enomem enotsock eopnotsupp : AcceptError
  other_error : AcceptError

abbrev pub is_named : AcceptError → Bool
is_named other_error = false
is_named _ = true

pub data AcceptAnswer : Type 0 where
  accepted : ℕ → InetAddress → AcceptAnswer
  failed : AcceptError → AcceptAnswer

-- The descriptor that is returned, where -1 is none, and the address of the peer, to which the caller has a
-- pointer.
unfoldable pub accept : InetAddress → AcceptAnswer → Outcome (Option ℕ × InetAddress)
accept peer_addr (accepted connfd addr) = ok (some connfd, addr)
accept peer_addr (failed error) = if is_named error then ok (none, peer_addr) else err Fault.aborted

abbrev pub shutdown_write : Socket → Socket
shutdown_write s = call s (shuts_write s.sockfd)

abbrev pub set_tcp_nodelay : Socket → Bool → Socket
set_tcp_nodelay s on = call s (sets s.sockfd tcp_nodelay on)

abbrev pub set_reuse_addr : Socket → Bool → Socket
set_reuse_addr s on = call s (sets s.sockfd reuse_addr on)

abbrev pub set_reuse_port : Socket → Bool → Socket
set_reuse_port s on = call s (sets s.sockfd reuse_port on)

abbrev pub set_keeyalive : Socket → Bool → Socket
set_keeyalive s on = call s (sets s.sockfd keep_alive on)
