-- ===== src/Sockets.antt =====
-- net/SocketsOps.h and net/SocketsOps.cc: what the wrappers make of the results of the system calls.
-- A call that returns a descriptor or -1 gives an option here.
use ouge_net_lib.Common.{
  ℕ, Bool, false, ◌&&◌, ◌||◌, Option, none, some, List, [], ◌∷◌, ◌==◌, if◌then◌else◌,
}

-- <errno.h>
abbrev pub emfile : ℕ
emfile = 24

-- EAGAIN, ECONNABORTED, EINTR, EPROTO, EPERM and EMFILE
abbrev pub is_expected : ℕ → Bool
is_expected errno =
    errno == 11
    || (errno == 103 || (errno == 4 || (errno == 71 || (errno == 1 || errno == emfile))))

-- EBADF, EFAULT, EINVAL, ENFILE, ENOBUFS, ENOMEM, ENOTSOCK and EOPNOTSUPP
abbrev pub is_unexpected : ℕ → Bool
is_unexpected errno =
    errno == 9
    || (errno == 14
        || (errno == 22
            || (errno == 23 || (errno == 105 || (errno == 12 || (errno == 88 || errno == 95))))))

-- What goes to the error stream.
pub data Report : Type 0 where
  accept_failed : Report
  unexpected_error unknown_error : ℕ → Report

pub record Accepted : Type 0 where
  pub connfd : Option ℕ
  pub errno : ℕ
  pub reports : List Report

-- `accept4` gave `connfd`, and `errno` where it failed; the output leaves `left` in `errno`.
unfoldable pub accept : Option ℕ → ℕ → ℕ → Accepted
accept (some fd) errno left = record { connfd = some fd; errno = errno; reports = [] }
accept none errno left = record {
  connfd = none;
  errno = if is_expected errno then errno else left;
  reports =
      accept_failed
      ∷ (if is_expected errno
          then []
          else if is_unexpected errno
          then unexpected_error errno ∷ []
          else unknown_error errno ∷ []);
}

-- `getsockopt` gave a value, or failed with `errno`.
unfoldable pub get_socket_error : Option ℕ → ℕ → ℕ
get_socket_error (some optval) errno = optval
get_socket_error none errno = errno

-- `struct sockaddr_in`, with the port and the address in network byte order.
pub record SockAddr : Type 0 where
  pub family : ℕ
  pub port : ℕ
  pub address : ℕ

abbrev pub af_inet : ℕ
af_inet = 2

-- `memset` of a whole address
abbrev pub zeroed : SockAddr
zeroed = record { family = 0; port = 0; address = 0 }

-- `getsockname` gave an address, or failed.
unfoldable pub get_local_addr : Option SockAddr → SockAddr
get_local_addr none = zeroed
get_local_addr (some a) = a

-- `getpeername` gave an address, or failed.
unfoldable pub get_peer_addr : Option SockAddr → SockAddr
get_peer_addr none = zeroed
get_peer_addr (some a) = a

unfoldable pub is_self_connect : Option SockAddr → Option SockAddr → Bool
unfolding get_local_addr get_peer_addr
is_self_connect local peer =
    let localaddr = get_local_addr local in
    let peeraddr = get_peer_addr peer in
    if localaddr.family == af_inet
    then localaddr.port == peeraddr.port && localaddr.address == peeraddr.address
    else false
