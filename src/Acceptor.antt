-- ===== src/Acceptor.antt =====
-- net/Acceptor.h and net/Acceptor.cc: the listening socket of a server, and the descriptor that is
-- kept open to be given up where the process has no other. What the system calls return is an
-- argument: a descriptor, or none for -1. Output leaves `errno` alone but in `sockets::accept`.
pub mod Descriptors
mod Examples
use ouge_net_lib.Common.{
  ℕ, Bool, true, false, Option, none, some, List, [], ◌∷◌, ◌==◌, if◌then◌else◌, Result, ok, ◌>>=◌,
  ◌>>◌, assert,
}
use ouge_net_lib.Channel.{Channel, new_channel, change, enable_reading, disable_all, is_none_event}
use ouge_net_lib.Sockets.{accept, Accepted, emfile}

pub record Acceptor : Type 0 where
  pub accept_channel : Channel  -- of `acceptSocket_`
  pub listenning : Bool
  pub idle_fd : Option ℕ

-- What an operation does to the rest of the program.
pub data Effect : Type 0 where
  set_reuse_addr bind_address listens update_channel remove_channel : Effect
  set_reuse_port : Bool → Effect
  new_connection : ℕ → Effect  -- `newConnectionCallback_`
  close_fd : ℕ → Effect  -- `close`; of -1 it does nothing

abbrev pub Done : Type 0
Done = Acceptor × List Effect

abbrev pub is_open : Option ℕ → Bool
is_open none = false
is_open (some fd) = true

abbrev pub closes : Option ℕ → List Effect → List Effect
closes none es = es
closes (some fd) es = close_fd fd ∷ es

-- The constructor, from the socket and the descriptor that `open` gave.
unfoldable pub new_acceptor : ℕ → Option ℕ → Bool → Result Done
new_acceptor sockfd idle_fd reuseport = do
  assert (is_open idle_fd)
  ok (
    record { accept_channel = new_channel sockfd; listenning = false; idle_fd = idle_fd },
    set_reuse_addr ∷ set_reuse_port reuseport ∷ bind_address ∷ [],
  )

unfoldable pub listen : Acceptor → Done
listen a = (
  record a { listenning = true; accept_channel = change enable_reading a.accept_channel },
  listens ∷ update_channel ∷ [],
)

-- The idle descriptor is closed, `accepted` is what the second `accept` gave, which is closed, and
-- `reopened` what `open` gave.
unfoldable pub give_up_idle : Option ℕ → Option ℕ → Acceptor → Done
give_up_idle accepted reopened a =
    (record a { idle_fd = reopened }, closes a.idle_fd (closes accepted []))

-- `connfd`, `errno` and `left` are those of `sockets::accept`.
unfoldable pub handle_read : Bool → Option ℕ → ℕ → ℕ → Option ℕ → Option ℕ → Acceptor → Done
unfolding accept give_up_idle
handle_read callback_set connfd errno left accepted reopened a =
    let result = accept connfd errno left in
    elim result.connfd [
      | some fd ↦ (a, (if callback_set then new_connection fd else close_fd fd) ∷ [])
      | none ↦ if result.errno == emfile then give_up_idle accepted reopened a else (a, [])
    ]

-- The destructor, with that of `acceptSocket_`.
unfoldable pub destroy : Acceptor → Result (List Effect)
destroy a = do
  let idle = change disable_all a.accept_channel
  assert (is_none_event idle)
  ok (update_channel ∷ remove_channel ∷ closes a.idle_fd (close_fd idle.fd ∷ []))
