-- ===== src/Connector.antt =====
-- net/Connector.h and net/Connector.cc: a client's attempts to connect, with retries that back off.
-- An operation gives the connector after it and what it did outside, in order. What the system calls
-- return is an argument.
pub mod Sockets
pub mod Runs
mod Examples
use ouge_net_lib.Common.{
  ℕ, ◌*◌, min, Bool, true, false, ◌||◌, not, Option, none, some, List, [], ◌∷◌, ◌++◌, ◌==◌,
  if◌then◌else◌, Result, ok, err, null_dereference, ◌>>=◌, ◌>>◌, assert,
}
use ouge_net_lib.Channel.{Channel, new_channel, change, enable_writing, disable_all, is_none_event}

pub data State : Type 0 where
  disconnected connecting connected : State

abbrev pub is_disconnected : State → Bool
is_disconnected disconnected = true
is_disconnected _ = false

abbrev pub is_connecting : State → Bool
is_connecting connecting = true
is_connecting _ = false

pub record Connector : Type 0 where
  pub connect : Bool  -- whether the user wants a connection
  pub state : State
  pub channel : Option Channel
  pub retry_delay_ms : ℕ

-- What an operation does to the rest of the program.
pub data Effect : Type 0 where
  close_socket : ℕ → Effect
  hand_over : ℕ → Effect  -- `newConnectionCallback_`, with the socket
  update_channel : Effect
  remove_channel : Effect
  queue_reset_channel : Effect
  run_start_in_loop : Effect
  queue_stop_in_loop : Effect
  start_after : ℕ → Effect  -- a timer that calls `startInLoop`, in milliseconds

abbrev pub Done : Type 0
Done = Connector × List Effect

abbrev pub max_retry_delay_ms : ℕ
max_retry_delay_ms = 30 * 1000

abbrev pub init_retry_delay_ms : ℕ
init_retry_delay_ms = 500

unfoldable pub new_connector : Connector
new_connector = record {
  connect = false;
  state = disconnected;
  channel = none;
  retry_delay_ms = init_retry_delay_ms;
}

unfoldable pub retry : ℕ → Connector → Done
retry sockfd c =
    let down = record c { state = disconnected } in
    if c.connect
    then (
      record down { retry_delay_ms = min (c.retry_delay_ms * 2) max_retry_delay_ms },
      close_socket sockfd ∷ start_after c.retry_delay_ms ∷ [],
    )
    else (down, close_socket sockfd ∷ [])

abbrev pub is_null : Option Channel → Bool
is_null none = true
is_null (some ch) = false

-- `connecting (sockfd)`
unfoldable pub begin_connecting : ℕ → Connector → Result Done
begin_connecting sockfd c = do
  assert (is_null c.channel)
  ok (
    record c { state = connecting; channel = some (change enable_writing (new_channel sockfd)) },
    update_channel ∷ [],
  )

-- The cases of `connect` by `errno`, where 0 is success: 0, EINPROGRESS, EINTR and EISCONN; and
-- EAGAIN, EADDRINUSE, EADDRNOTAVAIL, ECONNREFUSED and ENETUNREACH. Every other one closes the socket.
abbrev pub is_under_way : ℕ → Bool
is_under_way errno = errno == 0 || (errno == 115 || (errno == 4 || errno == 106))

abbrev pub is_retried : ℕ → Bool
is_retried errno = errno == 11 || (errno == 98 || (errno == 99 || (errno == 111 || errno == 101)))

-- `connect ()`
unfoldable pub try_connect : ℕ → ℕ → Connector → Result Done
unfolding begin_connecting retry
try_connect sockfd errno c =
    if is_under_way errno
    then begin_connecting sockfd c
    else ok (if is_retried errno then retry sockfd c else (c, close_socket sockfd ∷ []))

-- The socket is created where the connector connects.
unfoldable pub start_in_loop : ℕ → ℕ → Connector → Result Done
unfolding try_connect
start_in_loop sockfd errno c = do
  assert (is_disconnected c.state)
  (if c.connect then try_connect sockfd errno c else ok (c, []))

unfoldable pub start : Connector → Done
start c = (record c { connect = true }, run_start_in_loop ∷ [])

unfoldable pub stop : Connector → Done
stop c = (record c { connect = false }, queue_stop_in_loop ∷ [])

unfoldable pub restart : ℕ → ℕ → Connector → Result Done
unfolding start_in_loop
restart sockfd errno c =
    start_in_loop sockfd errno
      (record c { state = disconnected; retry_delay_ms = init_retry_delay_ms; connect = true })

-- The channel is disabled, removed and reset later; its descriptor is returned.
unfoldable pub remove_channel_of : Option Channel → Connector → Result (ℕ × Connector × List Effect)
remove_channel_of none c = err null_dereference
remove_channel_of (some ch) c = do
  let idle = change disable_all ch
  assert (is_none_event idle)
  let gone = record idle { added_to_loop = false }
  ok (
    ch.fd,
    record c { channel = some gone },
    update_channel ∷ remove_channel ∷ queue_reset_channel ∷ [],
  )

unfoldable pub remove_and_reset_channel : Connector → Result (ℕ × Connector × List Effect)
unfolding remove_channel_of
remove_and_reset_channel c = remove_channel_of c.channel c

unfoldable pub reset_channel : Connector → Connector
reset_channel c = record c { channel = none }

abbrev pub after : List Effect → Done → Done
after es d = (d.0, es ++ d.1)

unfoldable pub stop_in_loop : Connector → Result Done
unfolding remove_and_reset_channel retry
stop_in_loop c =
    if is_connecting c.state
    then (do
      (sockfd, d, es) ← remove_and_reset_channel (record c { state = disconnected })
      ok (after es (retry sockfd d)))
    else ok (c, [])

-- What `handleWrite` does with a socket whose connection attempt has ended.
unfoldable pub finish : ℕ → Bool → ℕ → Connector → Done
unfolding retry
finish error self_connect sockfd c = if not (error == 0) || self_connect then retry sockfd c else (
  record c { state = connected },
  (if c.connect then hand_over sockfd else close_socket sockfd) ∷ [],
)

unfoldable pub handle_write : ℕ → Bool → Connector → Result Done
unfolding remove_and_reset_channel finish
handle_write error self_connect c =
    if is_connecting c.state
    then (do
      (sockfd, d, es) ← remove_and_reset_channel c
      ok (after es (finish error self_connect sockfd d)))
    else (do assert (is_disconnected c.state); ok (c, []))

unfoldable pub handle_error : Connector → Result Done
unfolding remove_and_reset_channel retry
handle_error c =
    if is_connecting c.state
    then (do (sockfd, d, es) ← remove_and_reset_channel c; ok (after es (retry sockfd d)))
    else ok (c, [])

-- The destructor's `assert`
unfoldable pub destroy : Connector → Result (Unit {0})
destroy c = assert (is_null c.channel)
