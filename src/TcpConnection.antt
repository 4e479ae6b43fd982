-- ===== src/TcpConnection.antt =====
-- net/TcpConnection.h and net/TcpConnection.cc: one connection, driven by its loop. An operation
-- gives the connection after it and what it did outside, in order. A callback of the user stands
-- for itself among these effects; what it calls in its turn is a later operation.
pub mod Output
pub mod Stream
pub mod Receive
pub mod Sends
pub mod Closing
pub mod Lifecycle
mod Examples
use ouge_net_lib.Common.{
  ℕ, ◌*◌, Bool, true, false, ◌&&◌, ◌||◌, not, Option, none, some, List, [], ◌∷◌, ◌++◌,
  if◌then◌else◌, Result, ok, err, ◌>>=◌, ◌>>◌, assert,
}
use ouge_net_lib.Buffer.{Buffer}
use ouge_net_lib.Channel.{
  Channel, Change, enable_reading, disable_reading, disable_all, change, is_reading, is_writing,
  is_none_event,
}

pub data State : Type 0 where
  disconnected connecting connected disconnecting : State

abbrev pub is_disconnected : State → Bool
is_disconnected disconnected = true
is_disconnected _ = false

abbrev pub is_connecting : State → Bool
is_connecting connecting = true
is_connecting _ = false

abbrev pub is_connected : State → Bool
is_connected connected = true
is_connected _ = false

abbrev pub is_disconnecting : State → Bool
is_disconnecting disconnecting = true
is_disconnecting _ = false

-- `state_ == kConnected || state_ == kDisconnecting`
abbrev pub is_open : State → Bool
is_open s = is_connected s || is_disconnecting s

pub record Connection : Type 0 where
  pub state : State
  pub reading : Bool
  pub channel : Channel
  pub input_buffer : Buffer
  pub output_buffer : Buffer
  pub high_water_mark : ℕ
  pub write_complete_set : Bool  -- whether `writeCompleteCallback_` is set
  pub high_water_mark_set : Bool  -- whether `highWaterMarkCallback_` is set

-- What an operation does to the rest of the program.
pub data Effect : Type 0 where
  wrote : List ℕ → Effect  -- bytes that the socket took
  update_channel : Effect  -- the channel's events went to the poller
  remove_channel : Effect  -- the channel was taken from the poller
  tie_channel : Effect  -- the channel holds the connection weakly
  shutdown_write : Effect  -- the writing side of the socket was closed
  connection_callback : Effect
  close_callback : Effect
  message_callback : Effect
  report_error : Effect  -- `handleError` logs the socket's error
  queue_write_complete : Effect  -- queued in the loop, with the connection
  queue_high_water : ℕ → Effect
  queue_force_close : Effect
  run_shutdown : Effect  -- `shutdownInLoop`, by `runInLoop`
  -- `sendInLoop` of a message, queued by another thread with the caller's pointer to the bytes
  run_send : List ℕ → Effect
  force_close_later : Effect  -- a timer that calls `forceClose` if the connection still lives

abbrev pub Done : Type 0
Done = Connection × List Effect

abbrev pub default_high_water_mark : ℕ
default_high_water_mark = 64 * 1024 * 1024

-- The constructor's state, from a new channel and two new buffers.
unfoldable pub new_connection : Channel → Buffer → Buffer → Connection
new_connection channel input output = record {
  state = connecting;
  reading = true;
  channel = channel;
  input_buffer = input;
  output_buffer = output;
  high_water_mark = default_high_water_mark;
  write_complete_set = false;
  high_water_mark_set = false;
}

-- A channel operation and the call of `update ()` that it ends with.
abbrev pub with_events : Change → Connection → Connection
with_events k c = record c { channel = change k c.channel }

unfoldable pub connect_established : Connection → Result Done
connect_established c = do
  assert (is_connecting c.state)
  let up = record c { state = connected }
  ok (with_events enable_reading up, tie_channel ∷ update_channel ∷ connection_callback ∷ [])

unfoldable pub connect_destroyed : Connection → Result Done
connect_destroyed c = do
  let down = with_events disable_all (record c { state = disconnected })
  let d = if is_connected c.state then down else c
  let calls = if is_connected c.state then update_channel ∷ connection_callback ∷ [] else []
  assert (is_none_event d.channel)
  ok (
    record d { channel = record (d.channel) { added_to_loop = false } },
    calls ++ remove_channel ∷ [],
  )

unfoldable pub handle_close : Connection → Result Done
handle_close c = do
  assert (is_open c.state)
  ok (
    with_events disable_all (record c { state = disconnected }),
    update_channel ∷ connection_callback ∷ close_callback ∷ [],
  )

unfoldable pub shutdown : Connection → Done
shutdown c =
    if is_connected c.state
    then (record c { state = disconnecting }, run_shutdown ∷ [])
    else (c, [])

unfoldable pub shutdown_in_loop : Connection → Done
shutdown_in_loop c = (c, if is_writing c.channel then [] else shutdown_write ∷ [])

unfoldable pub force_close : Connection → Done
force_close c =
    if is_open c.state
    then (record c { state = disconnecting }, queue_force_close ∷ [])
    else (c, [])

unfoldable pub force_close_with_delay : Connection → Done
force_close_with_delay c =
    if is_open c.state
    then (record c { state = disconnecting }, force_close_later ∷ [])
    else (c, [])

unfoldable pub force_close_in_loop : Connection → Result Done
unfolding handle_close
force_close_in_loop c = if is_open c.state then handle_close c else ok (c, [])

unfoldable pub start_read_in_loop : Connection → Done
start_read_in_loop c =
    if not c.reading || not (is_reading c.channel)
    then (record (with_events enable_reading c) { reading = true }, update_channel ∷ [])
    else (c, [])

unfoldable pub stop_read_in_loop : Connection → Done
stop_read_in_loop c =
    if c.reading || is_reading c.channel
    then (record (with_events disable_reading c) { reading = false }, update_channel ∷ [])
    else (c, [])

unfoldable pub set_high_water_mark_callback : ℕ → Connection → Connection
set_high_water_mark_callback mark c = record c {
  high_water_mark_set = true;
  high_water_mark = mark;
}

-- The destructor's `assert`
unfoldable pub destroy : Connection → Result (Unit {0})
destroy c = assert (is_disconnected c.state)
