-- ===== src/TcpConnection/Lifecycle.antt =====
-- The life of a connection as sequences of operations of its loop, in any order that passes their
-- `assert`s.
pub mod Moves
pub mod Runs
use ouge_net_lib.Common.{ℕ, ◌+◌, ◌≤◌, ◌≡◌, List, [], ◌∷◌, ◌++◌, length, Result, ok, suc, max_size}
use ouge_net_lib.Buffer.{Buffer}
use ouge_net_lib.Buffer.Valid.{contents}
use ouge_net_lib.Buffer.Valid
use ouge_net_lib.Buffer.Grow.{Fits}
use ouge_net_lib.Buffer.ReadFd.{ReadResult, Respects as ReadRespects, offered, extra_size}
use ouge_net_lib.TcpConnection.{
  State, disconnected, connecting, connected, disconnecting, Connection, Effect, Done,
  connect_established, connect_destroyed, handle_close, shutdown, shutdown_in_loop, force_close,
  force_close_with_delay, force_close_in_loop, start_read_in_loop, stop_read_in_loop,
  connection_callback,
}
use ouge_net_lib.TcpConnection.Output.{WriteResult, send_in_loop, handle_write, handle_read}
use ouge_net_lib.TcpConnection.Stream.{IsValid, Respects, accepted}

-- Operations without input, those that cannot fail first.
pub data Operation : Type 0 where
  shuts shuts_in_loop forces forces_later forces_in_loop starts_read stops_read : Operation
  establishes closes destroys : Operation

abbrev pub perform : Operation → Connection → Result Done
perform shuts c = ok (shutdown c)
perform shuts_in_loop c = ok (shutdown_in_loop c)
perform forces c = ok (force_close c)
perform forces_later c = ok (force_close_with_delay c)
perform forces_in_loop c = force_close_in_loop c
perform starts_read c = ok (start_read_in_loop c)
perform stops_read c = ok (stop_read_in_loop c)
perform establishes c = connect_established c
perform closes c = handle_close c
perform destroys c = connect_destroyed c

-- One operation that passes its `assert`s: what it accepts for sending, and what it does.
pub data Step (c : Connection) (c' : Connection) (taken_in : List ℕ) (es : List Effect)
    : Type 0 where
  sends :
      (bytes : List ℕ) (w : WriteResult)
      → Respects w (length bytes)
      → length bytes ≤ max_size
      → Fits (length bytes) c.output_buffer
      → send_in_loop bytes w c ≡ ok (c', es)
      → taken_in ≡ accepted bytes w c
      → Step c c' taken_in es
  writable :
      (w : WriteResult)
      → Respects w (length (contents c.output_buffer))
      → handle_write w c ≡ ok (c', es)
      → taken_in ≡ []
      → Step c c' taken_in es
  readable :
      (readv : ℕ → ReadResult)
      → length c.input_buffer.buffer + extra_size ≤ max_size
      → ReadRespects (readv (offered c.input_buffer)) (offered c.input_buffer)
      → handle_read readv c ≡ ok (c', es)
      → taken_in ≡ []
      → Step c c' taken_in es
  -- A callback of the user takes bytes from the input buffer.
  consumes :
      (b : Buffer)
      → Valid.IsValid b
      → c' ≡ record c { input_buffer = b }
      → es ≡ []
      → taken_in ≡ []
      → Step c c' taken_in es
  performs : (o : Operation) → perform o c ≡ ok (c', es) → taken_in ≡ [] → Step c c' taken_in es

pub data Run (c : Connection) : Connection → List ℕ → List Effect → Type 0 where
  here : Run c c [] []
  next :
      {d d' : Connection} {accepted_before taken_in : List ℕ} {before es : List Effect}
      → Run c d accepted_before before
      → Step d d' taken_in es
      → Run c d' (accepted_before ++ taken_in) (before ++ es)

-- How far a connection has come.
abbrev pub rank : State → ℕ
rank connecting = 0
rank connected = 1
rank disconnecting = 2
rank disconnected = 3

-- How often the connection callback has run when a connection is in a state: once when it came up,
-- and once more when it went down.
abbrev pub called : State → ℕ
called connecting = 0
called connected = 1
called disconnecting = 1
called disconnected = 2

abbrev pub calls : List Effect → ℕ
calls [] = 0
calls (connection_callback ∷ es) = suc (calls es)
calls (e ∷ es) = calls es
