-- ===== src/TcpConnection/Examples.antt =====
-- A connection that comes up, sends three bytes of which the socket takes two at first, shuts down,
-- and sends the last byte when the socket is writable again.
use ouge_net_lib.Common.{
  ℕ, ◌+◌, ◌≤◌, ◌≡◌, refl, ap, inl, Bool, true, false, List, [], ◌∷◌, ◌++◌, arith, replicate, ok,
  err, assert_failed, read_at, copy_to,
}
use ouge_net_lib.Buffer
use ouge_net_lib.Buffer.{Buffer, append, retrieve_all}
use ouge_net_lib.TcpConnection.Sends.{
  Sends, send_buffer, send_queued, queued, send_buffer-send_queued,
}
use ouge_net_lib.Buffer.Valid.{contents}
use ouge_net_lib.Channel.{Channel, new, change, is_writing, is_none_event}
use ouge_net_lib.TcpConnection.{
  handle_close, start_read_in_loop, Done, Connection, State, connecting, connected, disconnecting,
  Effect, wrote, update_channel, tie_channel, connection_callback, run_shutdown, shutdown_write,
  default_high_water_mark, connect_established, connect_destroyed, shutdown,
}
use ouge_net_lib.TcpConnection.Output.{taken, is_idle, send_in_loop, handle_write, handle_read}
use ouge_net_lib.TcpConnection.Stream.{IsValid, Streams, wire, accepted}
use ouge_net_lib.TcpConnection.Stream.Send.{send_in_loop-Streams}
use ouge_net_lib.TcpConnection.Closing.{handle_close-start_read_in_loop}
use ouge_net_lib.TcpConnection.Receive.{Received, handle_read-Received}
use ouge_net_lib.Buffer.ReadFd.{got, offered}
use ouge_net_lib.TcpConnection.Lifecycle.{
  Run, here, next, sends, writable, performs, establishes, shuts, rank, called, calls,
}
use ouge_net_lib.TcpConnection.Lifecycle.Runs.{
  Run-stream, Run-callbacks, connect_destroyed-shutdown,
}

abbrev watching : ℕ → Bool → Channel
watching events on = record {
  fd = 9;
  events = events;
  revents = 0;
  index = new;
  log_hup = true;
  tied = false;
  event_handling = false;
  added_to_loop = on;
}

abbrev empty : Buffer
empty = record { buffer = replicate 16 0; reader_index = 8; writer_index = 8 }

abbrev holding : Buffer
holding = record { buffer = replicate 8 0 ++ 3 ∷ replicate 7 0; reader_index = 8; writer_index = 9 }

abbrev spent : Buffer
spent = record { buffer = replicate 8 0 ++ 3 ∷ replicate 7 0; reader_index = 8; writer_index = 8 }

abbrev with_parts : State → ℕ → Bool → Buffer → Connection
with_parts s events on output = record {
  state = s;
  reading = true;
  channel = watching events on;
  input_buffer = empty;
  output_buffer = output;
  high_water_mark = default_high_water_mark;
  write_complete_set = false;
  high_water_mark_set = false;
}

abbrev starting : Connection
starting = with_parts connecting 0 false empty

abbrev up : Connection
up = with_parts connected 3 true empty

abbrev sending : Connection
sending = with_parts connected 7 true holding

abbrev closing : Connection
closing = with_parts disconnecting 7 true holding

abbrev sent : Connection
sent = with_parts disconnecting 3 true spent

starting-IsValid : IsValid starting
unfolding is_writing
starting-IsValid = record {
  input = omega arith;
  output = omega arith;
  flags = (false, false, record { events_eq = refl });
  writing = λ h. refl;
}

up-IsValid : IsValid up
unfolding is_writing
up-IsValid = record {
  input = omega arith;
  output = omega arith;
  flags = (true, false, record { events_eq = refl });
  writing = λ h. refl;
}

closing-IsValid : IsValid closing
unfolding is_writing
closing-IsValid = record {
  input = omega arith;
  output = omega arith;
  flags = (true, true, record { events_eq = refl });
  writing = λ h. refl;
}

comes_up :
    connect_established starting ≡ ok (up, tie_channel ∷ update_channel ∷ connection_callback ∷ [])
unfolding connect_established change
comes_up = refl

takes_two :
    send_in_loop (1 ∷ 2 ∷ 3 ∷ []) (taken 2) up
    ≡ ok (sending, wrote (1 ∷ 2 ∷ []) ∷ update_channel ∷ [])
unfolding send_in_loop is_writing read_at append copy_to change
takes_two = refl

begins_to_close : shutdown sending ≡ (closing, run_shutdown ∷ [])
unfolding shutdown
begins_to_close = refl

sends_last :
    handle_write (taken 1) closing
    ≡ ok (sent, wrote (3 ∷ []) ∷ update_channel ∷ shutdown_write ∷ [])
unfolding handle_write is_writing read_at change
sends_last = refl

abbrev effects : List Effect
effects =
    tie_channel
    ∷ update_channel
    ∷ connection_callback
    ∷ wrote (1 ∷ 2 ∷ [])
    ∷ update_channel
    ∷ run_shutdown
    ∷ wrote (3 ∷ [])
    ∷ update_channel
    ∷ shutdown_write
    ∷ []

accepts_three :
    (let three : List ℕ = 1 ∷ 2 ∷ 3 ∷ [] in three) ≡ accepted (1 ∷ 2 ∷ 3 ∷ []) (taken 2) up
unfolding is_idle is_writing
accepts_three = refl

session : Run starting sent (1 ∷ 2 ∷ 3 ∷ []) effects
session =
    next
      (next
        (next (next here (performs establishes comes_up refl)) (
          sends (1 ∷ 2 ∷ 3 ∷ []) (taken 2) (omega arith) (omega arith) (inl (omega arith)) takes_two
            accepts_three))
        (performs shuts (ap ok begins_to_close) refl))
      (writable (taken 1) (omega arith) sends_last refl)

Run-stream_example :
    IsValid sent × (wire effects ++ contents spent ≡ contents empty ++ 1 ∷ 2 ∷ 3 ∷ [])
Run-stream_example = Run-stream starting-IsValid session

Run-callbacks_example :
    (rank connecting ≤ rank disconnecting)
    × (called connecting + calls effects ≡ called disconnecting)
Run-callbacks_example = Run-callbacks starting-IsValid session

send_in_loop-Streams_example :
    Streams (send_in_loop (1 ∷ 2 ∷ 3 ∷ []) (taken 2) up) up (accepted (1 ∷ 2 ∷ 3 ∷ []) (taken 2) up)
send_in_loop-Streams_example =
    send_in_loop-Streams (1 ∷ 2 ∷ 3 ∷ []) (taken 2) up-IsValid (omega arith) (omega arith)
      (inl (omega arith))

connect_destroyed-shutdown_example : connect_destroyed (shutdown up).0 ≡ err assert_failed
connect_destroyed-shutdown_example =
    connect_destroyed-shutdown up refl (unfold is_none_event in refl)

handle_read-Received_example :
    (c' : Connection) × (es : List Effect) × (handle_read (λ room. got (104 ∷ 105 ∷ [])) up
      ≡ ok (c', es))
    × IsValid c'
    × (contents c'.input_buffer ≡ contents empty ++ 104 ∷ 105 ∷ [])
    × (c'.output_buffer ≡ empty)
    × Received (got (104 ∷ 105 ∷ [])) up c' es
handle_read-Received_example =
    handle_read-Received (λ room. got (104 ∷ 105 ∷ [])) up-IsValid refl (omega arith)
      (unfold offered in omega arith)

send_buffer-send_queued_example :
    Sends holding (taken 1) up (send_buffer true holding (taken 1) up)
    × (send_buffer false holding (taken 1) up ≡ ok queued)
    × Sends holding (taken 1) up (send_queued holding (taken 1) up)
    × Buffer.Valid.IsValid (retrieve_all holding)
    × (contents (retrieve_all holding) ≡ [])
send_buffer-send_queued_example = send_buffer-send_queued holding (taken 1) up (omega arith) refl

handle_close-start_read_in_loop_example :
    (d : Connection) × ((es : List Effect) × (handle_close up ≡ ok (d, es)))
    × ((r : Done) × (connect_destroyed d ≡ ok r))
    × (connect_destroyed (start_read_in_loop d).0 ≡ err assert_failed)
handle_close-start_read_in_loop_example = handle_close-start_read_in_loop up refl
