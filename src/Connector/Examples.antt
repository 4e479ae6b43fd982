-- ===== src/Connector/Examples.antt =====
-- A refused attempt, a retry that is under way, and the connection.
use ouge_net_lib.Common.{◌≡◌, refl, true, false, none, [], ◌∷◌, ◌++◌, arith, ok, some}
use ouge_net_lib.Channel.{
  Channel, change, enable_writing, new_channel, change_events, is_none_event,
}
use ouge_net_lib.Connector.{
  disconnected, connecting, Connector, stop_in_loop, handle_error, handle_write, retry,
  start_in_loop, close_socket, start_after,
}
use ouge_net_lib.Connector.Sockets.{IsValid, held, released}
use ouge_net_lib.Connector.Runs.{
  Run, here, next, performs, starts_in_loop, Run-sockets, callbacks-Ends, Ends, retried,
  retry-backoff,
}

abbrev ready : Connector
ready = record { connect = true; state = disconnected; channel = none; retry_delay_ms = 500 }

ready-IsValid : IsValid ready 0
ready-IsValid = omega arith

abbrev backed_off : Connector
backed_off = record { connect = true; state = disconnected; channel = none; retry_delay_ms = 1000 }

refused : start_in_loop 5 111 ready ≡ ok (backed_off, close_socket 5 ∷ start_after 500 ∷ [])
unfolding start_in_loop
refused = refl

attempt : Run ready 0 backed_off 0 (5 ∷ []) (close_socket 5 ∷ start_after 500 ∷ [])
attempt = next here (performs (starts_in_loop 5 111) tt refused refl refl)

Run-sockets_example :
    IsValid backed_off 0
    × (held ready ++ 5 ∷ [] ≡ released (close_socket 5 ∷ start_after 500 ∷ []) ++ held backed_off)
Run-sockets_example = Run-sockets ready-IsValid attempt

abbrev watching : Channel
watching = change enable_writing (new_channel 5)

abbrev trying : Connector
trying = record {
  connect = true;
  state = connecting;
  channel = some watching;
  retry_delay_ms = 500;
}

trying-IsValid : IsValid trying 0
unfolding change change_events new_channel
trying-IsValid = record {
  tracked = (refl, refl);
  delay_least = omega arith;
  delay_most = omega arith;
}

waits_to_write : is_none_event watching ≡ false
unfolding change change_events new_channel is_none_event
waits_to_write = refl

callbacks-Ends_example :
    Ends watching (handle_write 111 false trying)
    × Ends watching (handle_error trying)
    × Ends watching (stop_in_loop trying)
callbacks-Ends_example = callbacks-Ends 111 false trying-IsValid refl waits_to_write

retry-backoff_example :
    ((retried 7 3 ready).retry_delay_ms ≡ 4000)
    × ((retry 7 (retried 7 3 ready)).1 ≡ close_socket 7 ∷ start_after 4000 ∷ [])
retry-backoff_example = retry-backoff 7 3 ready refl refl
