-- ===== src/TcpClient/Examples.antt =====
-- A client of net/TcpClient.cc connects, and its connection closes.
use ouge_net_lib.Common.{
  ◌≡◌, refl, true, false, none, some, List, [], ◌∷◌, ◌++◌, ok, err, assert_failed, arith,
}
use ouge_net_lib.Channel.{new_channel, change, change_events, is_none_event}
use ouge_net_lib.Connector.{
  new_connector, start as start_connector, start_in_loop, handle_write, reset_channel,
  run_start_in_loop, update_channel, remove_channel, queue_reset_channel, hand_over, connected,
  disconnected,
}
use ouge_net_lib.TcpClient.{
  Conn, TcpClient, Effect, by_connector, connect_established, queue_connect_destroyed, new_client,
  begin, deliver, new_connection, conn_name, remove_connection,
}
use ouge_net_lib.TcpClient.Single.{
  given, established, destroyed, IsValid, starts_in_loop, writable, resets,
}
use ouge_net_lib.TcpClient.Runs.{
  Run, here, next, begins, calls, Run-single, remove_connection-begin,
}

abbrev idle : TcpClient
idle = record {
  loop = 100;
  connector = record {
    connect = false;
    state = disconnected;
    channel = none;
    retry_delay_ms = 500;
  };
  name = 99 ∷ [];
  retry = false;
  connect = true;
  next_conn_id = 1;
  connection = none;
}

idle_new : new_client 100 (99 ∷ []) ≡ idle
unfolding new_client new_connector
idle_new = refl

idle-IsValid : IsValid idle
idle-IsValid = record { single = λ h. absurd (ground (arith, h)); at_loop = tt }

-- "c:1#1"
abbrev first : Conn
first = record { address = 900; name = 99 ∷ 58 ∷ 49 ∷ 35 ∷ 49 ∷ []; sockfd = 5; io_loop = 100 }

abbrev up : TcpClient
up = record idle {
  connector = record { connect = true; state = connected; channel = none; retry_delay_ms = 500 };
  next_conn_id = 2;
  connection = some first;
}

abbrev coming_up : List Effect
coming_up =
    by_connector run_start_in_loop
    ∷ by_connector update_channel
    ∷ by_connector update_channel
    ∷ by_connector remove_channel
    ∷ by_connector queue_reset_channel
    ∷ by_connector (hand_over 5)
    ∷ connect_established first
    ∷ []

connects : Run idle up coming_up
unfolding begin start_connector start_in_loop handle_write deliver new_connection conn_name change
    change_events is_none_event new_channel reset_channel
connects =
    next
      (next (next (next here begins refl) (calls (starts_in_loop 5 115) 0 []) refl)
        (calls (writable 0 false) 900 (49 ∷ [])) refl)
      (calls resets 0 []) refl

Run-single_example :
    IsValid up × (given none ++ established coming_up ≡ destroyed coming_up ++ given (some first))
Run-single_example = Run-single idle-IsValid connects

up-IsValid : IsValid up
up-IsValid = record { single = λ h. refl; at_loop = refl }

remove_connection-begin_example :
    (d : TcpClient) × (remove_connection 6 115 first up
      ≡ ok (d, queue_connect_destroyed first ∷ []))
    × (d.connection ≡ none)
    × (start_in_loop 7 115 (begin d).0.connector ≡ err assert_failed)
remove_connection-begin_example = remove_connection-begin 6 115 7 115 first up up-IsValid refl refl
