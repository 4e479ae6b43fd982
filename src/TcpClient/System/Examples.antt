-- ===== src/TcpClient/System/Examples.antt =====
-- A client of net/TcpClient.cc in its system: it connects, and its peer closes the connection.
use ouge_net_lib.Common.{◌≡◌, refl, true, false, some, none, [], ◌∷◌, ok, arith}
use ouge_net_lib.Buffer.{Buffer}
use ouge_net_lib.Channel.{
  new_channel, change, change_events, enable_reading, disable_all, is_none_event,
}
use ouge_net_lib.Connector.{
  connected as connector_connected, disconnected as connector_disconnected,
  start as start_connector, start_in_loop, handle_write, reset_channel,
}
use ouge_net_lib.TcpConnection.{
  Connection, connecting, connected, disconnected, new_connection as make_connection,
  connect_established as establish, handle_close, default_high_water_mark,
}
use ouge_net_lib.TcpConnection.Closing.{does}
use ouge_net_lib.TcpConnection.Lifecycle.{closes}
use ouge_net_lib.TcpClient.{
  Conn, TcpClient, begin, deliver, new_connection, conn_name, remove_connection,
}
use ouge_net_lib.TcpClient.Single.{IsValid, starts_in_loop, writable, resets}
use ouge_net_lib.TcpClient.Runs.{begins, calls}
use ouge_net_lib.TcpClient.System.{System, put, operate, react, do_effect, run_end, first as now}
use ouge_net_lib.TcpClient.System.Protocol.{
  Run, here, operates, reacts, removed, Run-remove_connection, Run-run_end,
}

abbrev idle : TcpClient
idle = record {
  loop = 100;
  connector = record {
    connect = false;
    state = connector_disconnected;
    channel = none;
    retry_delay_ms = 500;
  };
  name = 99 ∷ [];
  retry = false;
  connect = true;
  next_conn_id = 1;
  connection = none;
}

idle-IsValid : IsValid idle
idle-IsValid = record { single = λ h. absurd (ground (arith, h)); at_loop = tt }

-- "c:1#1"
abbrev first : Conn
first = record { address = 900; name = 99 ∷ 58 ∷ 49 ∷ 35 ∷ 49 ∷ []; sockfd = 5; io_loop = 100 }

abbrev serving : TcpClient
serving = record idle {
  connector = record {
    connect = true;
    state = connector_connected;
    channel = none;
    retry_delay_ms = 500;
  };
  next_conn_id = 2;
  connection = some first;
}

abbrev buffer : Buffer
buffer = record { buffer = []; reader_index = 0; writer_index = 0 }

abbrev made_connection : Connection
made_connection = record {
  state = connecting;
  reading = true;
  channel = new_channel 5;
  input_buffer = buffer;
  output_buffer = buffer;
  high_water_mark = default_high_water_mark;
  write_complete_set = false;
  high_water_mark_set = false;
}

abbrev opened : Connection
opened = record made_connection {
  state = connected;
  channel = change enable_reading made_connection.channel;
}

abbrev ended : Connection
ended = record opened { state = disconnected; channel = change disable_all opened.channel }

abbrev running : System
running = record { client = serving; conn_of = put 900 (some opened) (λ a. none); ends = [] }

abbrev closed : System
closed = record {
  client = record serving { connection = none };
  conn_of = put 900 (some ended) running.conn_of;
  ends = first ∷ [];
}

to_running : Run idle running
unfolding operate do_effect begin start_connector start_in_loop handle_write deliver new_connection
    conn_name change change_events is_none_event new_channel reset_channel make_connection establish
to_running =
    operates
      (operates
        (operates (operates here begins (new_channel 0) buffer buffer tt refl)
          (calls (starts_in_loop 5 115) 0 []) (new_channel 0) buffer buffer refl refl)
        (calls (writable 0 false) 900 (49 ∷ [])) (new_channel 5) buffer buffer refl refl)
      (calls resets 0 []) (new_channel 0) buffer buffer refl refl

to_closed : Run idle closed
unfolding react do_effect handle_close remove_connection
to_closed = reacts to_running (does closes) 6 115 first made_connection refl refl refl

Run-remove_connection_example :
    (conn : Conn) × (running.client.connection ≡ some conn)
    × (conn.address ≡ 900)
    × (remove_connection 6 115 conn serving ≡ removed 6 115 conn serving)
Run-remove_connection_example =
    Run-remove_connection 6 115 900 idle-IsValid refl to_running refl refl

Run-run_end_example : (z : System) × (run_end first (record closed { ends = [] }) ≡ ok z)
Run-run_end_example = Run-run_end idle-IsValid refl to_closed now
