-- ===== src/TcpServer/System/Examples.antt =====
-- A server without threads in its system: one connection, whose peer closes it.
use ouge_net_lib.Common.{◌≡◌, ℕ, refl, true, false, some, none, List, [], ◌∷◌, arith, ok}
use ouge_net_lib.Buffer.{Buffer}
use ouge_net_lib.Channel.{new_channel, change, enable_reading, disable_all}
use ouge_net_lib.TcpConnection.{
  Connection, connecting, connected, disconnected, new_connection as make_connection, handle_close,
  default_high_water_mark,
}
use ouge_net_lib.TcpConnection.Closing.{does}
use ouge_net_lib.TcpConnection.Lifecycle.{closes}
use ouge_net_lib.TcpServer.{
  Conn, TcpServer, listen_acceptor, connect_destroyed, remove_connection_in_loop, conn_name,
  remove_in_loop,
}
use ouge_net_lib.TcpServer.Connections.{one_if, live}
use ouge_net_lib.TcpServer.Tasks.{IsValid}
use ouge_net_lib.TcpServer.System.{
  System, put, run_task, accept, react, close_callbacks, first as now, later,
}
use ouge_net_lib.TcpServer.System.Protocol.{Run, here, accepts, reacts, runs, Run-run_task}
use ouge_net_lib.TcpServer.System.Drain.{drain, is_up, Run-drain}

-- The address is the text "1:2", the name "s".
abbrev started_server : TcpServer
started_server = record {
  loop = 100;
  ip_port = 49 ∷ 58 ∷ 50 ∷ [];
  name = 115 ∷ [];
  acceptor = record { accept_channel = new_channel 3; listenning = false; idle_fd = some 4 };
  thread_pool = record { base_loop = 100; started = true; num_threads = 0; next = 0; loops = [] };
  started = true;
  next_conn_id = 1;
  connections = [];
}

abbrev first : Conn
first = record { name = 115 ∷ 45 ∷ 49 ∷ 58 ∷ 50 ∷ 35 ∷ 49 ∷ []; sockfd = 7; io_loop = 100 }

started_server-IsValid : IsValid started_server
started_server-IsValid = record {
  short = omega arith;
  small = omega arith;
  numbered = tt;
  distinct = tt;
}

-- The first connection is made, comes up, and is closed by its peer.
abbrev buffer : Buffer
buffer = record { buffer = []; reader_index = 0; writer_index = 0 }

abbrev made_connection : Connection
made_connection = record {
  state = connecting;
  reading = true;
  channel = new_channel 7;
  input_buffer = buffer;
  output_buffer = buffer;
  high_water_mark = default_high_water_mark;
  write_complete_set = false;
  high_water_mark_set = false;
}

abbrev opened : Connection
opened = record made_connection {
  state = connected;
  channel = change enable_reading made_connection.channel;
}

abbrev ended : Connection
ended = record opened { state = disconnected; channel = change disable_all opened.channel }

abbrev with_first : TcpServer
with_first = record started_server { next_conn_id = 2; connections = first ∷ [] }

abbrev closing : System
closing = record {
  server = with_first;
  conn_of =
      put first.name ended (put first.name opened (put first.name made_connection (λ x. none)));
  tasks = listen_acceptor ∷ remove_connection_in_loop first ∷ [];
}

abbrev removing : System
removing = record closing {
  server = record with_first { connections = [] };
  tasks = listen_acceptor ∷ connect_destroyed first ∷ [];
}

to_closing : Run started_server closing
unfolding run_task accept react close_callbacks conn_name make_connection handle_close
to_closing =
    reacts (runs (accepts here 7 (new_channel 7) buffer buffer refl) (later now) refl) (does closes)
      first refl refl refl

to_removing : Run started_server removing
unfolding run_task remove_in_loop
to_removing = runs to_closing (later now) refl

Run-run_task_example :
    (z : System) × (run_task
        (connect_destroyed first)
        (record removing { tasks = listen_acceptor ∷ [] })
      ≡ ok z)
Run-run_task_example = Run-run_task started_server-IsValid refl to_removing (later now)

Run-drain_example :
    (z : System) × (drain 4 closing ≡ ok z)
    × (z.tasks ≡ [])
    × ((x : List ℕ) → live x z.server.connections ≡ one_if (is_up (z.conn_of x)))
Run-drain_example = Run-drain started_server-IsValid refl to_closing
