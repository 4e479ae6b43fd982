-- ===== src/TcpServer/Examples.antt =====
-- A server of net/TcpServer.cc without threads: two connections, of which the first closes.
use ouge_net_lib.Common.{
  ◌≡◌, refl, true, false, ◌&&◌, some, List, [], ◌∷◌, ◌++◌, ltb, leb, arith, ok, err,
  null_dereference,
}
use ouge_net_lib.Channel.{new_channel}
use ouge_net_lib.EventLoopThreadPool.{get_next_loop, new_pool, start_loops, start as start_pool}
use ouge_net_lib.TcpServer.{
  Conn, TcpServer, listen_acceptor, connect_established, connect_destroyed, Effect, run_in_loop,
  queue_in_loop, new_server, set_thread_num, conn_name, start, new_connection, remove_in_loop,
  destroy,
}
use ouge_net_lib.TcpServer.Connections.{one_if}
use ouge_net_lib.TcpServer.Tasks.{established, destroyed, IsAtHome, IsValid}
use ouge_net_lib.TcpServer.Threads.{start_thread, start-set_thread_num}
use ouge_net_lib.TcpServer.Runs.{accepts, removes}
use ouge_net_lib.TcpServer.Lifetimes.{Run, here, next, Run-lifetimes}

-- The address is the text "1:2", the name "s".
abbrev started_server : TcpServer
started_server = record {
  loop = 100;
  ip_port = 49 ∷ 58 ∷ 50 ∷ [];
  name = 115 ∷ [];
  acceptor = record { accept_channel = new_channel 3; listenning = false; idle_fd = some 4 };
  thread_pool = record { base_loop = 100; started = true; num_threads = 0; next = 0; loops = [] };
  started = true;
  next_conn_id = 1;
  connections = [];
}

-- Where the flag happens to be clear, a second `start` does nothing; where it does not, the first does
-- nothing either.
starts_once :
    (start
        (λ i. ok i)
        false
        (new_server 100 (49 ∷ 58 ∷ 50 ∷ []) (115 ∷ []) started_server.acceptor false)
      ≡ ok (started_server, run_in_loop 100 listen_acceptor ∷ []))
    × (start
          (λ i. ok i)
          false
          (new_server 100 (49 ∷ 58 ∷ 50 ∷ []) (115 ∷ []) started_server.acceptor true)
        ≡ ok (new_server 100 (49 ∷ 58 ∷ 50 ∷ []) (115 ∷ []) started_server.acceptor true, []))
    × (start (λ i. ok i) false started_server ≡ ok (started_server, []))
unfolding start start_pool new_server new_pool start_loops
starts_once = (refl, refl, refl)

abbrev first : Conn
first = record { name = 115 ∷ 45 ∷ 49 ∷ 58 ∷ 50 ∷ 35 ∷ 49 ∷ []; sockfd = 7; io_loop = 100 }

abbrev second : Conn
second = record { name = 115 ∷ 45 ∷ 49 ∷ 58 ∷ 50 ∷ 35 ∷ 50 ∷ []; sockfd = 8; io_loop = 100 }

named_first : conn_name (115 ∷ []) (49 ∷ 58 ∷ 50 ∷ []) 1 ≡ first.name
unfolding conn_name
named_first = refl

serving :
    Run started_server
      (record started_server { next_conn_id = 3; connections = second ∷ [] })
      (run_in_loop 100 (connect_established first)
        ∷ run_in_loop 100 (connect_established second)
        ∷ queue_in_loop 100 (connect_destroyed first)
        ∷ [])
unfolding new_connection conn_name get_next_loop remove_in_loop
serving = next (next (next here (accepts 7) refl) (accepts 8) refl) (removes first) refl

started_server-IsValid : IsValid started_server
started_server-IsValid = record {
  short = omega arith;
  small = omega arith;
  numbered = tt;
  distinct = tt;
}

abbrev tasks : List Effect
tasks =
    run_in_loop 100 (connect_established first)
    ∷ run_in_loop 100 (connect_established second)
    ∷ queue_in_loop 100 (connect_destroyed first)
    ∷ []

Run-lifetimes_example :
    (established (conn_name (115 ∷ []) (49 ∷ 58 ∷ 50 ∷ []) 2) tasks ≡ one_if (leb 1 2 && ltb 2 3))
    × (destroyed
          (conn_name (115 ∷ []) (49 ∷ 58 ∷ 50 ∷ []) 2)
          (tasks ++ destroy (record started_server { next_conn_id = 3; connections = second ∷ [] }))
        ≡ established (conn_name (115 ∷ []) (49 ∷ 58 ∷ 50 ∷ []) 2) tasks)
    × IsAtHome 100 tasks
Run-lifetimes_example = Run-lifetimes 2 started_server-IsValid refl serving (omega arith)

abbrev quiet_server : TcpServer
quiet_server = record started_server {
  started = false;
  thread_pool = record (started_server.thread_pool) { started = false };
}

-- With threads of net/EventLoopThread.cc.
start-set_thread_num_example :
    (start (start_thread (λ i. i)) false (set_thread_num 0 quiet_server)
      ≡ ok (
        record quiet_server {
          started = true;
          thread_pool = record (quiet_server.thread_pool) { started = true; num_threads = 0 };
        },
        run_in_loop 100 listen_acceptor ∷ [],
      ))
    × (start (start_thread (λ i. i)) false (set_thread_num 2 quiet_server) ≡ err null_dereference)
start-set_thread_num_example = start-set_thread_num (λ i. i) false 1 quiet_server refl refl refl
