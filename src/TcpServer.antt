-- ===== src/TcpServer.antt =====
-- net/TcpServer.h and net/TcpServer.cc: the connections of a server by their names, and the tasks
-- that it gives to the loops. A loop is its address; a text is a list of bytes.
pub mod Names
pub mod Connections
pub mod Tasks
pub mod Runs
pub mod Lifetimes
pub mod Threads
pub mod System
mod Examples
use ouge_net_lib.Common.{
  ◌>>=◌, ◌>>◌, ℕ, ◌+◌, ◌^◌, Bool, true, false, ◌&&◌, ◌||◌, not, List, [], ◌∷◌, ◌++◌, ltb, ◌==◌,
  if◌then◌else◌, Result, ok, guard, signed_overflow, assert,
}
use ouge_net_lib.Common.Decimal.{int_digits, print_into}
use ouge_net_lib.EventLoopThreadPool.{
  EventLoopThreadPool, new_pool, start as start_pool, get_next_loop,
}
use ouge_net_lib.Acceptor.{Acceptor}

-- What the server sees of a `TcpConnection`.
pub record Conn : Type 0 where
  pub name : List ℕ
  pub sockfd : ℕ
  pub io_loop : ℕ

pub record TcpServer : Type 0 where
  pub loop : ℕ
  pub ip_port : List ℕ
  pub name : List ℕ
  pub acceptor : Acceptor
  pub thread_pool : EventLoopThreadPool
  pub started : Bool
  pub next_conn_id : ℕ
  pub connections : List Conn  -- in the order of their names

-- The functors that a loop runs.
pub data Task : Type 0 where
  listen_acceptor : Task
  connect_established connect_destroyed remove_connection_in_loop : Conn → Task

-- What an operation does outside.
pub data Effect : Type 0 where
  run_in_loop queue_in_loop : ℕ → Task → Effect
  thread_init : Effect  -- `threadInitCallback_` on the base loop

abbrev pub Done : Type 0
Done = TcpServer × List Effect

-- The constructor leaves `started_` as it is, so its value is the last argument.
unfoldable pub new_server : ℕ → List ℕ → List ℕ → Acceptor → Bool → TcpServer
unfolding new_pool
new_server loop ip_port name acceptor started = record {
  loop = loop;
  ip_port = ip_port;
  name = name;
  acceptor = acceptor;
  thread_pool = new_pool loop;
  started = started;
  next_conn_id = 1;
  connections = [];
}

unfoldable pub set_thread_num : ℕ → TcpServer → TcpServer
set_thread_num num_threads s = record s {
  thread_pool = record (s.thread_pool) { num_threads = num_threads };
}

-- `start_loop` and `cb_set` are those of the pool.
unfoldable pub start : (ℕ → Result ℕ) → Bool → TcpServer → Result Done
unfolding start_pool
start start_loop cb_set s = if s.started then ok (s, []) else (do
  (pool, calls_back) ← start_pool start_loop cb_set s.thread_pool
  assert (not (s.acceptor).listenning)
  ok (
    record s { started = true; thread_pool = pool },
    (if calls_back then thread_init ∷ [] else []) ++ run_in_loop s.loop listen_acceptor ∷ [],
  ))

-- `std::string` equality
abbrev pub is_text : List ℕ → List ℕ → Bool
is_text [] [] = true
is_text [] (y ∷ ys) = false
is_text (x ∷ xs) [] = false
is_text (x ∷ xs) (y ∷ ys) = x == y && is_text xs ys

-- `operator<` of `std::string`
abbrev pub is_text_before : List ℕ → List ℕ → Bool
is_text_before xs [] = false
is_text_before [] (y ∷ ys) = true
is_text_before (x ∷ xs) (y ∷ ys) = ltb x y || x == y && is_text_before xs ys

-- `connections_[conn->name ()] = conn`
abbrev pub put_connection : Conn → List Conn → List Conn
put_connection c [] = c ∷ []
put_connection c (d ∷ ds) =
    let rest = put_connection c ds in
    if is_text c.name d.name
    then c ∷ ds
    else if is_text_before c.name d.name
    then c ∷ d ∷ ds
    else d ∷ rest

-- `connections_.erase (name)`, and how many it erased.
abbrev pub erase_connection : List ℕ → List Conn → ℕ × List Conn
erase_connection name [] = (0, [])
erase_connection name (d ∷ ds) =
    let (n, rest) = erase_connection name ds in
    if is_text name d.name then (1, ds) else (n, d ∷ rest)

-- `name_` and "-%s#%d", in an array of 64 bytes.
unfoldable pub conn_name : List ℕ → List ℕ → ℕ → List ℕ
conn_name name ip_port id = name ++ print_into 64 (45 ∷ (ip_port ++ 35 ∷ int_digits id))

abbrev pub new_conn : List ℕ → ℕ → ℕ → Conn
new_conn name sockfd io_loop = record { name = name; sockfd = sockfd; io_loop = io_loop }

unfoldable pub new_connection : ℕ → TcpServer → Result Done
unfolding get_next_loop conn_name
new_connection sockfd s = do
  (io_loop, pool) ← get_next_loop s.thread_pool
  guard (ltb (s.next_conn_id + 1) (2 ^ 31)) signed_overflow
  let conn = new_conn (conn_name s.name s.ip_port s.next_conn_id) sockfd io_loop
  ok (
    record s {
      thread_pool = pool;
      next_conn_id = s.next_conn_id + 1;
      connections = put_connection conn s.connections;
    },
    run_in_loop io_loop (connect_established conn) ∷ [],
  )

-- Called by the connection in its own loop.
unfoldable pub remove_connection : Conn → TcpServer → Done
remove_connection conn s = (s, run_in_loop s.loop (remove_connection_in_loop conn) ∷ [])

unfoldable pub remove_in_loop : Conn → TcpServer → Result Done
remove_in_loop conn s = do
  let (n, rest) = erase_connection conn.name s.connections
  assert (n == 1)
  ok (record s { connections = rest }, queue_in_loop conn.io_loop (connect_destroyed conn) ∷ [])

-- The destructor's loop.
unfoldable pub destroy_connections : List Conn → List Effect
destroy_connections [] = []
destroy_connections (c ∷ cs) = run_in_loop c.io_loop (connect_destroyed c) ∷ destroy_connections cs

unfoldable pub destroy : TcpServer → List Effect
unfolding destroy_connections
destroy s = destroy_connections s.connections
