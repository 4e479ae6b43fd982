-- ===== src/TcpServer/System.antt =====
-- A server of net/TcpServer.cc together with the connections of net/TcpConnection.cc that it made and
-- the tasks that wait in the loops.
pub mod Invariant
pub mod Counts
pub mod Removal
pub mod Steps
pub mod Moves
pub mod Events
pub mod Protocol
pub mod Drain
mod Examples
use ouge_net_lib.Common.{
  ◌>>=◌, ◌>>◌, ℕ, zero, suc, Option, none, some, List, [], ◌∷◌, ◌++◌, if◌then◌else◌, Result, ok,
  err, dangling_pointer,
}
use ouge_net_lib.Acceptor.{listen}
use ouge_net_lib.TcpConnection.{Connection, connect_established, connect_destroyed, destroy}
use ouge_net_lib.TcpConnection.Closing.{Event, act, closings}
use ouge_net_lib.TcpServer.{
  Conn, TcpServer, Task, listen_acceptor, connect_established as establish,
  connect_destroyed as finish, remove_connection_in_loop, Effect, run_in_loop, queue_in_loop,
  thread_init, is_text, conn_name, new_connection, remove_connection, remove_in_loop,
}

-- The server keeps the loop of a connection by its address, the connection itself by its name.
pub record System : Type 0 where
  pub server : TcpServer
  pub conn_of : List ℕ → Option Connection  -- none before it is made
  pub tasks : List Task  -- of all the loops

-- A server that has no connection yet, with what `start` gives its loop.
abbrev pub new_system : TcpServer → System
new_system s = record { server = s; conn_of = λ x. none; tasks = listen_acceptor ∷ [] }

-- The tasks among what an operation of the server does.
abbrev pub posted : List Effect → List Task
posted [] = []
posted (run_in_loop l t ∷ es) = t ∷ posted es
posted (queue_in_loop l t ∷ es) = t ∷ posted es
posted (thread_init ∷ es) = posted es

abbrev pub put : List ℕ → Connection → (List ℕ → Option Connection) → List ℕ → Option Connection
put name c conn_of x = if is_text x name then some c else conn_of x

-- A functor holds its connection, so one that is not there does not come up.
abbrev pub look : List ℕ → System → Result Connection
look name y = elim (y.conn_of name) [ some c ↦ ok c | none ↦ err dangling_pointer ]

-- A loop runs a functor.
unfoldable pub run_task : Task → System → Result System
unfolding connect_established connect_destroyed destroy remove_in_loop listen
run_task listen_acceptor y =
    ok (record y { server = record (y.server) { acceptor = (listen (y.server).acceptor).0 } })
run_task (establish conn) y = do
  c ← look conn.name y
  (d, es) ← connect_established c
  ok (record y { conn_of = put conn.name d y.conn_of })
run_task (remove_connection_in_loop conn) y = do
  (s, es) ← remove_in_loop conn y.server
  ok (record y { server = s; tasks = y.tasks ++ posted es })
run_task (finish conn) y = do
  c ← look conn.name y
  (d, es) ← connect_destroyed c
  destroy d  -- of the last pointer, after the functor
  ok (record y { conn_of = put conn.name d y.conn_of })

-- The acceptor gives the server a socket; `fresh` is the new connection.
unfoldable pub accept : ℕ → Connection → System → Result System
unfolding new_connection
accept sockfd fresh y = do
  let name = conn_name y.server.name y.server.ip_port y.server.next_conn_id
  (s, es) ← new_connection sockfd y.server
  ok (record { server = s; conn_of = put name fresh y.conn_of; tasks = y.tasks ++ posted es })

-- `closeCallback_` is `TcpServer::removeConnection`.
unfoldable pub close_callbacks : ℕ → Conn → TcpServer → List Task
unfolding remove_connection
close_callbacks zero conn s = []
close_callbacks (suc n) conn s = posted (remove_connection conn s).1 ++ close_callbacks n conn s

-- An event of a connection.
unfoldable pub react : Event → Conn → System → Result System
unfolding close_callbacks
react e conn y = do
  c ← look conn.name y
  (d, es) ← act e c
  ok (record y {
    conn_of = put conn.name d y.conn_of;
    tasks = y.tasks ++ close_callbacks (closings es) conn y.server;
  })

-- Some task of a list, and the others.
pub data Picks (t : Task) : List Task → List Task → Type 0 where
  first : {ts : List Task} → Picks t (t ∷ ts) ts
  later : {u : Task} {ts rest : List Task} → Picks t ts rest → Picks t (u ∷ ts) (u ∷ rest)
