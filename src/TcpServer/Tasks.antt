-- ===== src/TcpServer/Tasks.antt =====
-- The tasks that a server gives to the loops, counted, and what its operations keep.
use ouge_net_lib.Common.{ℕ, ◌+◌, ◌^◌, ◌≤◌, ◌<◌, ◌≡◌, ◌&&◌, List, [], ◌∷◌, length, ltb, leb, All}
use ouge_net_lib.TcpServer.{
  Conn, TcpServer, Task, listen_acceptor, connect_established, connect_destroyed,
  remove_connection_in_loop, Effect, run_in_loop, queue_in_loop, thread_init, Done, is_text,
  conn_name,
}
use ouge_net_lib.TcpServer.Connections.{one_if, live, IsDistinct}

-- The tasks of the connection of a name.
abbrev pub establishes : List ℕ → Task → ℕ
establishes x (connect_established c) = one_if (is_text x c.name)
establishes x _ = 0

abbrev pub destroys : List ℕ → Task → ℕ
destroys x (connect_destroyed c) = one_if (is_text x c.name)
destroys x _ = 0

abbrev pub total : (Task → ℕ) → List Effect → ℕ
total f [] = 0
total f (run_in_loop l t ∷ es) = f t + total f es
total f (queue_in_loop l t ∷ es) = f t + total f es
total f (thread_init ∷ es) = total f es

abbrev pub established : List ℕ → List Effect → ℕ
established x = total (establishes x)

abbrev pub destroyed : List ℕ → List Effect → ℕ
destroyed x = total (destroys x)

-- A task goes to the loop of its connection, and a removal to the server's.
abbrev pub BelongsTo : ℕ → ℕ → Task → Type 0
BelongsTo home l listen_acceptor = l ≡ home
BelongsTo home l (connect_established c) = l ≡ c.io_loop
BelongsTo home l (connect_destroyed c) = l ≡ c.io_loop
BelongsTo home l (remove_connection_in_loop c) = l ≡ home

abbrev pub IsAtHome : ℕ → List Effect → Type 0
IsAtHome home [] = Unit {0}
IsAtHome home (run_in_loop l t ∷ es) = BelongsTo home l t × IsAtHome home es
IsAtHome home (queue_in_loop l t ∷ es) = BelongsTo home l t × IsAtHome home es
IsAtHome home (thread_init ∷ es) = IsAtHome home es

-- The name of a connection comes from a number that was given out.
abbrev pub IsNumbered : List ℕ → List ℕ → ℕ → Conn → Type 0
IsNumbered name ip_port next c = (id : ℕ) × (id < next) × (c.name ≡ conn_name name ip_port id)

-- "255.255.255.255:65535" is the longest address.
pub record IsValid (s : TcpServer) : Type 0 where
  pub short : length s.ip_port ≤ 21
  pub small : s.next_conn_id < 2 ^ 31
  pub numbered : All (IsNumbered s.name s.ip_port s.next_conn_id) s.connections
  pub distinct : IsDistinct s.connections

-- What an operation keeps.
pub record Keeps (s : TcpServer) (r : Done) : Type 0 where
  pub valid : IsValid r.0
  pub balance :
      (x : List ℕ)
      → live x s.connections + established x r.1 ≡ live x r.0.connections + destroyed x r.1
  pub gives :
      (id : ℕ)
      → id < 2 ^ 31
      → established (conn_name s.name s.ip_port id) r.1
        ≡ one_if (leb s.next_conn_id id && ltb id r.0.next_conn_id)
  pub grows : s.next_conn_id ≤ r.0.next_conn_id
  pub same_name : r.0.name ≡ s.name
  pub same_ip_port : r.0.ip_port ≡ s.ip_port
  pub same_loop : r.0.loop ≡ s.loop
  pub at_home : IsAtHome s.loop r.1
