-- ===== src/TcpClient/System.antt =====
-- A client of net/TcpClient.cc together with the connections of net/TcpConnection.cc that it made, by
-- their addresses, and the ends of connections that wait in its loop.
pub mod Invariant
pub mod Steps
pub mod Calls
pub mod Events
pub mod Protocol
mod Examples
use ouge_net_lib.Common.{
  ℕ, zero, suc, Option, none, some, List, [], ◌∷◌, ◌++◌, ◌==◌, if◌then◌else◌, Result, ok, err,
  dangling_pointer, ◌>>=◌, ◌>>◌,
}
use ouge_net_lib.TcpConnection.{
  Connection, connect_established as establish, connect_destroyed as finish, shutdown as shut,
  destroy,
}
use ouge_net_lib.TcpConnection.Closing.{Event, act, closings}
use ouge_net_lib.TcpClient.{
  Conn, TcpClient, Effect, connect_established, shutdown, queue_connect_destroyed,
  remove_connection,
}
use ouge_net_lib.TcpClient.Runs.{Operation, perform}

pub record System : Type 0 where
  pub client : TcpClient
  pub conn_of : ℕ → Option Connection  -- none where there is no connection
  pub ends : List Conn  -- whose `connectDestroyed` waits

abbrev pub new_system : TcpClient → System
new_system c = record { client = c; conn_of = λ a. none; ends = [] }

abbrev pub put : ℕ → Option Connection → (ℕ → Option Connection) → ℕ → Option Connection
put address o conn_of a = if a == address then o else conn_of a

abbrev pub look : ℕ → System → Result Connection
look address y = elim (y.conn_of address) [ some c ↦ ok c | none ↦ err dangling_pointer ]

-- What an effect of the client does to its connections; `fresh` is the one that `newConnection` makes.
unfoldable pub do_effect : Connection → Effect → System → Result System
unfolding establish shut
do_effect fresh (connect_established conn) y = do
  (d, es) ← establish fresh
  ok (record y { conn_of = put conn.address (some d) y.conn_of })
do_effect fresh (shutdown conn) y = do
  c ← look conn.address y
  ok (record y { conn_of = put conn.address (some (shut c).0) y.conn_of })
do_effect fresh (queue_connect_destroyed conn) y = ok (record y { ends = y.ends ++ conn ∷ [] })
do_effect fresh e y = ok y

abbrev pub do_effects : Connection → List Effect → System → Result System
do_effects fresh [] y = ok y
do_effects fresh (e ∷ es) y = do_effect fresh e y >>= λ z. do_effects fresh es z

-- A call of the user, or a callback of the connector.
unfoldable pub operate : Operation → Connection → System → Result System
operate o fresh y = do (c, es) ← perform o y.client; do_effects fresh es (record y { client = c })

-- `closeCallback_` is `TcpClient::removeConnection`; `sockfd` and `errno` are those of its `restart`.
abbrev pub close : ℕ → ℕ → ℕ → Conn → Connection → System → Result System
close zero sockfd errno conn fresh y = ok y
close (suc n) sockfd errno conn fresh y = do
  (c, es) ← remove_connection sockfd errno conn y.client
  z ← do_effects fresh es (record y { client = c })
  close n sockfd errno conn fresh z

-- An event of a connection.
unfoldable pub react : Event → ℕ → ℕ → Conn → Connection → System → Result System
react e sockfd errno conn fresh y = do
  c ← look conn.address y
  (d, es) ← act e c
  close (closings es) sockfd errno conn fresh
      (record y { conn_of = put conn.address (some d) y.conn_of })

-- The functor of `connectDestroyed`, which holds the last pointer.
unfoldable pub run_end : Conn → System → Result System
unfolding finish destroy
run_end conn y = do
  c ← look conn.address y
  (d, es) ← finish c
  destroy d
  ok (record y { conn_of = put conn.address none y.conn_of })

-- Some end that waits, and the others.
pub data Picks (c : Conn) : List Conn → List Conn → Type 0 where
  first : {cs : List Conn} → Picks c (c ∷ cs) cs
  later : {d : Conn} {cs rest : List Conn} → Picks c cs rest → Picks c (d ∷ cs) (d ∷ rest)
