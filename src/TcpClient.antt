-- ===== src/TcpClient.antt =====
-- net/TcpClient.h and net/TcpClient.cc: one connection at a time, made by a connector. The connection
-- object lives at `address`; what the system calls give is an argument. All but `connect`,
-- `disconnect` and `stop` run in the loop's thread.
pub mod Single
pub mod Runs
pub mod System
mod Examples
use ouge_net_lib.Common.{
  ℕ, ◌+◌, ◌^◌, Bool, true, false, ◌&&◌, Option, none, some, List, [], ◌∷◌, ◌++◌, ltb, ◌==◌,
  if◌then◌else◌, Result, ok, signed_overflow, guard, ◌>>=◌, ◌>>◌, assert,
}
use ouge_net_lib.Common.Decimal.{int_digits, print_into}
use ouge_net_lib.Connector.{
  Connector, Effect as ConnectorEffect, hand_over, new_connector, start, stop as stop_connector,
  restart,
}

pub record Conn : Type 0 where
  pub address : ℕ
  pub name : List ℕ
  pub sockfd : ℕ
  pub io_loop : ℕ

pub record TcpClient : Type 0 where
  pub loop : ℕ
  pub connector : Connector
  pub name : List ℕ
  pub retry : Bool
  pub connect : Bool
  pub next_conn_id : ℕ
  pub connection : Option Conn

-- What an operation does outside.
pub data Effect : Type 0 where
  by_connector : ConnectorEffect → Effect
  connect_established shutdown force_close : Conn → Effect
  queue_connect_destroyed : Conn → Effect
  run_set_close_callback : Conn → Effect
  remove_connector_later : Effect  -- by a timer, after a second

abbrev pub Done : Type 0
Done = TcpClient × List Effect

unfoldable pub new_client : ℕ → List ℕ → TcpClient
new_client loop name = record {
  loop = loop;
  connector = new_connector;
  name = name;
  retry = false;
  connect = true;
  next_conn_id = 1;
  connection = none;
}

unfoldable pub enable_retry : TcpClient → TcpClient
enable_retry c = record c { retry = true }

abbrev pub by_connectors : List ConnectorEffect → List Effect
by_connectors [] = []
by_connectors (e ∷ es) = by_connector e ∷ by_connectors es

-- `connect ()`
unfoldable pub begin : TcpClient → Done
begin c =
    let (k, es) = start c.connector in
    (record c { connect = true; connector = k }, by_connectors es)

abbrev pub shutdowns : Option Conn → List Effect
shutdowns none = []
shutdowns (some conn) = shutdown conn ∷ []

unfoldable pub disconnect : TcpClient → Done
disconnect c = (record c { connect = false }, shutdowns c.connection)

unfoldable pub stop : TcpClient → Done
stop c =
    let (k, es) = stop_connector c.connector in
    (record c { connect = false; connector = k }, by_connectors es)

-- `name_` and ":%s#%d", in an array of 32 bytes; `peer` is the address of the other side.
unfoldable pub conn_name : List ℕ → List ℕ → ℕ → List ℕ
conn_name name peer id = name ++ print_into 32 (58 ∷ (peer ++ 35 ∷ int_digits id))

abbrev pub new_conn : ℕ → List ℕ → ℕ → ℕ → Conn
new_conn address name sockfd loop = record {
  address = address;
  name = name;
  sockfd = sockfd;
  io_loop = loop;
}

unfoldable pub new_connection : ℕ → List ℕ → ℕ → TcpClient → Result Done
unfolding conn_name
new_connection address peer sockfd c = do
  guard (ltb (c.next_conn_id + 1) (2 ^ 31)) signed_overflow
  let conn = new_conn address (conn_name c.name peer c.next_conn_id) sockfd c.loop
  ok (
    record c { next_conn_id = c.next_conn_id + 1; connection = some conn },
    connect_established conn ∷ [],
  )

-- `connection_ == conn`
abbrev pub is_connection : Option Conn → Conn → Bool
is_connection none conn = false
is_connection (some d) conn = d.address == conn.address

-- `sockfd` and `errno` are those of the attempt that `restart` makes.
unfoldable pub remove_connection : ℕ → ℕ → Conn → TcpClient → Result Done
remove_connection sockfd errno conn c = do
  assert (c.loop == conn.io_loop)
  assert (is_connection c.connection conn)
  (if c.retry && c.connect
      then (do
        (k, es) ← restart sockfd errno c.connector
        ok (
          record c { connection = none; connector = k },
          queue_connect_destroyed conn ∷ by_connectors es,
        ))
      else ok (record c { connection = none }, queue_connect_destroyed conn ∷ []))

-- The destructor; `unique` says that nobody else holds the connection.
abbrev pub destroy_with : Bool → Option Conn → TcpClient → Result (List Effect)
destroy_with unique none c =
    ok (by_connectors (stop_connector c.connector).1 ++ remove_connector_later ∷ [])
destroy_with unique (some conn) c = do
  assert (c.loop == conn.io_loop)
  ok (run_set_close_callback conn ∷ (if unique then force_close conn ∷ [] else []))

unfoldable pub destroy : Bool → TcpClient → Result (List Effect)
destroy unique c = destroy_with unique c.connection c

-- The connector's operations call `newConnection` where they hand a socket over.
unfoldable pub deliver : ℕ → List ℕ → List ConnectorEffect → TcpClient → Result Done
unfolding new_connection
deliver address peer [] c = ok (c, [])
deliver address peer (e ∷ es) c = do
  (d, fs) ← elim e [ hand_over fd ↦ new_connection address peer fd c | _ ↦ ok (c, []) ]
  (r, gs) ← deliver address peer es d
  ok (r, by_connector e ∷ (fs ++ gs))
