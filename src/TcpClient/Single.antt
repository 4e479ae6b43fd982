-- ===== src/TcpClient/Single.antt =====
-- A client and its connector: a socket is handed over only while there is no connection.
use ouge_net_lib.Common.{
  ℕ, suc, ◌+◌, ◌^◌, ◌≡◌, refl, ap, Bool, true, false, ◌⊎◌, inl, inr, Bool-cases, Option, none, some,
  List, [], ◌∷◌, ◌++◌, ltb, arith, Result, ok, Ensures, Ensures-ok, Result-cases,
}
use ouge_net_lib.Connector.{
  State, connected, Connector, Effect as ConnectorEffect, Done as ConnectorDone, hand_over,
  start_in_loop, stop_in_loop, handle_error, handle_write, reset_channel,
}
use ouge_net_lib.TcpClient.{
  Conn, TcpClient, Effect, Done, connect_established, queue_connect_destroyed, by_connectors,
  new_conn, conn_name, new_connection, deliver,
}

abbrev pub is_connected : State → Bool
is_connected connected = true
is_connected _ = false

abbrev pub is_some : Option Conn → Bool
is_some none = false
is_some (some conn) = true

abbrev pub given : Option Conn → List ℕ
given none = []
given (some conn) = conn.address ∷ []

-- The connections that were established, and those whose end was queued, by their addresses.
abbrev pub established : List Effect → List ℕ
established [] = []
established (connect_established conn ∷ es) = conn.address ∷ established es
established (e ∷ es) = established es

abbrev pub destroyed : List Effect → List ℕ
destroyed [] = []
destroyed (queue_connect_destroyed conn ∷ es) = conn.address ∷ destroyed es
destroyed (e ∷ es) = destroyed es

-- While there is a connection, the connector is connected and the connection is of the client's loop.
abbrev pub IsAt : ℕ → Option Conn → Type 0
IsAt loop none = Unit {0}
IsAt loop (some conn) = conn.io_loop ≡ loop

pub record IsValid (c : TcpClient) : Type 0 where
  pub single : is_some c.connection ≡ true → is_connected c.connector.state ≡ true
  pub at_loop : IsAt c.loop c.connection

pub record Keeps (c : TcpClient) (r : Done) : Type 0 where
  pub valid : IsValid r.0
  pub balance : given c.connection ++ established r.1 ≡ destroyed r.1 ++ given r.0.connection

-- How many sockets are handed over.
abbrev pub handed : List ConnectorEffect → ℕ
handed [] = 0
handed (hand_over fd ∷ es) = suc (handed es)
handed (e ∷ es) = handed es

-- A connector that is connected hands nothing over and stays so; one that hands a socket over is then
-- connected.
abbrev pub Offers : Connector → ConnectorDone → Type 0
Offers k d =
    ((handed d.1 ≡ 0) × (is_connected k.state ≡ true → is_connected d.0.state ≡ true))
    ⊎ ((handed d.1 ≡ 1) × (is_connected k.state ≡ false) × (is_connected d.0.state ≡ true))

-- The callbacks of a connector in its loop, each with what the system calls return.
pub data Callback : Type 0 where
  stops_in_loop errs resets : Callback
  starts_in_loop : ℕ → ℕ → Callback
  writable : ℕ → Bool → Callback

abbrev pub call : Callback → Connector → Result ConnectorDone
call stops_in_loop k = stop_in_loop k
call errs k = handle_error k
call resets k = ok (reset_channel k, [])
call (starts_in_loop fd errno) k = start_in_loop fd errno k
call (writable error self_connect) k = handle_write error self_connect k

pub call-Offers : (b : Callback) (k : Connector) → Ensures (call b k) (Offers k)
unfolding stop_in_loop handle_error handle_write start_in_loop reset_channel
call-Offers stops_in_loop k = ground arith
call-Offers errs k = ground arith
call-Offers resets k = ground arith
call-Offers (starts_in_loop fd errno) k = ground arith
call-Offers (writable error self_connect) k = ground arith

pub quiet_connectors :
    (es : List ConnectorEffect)
    → (established (by_connectors es) ≡ []) × (destroyed (by_connectors es) ≡ [])
quiet_connectors [] = (refl, refl)
quiet_connectors (e ∷ es) = quiet_connectors es

pub deliver_none :
    (address : ℕ) (peer : List ℕ) (es : List ConnectorEffect) (c : TcpClient)
    → handed es ≡ 0
    → deliver address peer es c ≡ ok (c, by_connectors es)
unfolding deliver
deliver_none address peer [] c h = refl
deliver_none address peer (e ∷ es) c h = ground (arith, h, deliver_none address peer es c)

-- What a delivery of one socket leaves.
abbrev pub Delivered : ℕ → TcpClient → Done → Type 0
Delivered address c r =
    (given (r.0.connection) ≡ address ∷ [])
    × (r.0.connector ≡ c.connector)
    × IsAt r.0.loop r.0.connection
    × (established r.1 ≡ address ∷ [])
    × (destroyed r.1 ≡ [])

pub deliver_one :
    (address : ℕ) (peer : List ℕ) (es : List ConnectorEffect) (c : TcpClient)
    → handed es ≡ 1
    → Ensures (deliver address peer es c) (Delivered address c)
unfolding deliver new_connection
deliver_one address peer [] c h = absurd (omega arith)
deliver_one address peer (hand_over fd ∷ es) c h =
    elim (Bool-cases (ltb (c.next_conn_id + 1) (2 ^ 31))) [
      | inr full ↦ rw full tt
      | inl room ↦
          let d : TcpClient = record c {
            next_conn_id = c.next_conn_id + 1;
            connection = some (new_conn address (conn_name c.name peer c.next_conn_id) fd c.loop);
          } in
          let rest = deliver_none address peer es d (omega (arith, h)) in
          rw (room, rest)
            (refl, refl, refl, ap (◌∷◌ address) (quiet_connectors es).0, (quiet_connectors es).1)
    ]
deliver_one address peer (e ∷ es) c h = elim (Result-cases (deliver address peer es c)) [
  | inl got ↦
      let (r, done) = got in
      let first =
        Ensures-ok (deliver address peer es c) (Delivered address c) r
          (deliver_one address peer es c h) done in
      rw done first
  | inr failed ↦ rw failed.1 tt
]
