-- ===== src/TcpClient/System/Calls.antt =====
-- The operations of a client and its connector keep the system sound.
use ouge_net_lib.Common.{
  ℕ, ◌≡◌, refl, sym, ap, ◌∙◌, subst, true, false, inl, inr, Option, none, some, List, [], ◌==◌,
  arith, ok, Ensures, Ensures-ok, Result-cases,
}
use ouge_net_lib.TcpConnection.{connecting, Connection, is_open, shutdown as shut}
use ouge_net_lib.TcpConnection.Closing.{establish_succeeds}
use ouge_net_lib.Connector.{Connector, Effect as ConnectorEffect}
use ouge_net_lib.TcpClient.{Conn, TcpClient, Done, by_connectors, shutdowns, deliver, disconnect}
use ouge_net_lib.TcpClient.Single.{
  IsValid, Offers, Callback, call, call-Offers, deliver_none, Keeps,
}
use ouge_net_lib.TcpClient.Runs.{
  Operation, begins, disconnects, stops, enables_retry, calls, closes, perform, perform-Keeps,
}
use ouge_net_lib.TcpClient.System.{System, put, look, do_effect, do_effects, operate}
use ouge_net_lib.TcpClient.System.Steps.{same_one, Made, deliver-Made, do_effects_quiet}
use ouge_net_lib.Connector.{start as start_connector, stop as stop_connector}
use ouge_net_lib.TcpClient.{begin, stop, enable_retry}
use ouge_net_lib.TcpClient.Single.{is_some}
use ouge_net_lib.TcpClient.System.Invariant.{
  one_if, current, Stage, absent, up, removed, Suits, At, IsSound, IsSound-one, current-up,
  put_other, put_same,
}

-- What may be called: a new connection takes an address that is free, and the end of a connection is
-- its own event.
abbrev pub IsFor : Operation → System → Type 0
IsFor (calls b address peer) y = y.conn_of address ≡ none
IsFor (closes fd errno conn) y = ⊥
IsFor _ y = Unit {0}

quiet-IsSound :
    (c : TcpClient) (y : System)
    → IsSound y
    → IsValid c
    → c.connection ≡ y.client.connection
    → IsSound (record y { client = c })
quiet-IsSound c y v valid same = record {
  valid = valid;
  follows = λ a.
      let w = v.follows a in
      record { stage = w.stage; at = (ap (current a) same ∙ w.at.0, w.at.1, w.at.2) };
}

quiet_step :
    (o : Operation) (c : TcpClient) (es : List ConnectorEffect) (fresh : Connection) (y : System)
    → IsSound y
    → perform o y.client ≡ ok (c, by_connectors es)
    → c.connection ≡ y.client.connection
    → Ensures (operate o fresh y) IsSound
unfolding operate
quiet_step o c es fresh y v done same =
    let valid =
      Ensures-ok (perform o y.client) (Keeps y.client) (c, by_connectors es)
        (perform-Keeps o y.client v.valid) done in
    rw (done, do_effects_quiet fresh es (record y { client = c }))
      (quiet-IsSound c y v valid.valid same)

shut_open : (c : Connection) → is_open c.state ≡ true → is_open (shut c).0.state ≡ true
unfolding shut
shut_open c is_up = ground (arith, is_up)

up_there :
    (o : Option Connection)
    → Suits up o
    → (c : Connection) × (o ≡ some c) × (is_open c.state ≡ true)
up_there (some c) s = (c, refl, s)
up_there none s = absurd s

-- `disconnect` shuts the connection down that is up.
disconnects-IsSound :
    (fresh : Connection) (y : System) → IsSound y → Ensures (operate disconnects fresh y) IsSound
unfolding operate disconnect do_effect
disconnects-IsSound fresh y v = by_connection y.client.connection refl
  where
    off : TcpClient
    off = record (y.client) { connect = false }

    off-IsValid : IsValid off
    off-IsValid = record { single = v.valid.single; at_loop = v.valid.at_loop }

    by_connection :
        (o : Option Conn)
        → y.client.connection ≡ o
        → Ensures (do_effects fresh (shutdowns o) (record y { client = off })) IsSound
    by_connection none e = quiet-IsSound off y v off-IsValid refl
    by_connection (some conn) e =
        let n = conn.address in
        let w = v.follows n in
        let st : w.stage ≡ up =
          current-up w.stage (omega (arith, ap (current n) e, same_one n, w.at.0)) in
        let (cur, fin, suits) = subst (λ s. At s n y) st w.at in
        let (c, there, is_up) = up_there (y.conn_of n) suits in
        let found : look n (record y { client = off }) ≡ ok c = ground (arith, there) in
        rw found (
          IsSound-one n y (record y { client = off; conn_of = put n (some (shut c).0) y.conn_of }) v
            off-IsValid
            (λ a other st' h. (
              h.0,
              h.1,
              subst (Suits st') (sym (put_other a n (some (shut c).0) y.conn_of other)) h.2,
            ))
            (record {
              stage = up;
              at = (
                cur,
                fin,
                subst (Suits up) (sym (put_same n (some (shut c).0) y.conn_of)) (shut_open c is_up),
              );
            }))

-- A socket that is handed over, while there is no connection, to a free address.
deliver-IsSound :
    (address : ℕ) (fresh d : Connection) (r : Done) (y : System)
    → IsSound y
    → IsValid r.0
    → is_some y.client.connection ≡ false
    → y.conn_of address ≡ none
    → is_open d.state ≡ true
    → Made address fresh d r
    → Ensures (do_effects fresh r.1 (record y { client = r.0 })) IsSound
deliver-IsSound address fresh d r y v valid none_yet free is_up (conn, there, at, did) =
    let none_before : (a : ℕ) → current a y.client.connection ≡ 0 =
      λ a. not_current a y.client.connection none_yet in
    let w = v.follows address in
    let st : w.stage ≡ absent = free_stage w.stage (subst (Suits w.stage) free w.at.2) in
    let (cur, fin, suits) = subst (λ s. At s address y) st w.at in
    let z : System = record y { client = r.0; conn_of = put address (some d) y.conn_of } in
    subst (λ x. Ensures x IsSound) (sym (did (record y { client = r.0 })))
      (IsSound-one address y z v valid
        (λ a other st' h. (
          ap (current a) there
              ∙ ap (λ n. one_if (a == n)) at
              ∙ ap one_if other
              ∙ sym (none_before a)
              ∙ h.0,
          h.1,
          subst (Suits st') (sym (put_other a address (some d) y.conn_of other)) h.2,
        ))
        (record {
          stage = up;
          at = (
            ap (current address) there ∙ ap (λ n. one_if (address == n)) at ∙ same_one address,
            fin,
            subst (Suits up) (sym (put_same address (some d) y.conn_of)) is_up,
          );
        }))
  where
    not_current : (a : ℕ) (o : Option Conn) → is_some o ≡ false → current a o ≡ 0
    not_current a none h = refl
    not_current a (some conn) h = absurd (ground (arith, h))

    free_stage : (st : Stage) → Suits st none → st ≡ absent
    free_stage absent s = refl
    free_stage up s = absurd s
    free_stage removed s = absurd s

calls-IsSound :
    (b : Callback) (address : ℕ) (peer : List ℕ) (fresh : Connection) (y : System)
    → IsSound y
    → fresh.state ≡ connecting
    → y.conn_of address ≡ none
    → Ensures (operate (calls b address peer) fresh y) IsSound
unfolding operate
calls-IsSound b address peer fresh y v new free = elim (Result-cases (call b y.client.connector)) [
  | inr failed ↦ rw (failed.1) tt
  | inl ((k, es), e) ↦ after_call k es e (
      Ensures-ok (call b y.client.connector) (Offers y.client.connector) (k, es)
        (call-Offers b y.client.connector) e)
]
  where
    after_call :
        (k : Connector) (es : List ConnectorEffect)
        → call b y.client.connector ≡ ok (k, es)
        → Offers y.client.connector (k, es)
        → Ensures (operate (calls b address peer) fresh y) IsSound
    after_call k es e (inl (none_handed, stays)) =
        let c : TcpClient = record (y.client) { connector = k } in
        let done = deliver_none address peer es c none_handed in
        quiet_step (calls b address peer) c es fresh y v (rw e done) refl
    after_call k es e (inr (one, down, connected)) =
        let c : TcpClient = record (y.client) { connector = k } in
        elim (Result-cases (deliver address peer es c)) [
          | inr failed ↦ rw (e, failed.1) tt
          | inl (r, done) ↦
              let (d, is_up, (fx, made)) = establish_succeeds fresh new in
              let how =
                Ensures-ok (deliver address peer es c) (Made address fresh d) r
                  (deliver-Made address peer es c fresh d fx one made) done in
              let performed : perform (calls b address peer) y.client ≡ ok r = rw e done in
              let valid =
                Ensures-ok (perform (calls b address peer) y.client) (Keeps y.client) r
                  (perform-Keeps (calls b address peer) y.client v.valid) performed in
              rw (e, done)
                (deliver-IsSound address fresh d r y v valid.valid
                  (ground (arith, v.valid.single, down)) free is_up how)
        ]

-- Every call of the user and every callback of the connector.
pub operate-IsSound :
    (o : Operation) (fresh : Connection) (y : System)
    → IsSound y
    → fresh.state ≡ connecting
    → IsFor o y
    → Ensures (operate o fresh y) IsSound
unfolding begin stop enable_retry start_connector stop_connector
operate-IsSound begins fresh y v new may =
    quiet_step begins (begin y.client).0 (start_connector y.client.connector).1 fresh y v refl refl
operate-IsSound disconnects fresh y v new may = disconnects-IsSound fresh y v
operate-IsSound stops fresh y v new may =
    quiet_step stops (stop y.client).0 (stop_connector y.client.connector).1 fresh y v refl refl
operate-IsSound enables_retry fresh y v new may =
    quiet_step enables_retry (enable_retry y.client) [] fresh y v refl refl
operate-IsSound (calls b address peer) fresh y v new may =
    calls-IsSound b address peer fresh y v new may
operate-IsSound (closes fd errno conn) fresh y v new may = absurd may
