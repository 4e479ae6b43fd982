-- ===== src/TcpClient/System/Events.antt =====
-- An event of a client's connection keeps the system sound.
use ouge_net_lib.Common.{
  ℕ, ◌&&◌, ◌≡◌, refl, sym, ap, ◌∙◌, subst, true, false, inl, inr, Option, none, some, List, [], ◌∷◌,
  ◌++◌, ◌==◌, arith, Bool-cases, Result, ok, err, ◌>>=◌, Ensures, Ensures-ok, Result-cases,
}
use ouge_net_lib.TcpConnection
use ouge_net_lib.TcpConnection.{
  connecting, Connection, Effect as ConnectionEffect, is_open, connect_established as establish,
  shutdown as shut,
}
use ouge_net_lib.TcpConnection.Closing.{
  Event, act, StaysOrCloses, is_own, closings, act-StaysOrCloses, act_late, is_late, may_come,
  IsDown,
}
use ouge_net_lib.Connector.{Effect as ConnectorEffect}
use ouge_net_lib.TcpClient.{Conn, TcpClient, Done, by_connectors}
use ouge_net_lib.TcpClient.Single.{IsValid, Keeps}
use ouge_net_lib.TcpClient.Runs.{closes, perform-Keeps}
use ouge_net_lib.TcpClient.System.{close, react, System, put, look, do_effect, do_effects}
use ouge_net_lib.TcpClient.System.Steps.{same_one, do_effects_quiet}
use ouge_net_lib.Connector.{restart}
use ouge_net_lib.TcpClient.{queue_connect_destroyed, is_connection, remove_connection}
use ouge_net_lib.TcpClient.System.Invariant.{
  open_stage, one_if, current, ending-append, Stage, up, removed, Suits, At, Follows, IsSound,
  IsSound-one, put_other, put_same,
}

-- What the removal of a connection does outside.
abbrev Ends : Conn → Done → Type 0
Ends conn r =
    (r.0.connection ≡ none)
    × ((es : List ConnectorEffect) × (r.1 ≡ queue_connect_destroyed conn ∷ by_connectors es))

remove_connection-Ends :
    (fd errno : ℕ) (conn : Conn) (c : TcpClient)
    → Ensures (remove_connection fd errno conn c) (Ends conn)
unfolding remove_connection
remove_connection-Ends fd errno conn c = elim (Bool-cases (c.loop == conn.io_loop)) [
  | inr foreign ↦ rw foreign tt
  | inl home ↦ elim (Bool-cases (is_connection c.connection conn)) [
    | inr other ↦ rw (home, other) tt
    | inl same ↦ elim (Bool-cases (c.retry && c.connect)) [
      | inr off ↦ rw (home, same, off) (refl, ([], refl))
      | inl on ↦ elim (Result-cases (restart fd errno c.connector)) [
        | inr failed ↦ rw (home, same, on, failed.1) tt
        | inl (d, done) ↦ rw (home, same, on, done) (refl, (d.1, refl))
      ]
    ]
  ]
]

current_other : (a n : ℕ) (o : Option Conn) → a == n ≡ false → current n o ≡ 1 → current a o ≡ 0
current_other a n none other h = refl
current_other a n (some conn) other h = ground (arith, other, h)

-- The connection is closed, and the client has none.
closed-IsSound :
    (conn : Conn) (fresh d : Connection) (r : Done) (y : System)
    → IsSound y
    → IsValid r.0
    → Ends conn r
    → At up conn.address y
    → IsDown d
    → Ensures
        (do_effects fresh r.1
          (record y { client = r.0; conn_of = put conn.address (some d) y.conn_of }))
        IsSound
unfolding do_effect
closed-IsSound conn fresh d r y v valid (none_now, (es, did)) (cur, fin, suits) down =
    let n = conn.address in
    let z : System = record {
      client = r.0;
      conn_of = put n (some d) y.conn_of;
      ends = y.ends ++ conn ∷ [];
    } in
    rw (did, do_effects_quiet fresh es z)
      (IsSound-one n y z v valid
        (λ a other st h. (
          ap (current a) none_now ∙ sym (current_other a n y.client.connection other cur) ∙ h.0,
          omega (arith, h.1, ending-append a y.ends (conn ∷ []), ap one_if other),
          subst (Suits st) (sym (put_other a n (some d) y.conn_of other)) h.2,
        ))
        (record {
          stage = removed;
          at = (
            ap (current n) none_now,
            omega (arith, fin, ending-append n y.ends (conn ∷ []), same_one n),
            subst (Suits removed) (sym (put_same n (some d) y.conn_of)) down,
          );
        }))

-- The new state of a connection that stays where it is.
stays-IsSound :
    (n : ℕ) (d : Connection) (st : Stage) (y : System)
    → IsSound y
    → At st n y
    → Suits st (some d)
    → IsSound (record y { conn_of = put n (some d) y.conn_of })
stays-IsSound n d st y v h suits =
    IsSound-one n y (record y { conn_of = put n (some d) y.conn_of }) v v.valid
      (λ a other st' k.
        (k.0, k.1, subst (Suits st') (sym (put_other a n (some d) y.conn_of other)) k.2))
      (record {
        stage = st;
        at = (h.0, h.1, subst (Suits st) (sym (put_same n (some d) y.conn_of)) suits);
      })

pass_on : (r : Result System) → Ensures r IsSound → Ensures (r >>= λ z. ok z) IsSound
pass_on (ok z) h = h
pass_on (err fault) h = tt

-- What follows the event itself.
after_act :
    (e : Event) (fd errno : ℕ) (conn : Conn) (fresh c : Connection) (y : System)
    (d : TcpConnection.Done)
    → IsSound y
    → y.conn_of conn.address ≡ some c
    → may_come c.state e ≡ true
    → act e c ≡ ok d
    → Ensures
        (close
          (closings d.1)
          fd
          errno
          conn
          fresh
          (record y { conn_of = put conn.address (some d.0) y.conn_of }))
        IsSound
after_act e fd errno conn fresh c y d v there may done = elim (Bool-cases (is_open c.state)) [
  | inr down ↦
      let (same, quiet) =
        Ensures-ok (act e c) (λ d. (d.0 ≡ c) × (closings d.1 ≡ 0)) d
          (act_late e c down (late_comes down)) done in
      rw quiet (
        stays-IsSound n d.0 w.stage y v w.at
          (subst (Suits w.stage) (there ∙ ap some (sym same)) w.at.2))
  | inl is_up ↦
      let st = open_stage w.stage c (subst (Suits w.stage) there w.at.2) is_up in
      let h = subst (λ s. At s n y) st w.at in
      elim (Ensures-ok (act e c) StaysOrCloses d (act-StaysOrCloses e c is_up (own_comes is_up))
        done) [
          | inl (quiet, still) ↦ rw quiet (stays-IsSound n d.0 up y v h still)
          | inr (once, down, idle) ↦ rw once (removal h (down, idle))
        ]
]
  where
    n : ℕ
    n = conn.address

    w : Follows n y
    w = v.follows n

    late_comes : is_open c.state ≡ false → is_late c.state e ≡ true
    late_comes down = ground (arith, may, down)

    own_comes : is_open c.state ≡ true → is_own e ≡ true
    own_comes is_up = ground (arith, may, is_up)

    removal :
        At up n y
        → IsDown d.0
        → Ensures
            (close 1 fd errno conn fresh (record y { conn_of = put n (some d.0) y.conn_of }))
            IsSound
    removal h down = elim (Result-cases (remove_connection fd errno conn y.client)) [
      | inr failed ↦ rw (failed.1) tt
      | inl (r, gone) ↦
          let valid =
            Ensures-ok (remove_connection fd errno conn y.client) (Keeps y.client) r
              (perform-Keeps (closes fd errno conn) y.client v.valid) gone in
          let z : System = record y { client = r.0; conn_of = put n (some d.0) y.conn_of } in
          let sound =
            closed-IsSound conn fresh d.0 r y v valid.valid
              (Ensures-ok (remove_connection fd errno conn y.client) (Ends conn) r
                (remove_connection-Ends fd errno conn y.client) gone)
              h down in
          rw gone (pass_on (do_effects fresh r.1 z) sound)
    ]

pub react-IsSound :
    (e : Event) (fd errno : ℕ) (conn : Conn) (fresh c : Connection) (y : System)
    → IsSound y
    → y.conn_of conn.address ≡ some c
    → may_come c.state e ≡ true
    → Ensures (react e fd errno conn fresh y) IsSound
unfolding react
react-IsSound e fd errno conn fresh c y v there may =
    let found : look conn.address y ≡ ok c = ground (arith, there) in
    elim (Result-cases (act e c)) [
      | inr failed ↦ rw (found, failed.1) tt
      | inl (d, done) ↦ rw (found, done) (after_act e fd errno conn fresh c y d v there may done)
    ]
