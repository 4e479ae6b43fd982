-- ===== src/TcpClient/Runs.antt =====
-- Every sequence of a client's operations: connections follow one another.
use ouge_net_lib.Common.{
  ℕ, ◌≡◌, refl, sym, ap, ◌∙◌, subst, true, false, ◌&&◌, inl, inr, Bool-cases, Option, none, some,
  List, [], ◌∷◌, ◌++◌, append-nil, append_assoc, ◌==◌, arith, Result, ok, err, assert_failed, ◌>>=◌,
  Ensures, Ensures-ok, Result-cases,
}
use ouge_net_lib.Connector.{
  Connector, Effect as ConnectorEffect, start as start_connector, stop as stop_connector, restart,
  start_in_loop,
}
use ouge_net_lib.TcpClient.{
  Conn, TcpClient, Effect, Done, queue_connect_destroyed, by_connectors, begin, disconnect, stop,
  enable_retry, is_connection, remove_connection, deliver, shutdowns,
}
use ouge_net_lib.TcpClient.Single.{
  is_connected, is_some, given, established, destroyed, IsAt, IsValid, Keeps, Offers, Callback,
  call, call-Offers, quiet_connectors, deliver_none, Delivered, deliver_one,
}

-- The calls of the user, of the connector's callbacks, with the address of a new connection and that of
-- its other side, and of a connection that closes.
pub data Operation : Type 0 where
  begins disconnects stops enables_retry : Operation
  calls : Callback → ℕ → List ℕ → Operation
  closes : ℕ → ℕ → Conn → Operation

abbrev pub perform : Operation → TcpClient → Result Done
perform begins c = ok (begin c)
perform disconnects c = ok (disconnect c)
perform stops c = ok (stop c)
perform enables_retry c = ok (enable_retry c, [])
perform (calls b address peer) c = do
  (k, es) ← call b c.connector
  deliver address peer es (record c { connector = k })
perform (closes fd errno conn) c = remove_connection fd errno conn c

user-Keeps :
    (c : TcpClient) → IsValid c → Keeps c (begin c) × Keeps c (disconnect c) × Keeps c (stop c)
unfolding begin disconnect stop start_connector stop_connector
user-Keeps c v = (
  record {
    valid = record { single = v.single; at_loop = v.at_loop };
    balance = append-nil (given c.connection);
  },
  record { valid = record { single = v.single; at_loop = v.at_loop }; balance = shut c.connection },
  record {
    valid = record { single = v.single; at_loop = v.at_loop };
    balance = append-nil (given c.connection);
  },
)
  where
    shut :
        (o : Option Conn)
        → given o ++ established (shutdowns o) ≡ destroyed (shutdowns o) ++ given o
    shut none = refl
    shut (some conn) = refl

pub not_some : (o : Option Conn) → is_some o ≡ false → given o ≡ []
not_some none h = refl
not_some (some conn) h = absurd (ground (arith, h))

-- What a callback of the connector leads to.
deliver-Keeps :
    (address : ℕ) (peer : List ℕ) (c : TcpClient) (k : Connector) (es : List ConnectorEffect)
    → IsValid c
    → Offers c.connector (k, es)
    → Ensures (deliver address peer es (record c { connector = k })) (Keeps c)
deliver-Keeps address peer c k es v (inl (none_handed, stays)) =
    let done = deliver_none address peer es (record c { connector = k }) none_handed in
    subst (λ r. Ensures r (Keeps c)) (sym done)
      (record {
        valid = record { single = λ h. stays (v.single h); at_loop = v.at_loop };
        balance =
            rw ((quiet_connectors es).0, (quiet_connectors es).1) (append-nil (given c.connection));
      })
deliver-Keeps address peer c k es v (inr (one, down, up)) =
    let none_yet : given c.connection ≡ [] =
      not_some c.connection (ground (arith, v.single, down)) in
    elim (Result-cases (deliver address peer es (record c { connector = k }))) [
      | inr failed ↦ subst (λ r. Ensures r (Keeps c)) (sym failed.1) tt
      | inl got ↦
          let (r, done) = got in
          let (here, same, home, est, des) =
            Ensures-ok (deliver address peer es (record c { connector = k }))
              (Delivered address (record c { connector = k })) r
              (deliver_one address peer es (record c { connector = k }) one) done in
          let kept : Keeps c r = record {
            valid = record {
              single = λ h. ap (λ (n : Connector). is_connected n.state) same ∙ up;
              at_loop = home;
            };
            balance = rw (none_yet, here, est, des) refl;
          } in
          subst (λ x. Ensures x (Keeps c)) (sym done) kept
    ]

given_same :
    (o : Option Conn) (conn : Conn) → is_connection o conn ≡ true → given o ≡ conn.address ∷ []
given_same none conn h = absurd (ground (arith, h))
given_same (some d) conn h = ground (arith, h)

remove_connection-Keeps :
    (fd errno : ℕ) (conn : Conn) (c : TcpClient)
    → IsValid c
    → Ensures (remove_connection fd errno conn c) (Keeps c)
unfolding remove_connection
remove_connection-Keeps fd errno conn c v = elim (Bool-cases (c.loop == conn.io_loop)) [
  | inr foreign ↦ rw foreign tt
  | inl home ↦ elim (Bool-cases (is_connection c.connection conn)) [
    | inr other ↦ rw (home, other) tt
    | inl same ↦
        let there = given_same c.connection conn same in
        let gone : (k : Connector) (es : List ConnectorEffect)
            → Keeps c (
              record c { connection = none; connector = k },
              queue_connect_destroyed conn ∷ by_connectors es,
            ) =
          λ k es. record {
            valid = record { single = λ h. absurd (ground (arith, h)); at_loop = tt };
            balance = rw (there, (quiet_connectors es).0, (quiet_connectors es).1) refl;
          } in
        elim (Bool-cases (c.retry && c.connect)) [
          | inr off ↦ rw (home, same, off) (gone c.connector [])
          | inl on ↦ elim (Result-cases (restart fd errno c.connector)) [
            | inr failed ↦ rw (home, same, on, failed.1) tt
            | inl got ↦ rw (home, same, on, got.1) (gone got.0.0 got.0.1)
          ]
        ]
  ]
]

pub perform-Keeps : (o : Operation) (c : TcpClient) → IsValid c → Ensures (perform o c) (Keeps c)
unfolding enable_retry
perform-Keeps begins c v = (user-Keeps c v).0
perform-Keeps disconnects c v = (user-Keeps c v).1
perform-Keeps stops c v = (user-Keeps c v).2
perform-Keeps enables_retry c v = record {
  valid = record { single = v.single; at_loop = v.at_loop };
  balance = append-nil (given c.connection);
}
perform-Keeps (calls b address peer) c v = elim (Result-cases (call b c.connector)) [
  | inr failed ↦ rw failed.1 tt
  | inl got ↦
      let (d, done) = got in
      rw done (
        deliver-Keeps address peer c d.0 d.1 v
          (Ensures-ok (call b c.connector) (Offers c.connector) d (call-Offers b c.connector) done))
]
perform-Keeps (closes fd errno conn) c v = remove_connection-Keeps fd errno conn c v

pub data Run (c : TcpClient) : TcpClient → List Effect → Type 0 where
  here : Run c c []
  next :
      {d d' : TcpClient} {before es : List Effect}
      → Run c d before
      → (o : Operation) → perform o d ≡ ok (d', es)
      → Run c d' (before ++ es)

established-append :
    (es fs : List Effect) → established (es ++ fs) ≡ established es ++ established fs
established-append [] fs = refl
established-append (e ∷ es) fs = ground (arith, established-append es fs)

destroyed-append : (es fs : List Effect) → destroyed (es ++ fs) ≡ destroyed es ++ destroyed fs
destroyed-append [] fs = refl
destroyed-append (e ∷ es) fs = ground (arith, destroyed-append es fs)

-- Along any operations of a well-formed client, its connector and its connections, in any order that
-- passes their `assert`s: the connection at the start and those that are established, in order, are
-- those whose end is queued and the one at the end. So there is never a second connection before the
-- end of the first is queued, and each connection ends at most once.
pub Run-single :
    {c c' : TcpClient} {es : List Effect}
    → IsValid c
    → Run c c' es
    → IsValid c' × (given c.connection ++ established es ≡ destroyed es ++ given c'.connection)
Run-single {c} v here = (v, append-nil (given c.connection))
Run-single {c} v (next {d} {d'} {before} {es} run o e) =
    let (dv, first) = Run-single v run in
    let step = Ensures-ok (perform o d) (Keeps d) (d', es) (perform-Keeps o d dv) e in
    (
      step.valid,
      ap (◌++◌ (given c.connection)) (established-append before es)
          ∙ sym (append_assoc (given c.connection) (established before) (established es))
          ∙ ap (λ xs. xs ++ established es) first
          ∙ append_assoc (destroyed before) (given d.connection) (established es)
          ∙ ap (◌++◌ (destroyed before)) step.balance
          ∙ sym (append_assoc (destroyed before) (destroyed es) (given d'.connection))
          ∙ ap (λ xs. xs ++ given d'.connection) (sym (destroyed-append before es)),
    )

-- The end of the connection of a well-formed client that does not retry passes its `assert`s, but a
-- call of `connect` after it fails: the connector still counts as connected, and `startInLoop` fails
-- its `assert` whatever the system calls give.
pub remove_connection-begin :
    (fd errno fd' errno' : ℕ) (conn : Conn) (c : TcpClient)
    → IsValid c
    → c.connection ≡ some conn
    → c.retry ≡ false
    → (d : TcpClient) × (remove_connection fd errno conn c
        ≡ ok (d, queue_connect_destroyed conn ∷ []))
      × (d.connection ≡ none)
      × (start_in_loop fd' errno' (begin d).0.connector ≡ err assert_failed)
unfolding remove_connection begin start_connector start_in_loop
remove_connection-begin fd errno fd' errno' conn c v there off =
    let home : conn.io_loop ≡ c.loop = subst (IsAt c.loop) there v.at_loop in
    let up : is_connected c.connector.state ≡ true = v.single (rw there refl) in
    (record c { connection = none }, ground (arith, home, there, off), refl, ground (arith, up))
