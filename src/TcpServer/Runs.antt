-- ===== src/TcpServer/Runs.antt =====
-- Every operation of a server keeps its names, its map and the count of its tasks.
use ouge_net_lib.Common.{
  ℕ, ◌+◌, ◌^◌, ◌≤◌, ◌<◌, ◌≡◌, refl, sym, ◌∙◌, subst, Bool, true, Bool-cases, inl, inr, List, [],
  ◌∷◌, ◌++◌, length, ltb, ◌==◌, All, arith, if◌then◌else◌, Result, ok, err, assert_failed, Ensures,
  Result-cases,
}
use ouge_net_lib.EventLoopThreadPool.{EventLoopThreadPool, get_next_loop, start as start_pool}
use ouge_net_lib.TcpServer.{
  Conn, TcpServer, listen_acceptor, connect_established, connect_destroyed,
  remove_connection_in_loop, Effect, run_in_loop, queue_in_loop, thread_init, Done, set_thread_num,
  start, new_conn, conn_name, put_connection, erase_connection, new_connection, remove_connection,
  remove_in_loop,
}
use ouge_net_lib.TcpServer.Names.{is_text-conn_name}
use ouge_net_lib.TcpServer.Connections.{
  live, IsFresh, live-put_connection, put_connection-IsDistinct, All-put_connection,
  erase-IsDistinct, erase_count, live-erase, All-erase,
}
use ouge_net_lib.TcpServer.Tasks.{established, destroyed, IsAtHome, IsNumbered, IsValid, Keeps}

IsNumbered-suc :
    (name ip_port : List ℕ) (next : ℕ) (cs : List Conn)
    → All (IsNumbered name ip_port next) cs
    → All (IsNumbered name ip_port (next + 1)) cs
IsNumbered-suc name ip_port next [] h = tt
IsNumbered-suc name ip_port next (c ∷ cs) h =
    let (id, less, same) = h.0 in ((id, omega arith, same), IsNumbered-suc name ip_port next cs h.1)

-- The next name is new.
pub conn_name-IsFresh :
    (name ip_port : List ℕ) (next : ℕ) (cs : List Conn)
    → length ip_port ≤ 21
    → next < 2 ^ 31
    → All (IsNumbered name ip_port next) cs
    → IsFresh (conn_name name ip_port next) cs
conn_name-IsFresh name ip_port next [] short small h = tt
conn_name-IsFresh name ip_port next (c ∷ cs) short small h =
    let (id, less, same) = h.0 in
    (
      rw (same, is_text-conn_name name ip_port next id short small (omega arith)) (ground arith),
      conn_name-IsFresh name ip_port next cs short small h.1,
    )

new_connection-Keeps :
    (sockfd : ℕ) (s : TcpServer) → IsValid s → Ensures (new_connection sockfd s) (Keeps s)
unfolding new_connection
new_connection-Keeps sockfd s v = elim (Result-cases (get_next_loop s.thread_pool)) [
  | inl got ↦
      let (pick, e) = got in
      elim (Bool-cases (ltb (s.next_conn_id + 1) (2 ^ 31))) [
        | inl room ↦ rw (e, room) (after pick.0 pick.1 (ground (arith, room)))
        | inr full ↦ rw (e, full) tt
      ]
  | inr failed ↦ rw (failed.1) tt
]
  where
    after :
        (io_loop : ℕ) (pool : EventLoopThreadPool)
        → s.next_conn_id + 1 < 2 ^ 31
        → Keeps s (
          record s {
            thread_pool = pool;
            next_conn_id = s.next_conn_id + 1;
            connections =
                put_connection
                  (new_conn (conn_name s.name s.ip_port s.next_conn_id) sockfd io_loop)
                  s.connections;
          },
          run_in_loop io_loop (
                connect_established
                  (new_conn (conn_name s.name s.ip_port s.next_conn_id) sockfd io_loop))
              ∷ [],
        )
    after io_loop pool room =
        let conn = new_conn (conn_name s.name s.ip_port s.next_conn_id) sockfd io_loop in
        let fresh : IsFresh conn.name s.connections =
          conn_name-IsFresh s.name s.ip_port s.next_conn_id s.connections v.short (omega arith)
            v.numbered in
        record {
          valid = record {
            short = v.short;
            small = room;
            numbered =
                All-put_connection (IsNumbered s.name s.ip_port (s.next_conn_id + 1)) conn
                  s.connections (s.next_conn_id, omega arith, refl)
                  (IsNumbered-suc s.name s.ip_port s.next_conn_id s.connections v.numbered);
            distinct = put_connection-IsDistinct conn s.connections fresh v.distinct;
          };
          balance = λ x. omega (arith, live-put_connection x conn s.connections fresh);
          gives = λ id small.
              rw (is_text-conn_name s.name s.ip_port id s.next_conn_id v.short small (omega arith))
                (ground arith);
          grows = omega arith;
          same_name = refl;
          same_ip_port = refl;
          same_loop = refl;
          at_home = (refl, tt);
        }

-- An operation that changes neither the map nor the numbers, and gives no task of a connection.
quiet :
    (s r : TcpServer) (es : List Effect)
    → IsValid s
    → (r.connections ≡ s.connections)
      × (r.next_conn_id ≡ s.next_conn_id)
      × (r.name ≡ s.name)
      × (r.ip_port ≡ s.ip_port)
      × (r.loop ≡ s.loop)
    → ((x : List ℕ) → (established x es ≡ 0) × (destroyed x es ≡ 0))
    → IsAtHome s.loop es
    → Keeps s (r, es)
quiet s r es v same none_of home = record {
  valid = record {
    short = subst (λ a. length a ≤ 21) (sym (same.3)) v.short;
    small = subst (λ n. n < 2 ^ 31) (sym (same.1)) v.small;
    numbered = rw (same.0, same.1, same.2, same.3) v.numbered;
    distinct = rw (same.0) v.distinct;
  };
  balance = λ x. rw (same.0, (none_of x).0, (none_of x).1) refl;
  gives = λ id small. (none_of (conn_name s.name s.ip_port id)).0 ∙ ground (arith, same.1);
  grows = ground (arith, same.1);
  same_name = same.2;
  same_ip_port = same.3;
  same_loop = same.4;
  at_home = home;
}

start-Keeps :
    (start_loop : ℕ → Result ℕ) (cb_set : Bool) (s : TcpServer)
    → IsValid s
    → Ensures (start start_loop cb_set s) (Keeps s)
unfolding start
start-Keeps start_loop cb_set s v = elim (Bool-cases s.started) [
  | inl on ↦
      let done : start start_loop cb_set s ≡ ok (s, []) = ground (arith, on) in
      subst (λ r. Ensures r (Keeps s)) (sym done)
        (quiet s s [] v (refl, refl, refl, refl, refl) (λ x. (refl, refl)) tt)
  | inr off ↦ elim (Result-cases (start_pool start_loop cb_set s.thread_pool)) [
    | inl got ↦
        let ((pool, calls_back), e) = got in
        elim (Bool-cases (s.acceptor).listenning) [
          | inl on ↦
              let done : start start_loop cb_set s ≡ err assert_failed =
                ground (arith, off, e, on) in
              subst (λ r. Ensures r (Keeps s)) (sym done) tt
          | inr silent ↦
              let es : List Effect =
                (if calls_back then thread_init ∷ [] else [])
                ++ run_in_loop s.loop listen_acceptor ∷ [] in
              let r : TcpServer = record s { started = true; thread_pool = pool } in
              let done : start start_loop cb_set s ≡ ok (r, es) = ground (arith, off, e, silent) in
              subst (λ d. Ensures d (Keeps s)) (sym done)
                (quiet s r es v (refl, refl, refl, refl, refl) (λ x. ground arith) (ground arith))
        ]
    | inr failed ↦
        let done : start start_loop cb_set s ≡ err failed.0 = ground (arith, off, failed.1) in
        subst (λ r. Ensures r (Keeps s)) (sym done) tt
  ]
]

remove_in_loop-Keeps :
    (conn : Conn) (s : TcpServer) → IsValid s → Ensures (remove_in_loop conn s) (Keeps s)
unfolding remove_in_loop
remove_in_loop-Keeps conn s v =
    elim (Bool-cases ((erase_connection conn.name s.connections).0 == 1)) [
      | inr missing ↦ rw missing tt
      | inl there ↦
          let one : live conn.name s.connections ≡ 1 =
            ground (arith, there, erase_count conn.name s.connections v.distinct) in
          let kept : Keeps s (
            record s { connections = (erase_connection conn.name s.connections).1 },
            queue_in_loop conn.io_loop (connect_destroyed conn) ∷ [],
          ) =
            record {
              valid = record {
                short = v.short;
                small = v.small;
                numbered =
                    All-erase (IsNumbered s.name s.ip_port s.next_conn_id) conn.name s.connections
                      v.numbered;
                distinct = erase-IsDistinct conn.name s.connections v.distinct;
              };
              balance = λ x. omega (arith, live-erase x conn.name s.connections v.distinct one);
              gives = λ id small. ground arith;
              grows = omega arith;
              same_name = refl;
              same_ip_port = refl;
              same_loop = refl;
              at_home = (refl, tt);
            } in
          rw there kept
    ]

-- The calls of the user, the acceptor and the connections.
pub data Operation : Type 0 where
  sets_thread_num : ℕ → Operation
  starts : (ℕ → Result ℕ) → Bool → Operation
  accepts : ℕ → Operation
  closes removes : Conn → Operation

abbrev pub perform : Operation → TcpServer → Result Done
perform (sets_thread_num n) s = ok (set_thread_num n s, [])
perform (starts start_loop cb_set) s = start start_loop cb_set s
perform (accepts sockfd) s = new_connection sockfd s
perform (closes conn) s = ok (remove_connection conn s)
perform (removes conn) s = remove_in_loop conn s

pub perform-Keeps : (o : Operation) (s : TcpServer) → IsValid s → Ensures (perform o s) (Keeps s)
unfolding set_thread_num remove_connection
perform-Keeps (sets_thread_num n) s v =
    quiet s (set_thread_num n s) [] v (refl, refl, refl, refl, refl) (λ x. (refl, refl)) tt
perform-Keeps (starts start_loop cb_set) s v = start-Keeps start_loop cb_set s v
perform-Keeps (accepts sockfd) s v = new_connection-Keeps sockfd s v
perform-Keeps (closes conn) s v =
    quiet s s (run_in_loop s.loop (remove_connection_in_loop conn) ∷ []) v
      (refl, refl, refl, refl, refl) (λ x. (omega arith, omega arith)) (refl, tt)
perform-Keeps (removes conn) s v = remove_in_loop-Keeps conn s v
