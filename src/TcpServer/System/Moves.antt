-- ===== src/TcpServer/System/Moves.antt =====
-- A new connection, and an event of a connection, keep the system sound.
use ouge_net_lib.Common.{
  ℕ, ◌+◌, ◌^◌, ◌≡◌, refl, sym, ap, ◌∙◌, subst, inl, inr, List, [], ◌∷◌, ◌++◌, ltb, arith, Ensures,
  Ensures-ok, Result-cases, Bool-cases,
}
use ouge_net_lib.EventLoopThreadPool.{get_next_loop}
use ouge_net_lib.TcpConnection.{connecting, Connection}
use ouge_net_lib.TcpServer.{
  TcpServer, Effect, run_in_loop, Done, Task, connect_established, is_text, conn_name, new_conn,
  put_connection, new_connection,
}
use ouge_net_lib.TcpServer.Names.{conn_name_injective}
use ouge_net_lib.TcpServer.Connections.{one_if, live, live-put_connection}
use ouge_net_lib.TcpServer.Tasks.{establishes, destroys, IsValid, Keeps}
use ouge_net_lib.TcpServer.Runs.{accepts, perform-Keeps, conn_name-IsFresh}
use ouge_net_lib.TcpServer.System.{System, put, accept, posted}
use ouge_net_lib.TcpServer.System.Invariant.{
  removes, waiting-append, Stage, absent, made, up, closed, removed, Suits, IsKnown, Origin,
  Follows, Follows-At, At-Follows, IsSound, IsSound-one,
}
use ouge_net_lib.TcpServer.System.Counts.{counts_posted, other_name, same_name, put_other, put_same}

-- What a new connection leaves.
abbrev Made : ℕ → TcpServer → Done → Type 0
Made sockfd s d =
    (io_loop : ℕ) × (d.0.name ≡ s.name)
    × (d.0.ip_port ≡ s.ip_port)
    × (d.0.next_conn_id ≡ s.next_conn_id + 1)
    × (d.0.connections
        ≡ put_connection (new_conn (conn_name s.name s.ip_port s.next_conn_id) sockfd io_loop)
            s.connections)
    × (d.1
        ≡ run_in_loop io_loop (
            connect_established
              (new_conn (conn_name s.name s.ip_port s.next_conn_id) sockfd io_loop))
          ∷ [])

new_connection-Made :
    (sockfd : ℕ) (s : TcpServer) → Ensures (new_connection sockfd s) (Made sockfd s)
unfolding new_connection
new_connection-Made sockfd s = elim (Result-cases (get_next_loop s.thread_pool)) [
  | inl got ↦
      let (pick, e) = got in
      elim (Bool-cases (ltb (s.next_conn_id + 1) (2 ^ 31))) [
        | inl room ↦ rw (e, room) (pick.0, refl, refl, refl, refl, refl)
        | inr full ↦ rw (e, full) tt
      ]
  | inr failed ↦ rw (failed.1) tt
]

-- The next number has no connection.
next_absent :
    (y : System)
    → IsSound y
    → (w : Follows (conn_name y.server.name y.server.ip_port y.server.next_conn_id) y)
    → w.stage ≡ absent
next_absent y v w = by_stage w.stage w.origin
  where
    clash : IsKnown (conn_name y.server.name y.server.ip_port y.server.next_conn_id) y.server → ⊥
    clash (id, less, e) =
        let same =
          conn_name_injective y.server.name y.server.ip_port y.server.next_conn_id id v.valid.short
            v.valid.small (omega (arith, v.valid.small)) e in
        omega (arith, same)

    by_stage :
        (st : Stage)
        → Origin st (conn_name y.server.name y.server.ip_port y.server.next_conn_id) y.server
        → st ≡ absent
    by_stage absent o = refl
    by_stage made o = absurd (clash o)
    by_stage up o = absurd (clash o)
    by_stage closed o = absurd (clash o)
    by_stage removed o = absurd (clash o)

pub accept-IsSound :
    (sockfd : ℕ) (fresh : Connection) (y : System)
    → IsSound y
    → fresh.state ≡ connecting
    → Ensures (accept sockfd fresh y) IsSound
unfolding accept
accept-IsSound sockfd fresh y v new = elim (Result-cases (new_connection sockfd y.server)) [
  | inr failed ↦ rw (failed.1) tt
  | inl got ↦
      let ((s, es), e) = got in
      rw e (
        after s es
          (Ensures-ok (new_connection sockfd y.server) (Made sockfd y.server) (s, es)
            (new_connection-Made sockfd y.server) e)
          (Ensures-ok (new_connection sockfd y.server) (Keeps y.server) (s, es)
            (perform-Keeps (accepts sockfd) y.server v.valid) e).valid)
]
  where
    n : List ℕ
    n = conn_name y.server.name y.server.ip_port y.server.next_conn_id

    after :
        (s : TcpServer) (es : List Effect)
        → Made sockfd y.server (s, es)
        → IsValid s
        → IsSound
            (record { server = s; conn_of = put n fresh y.conn_of; tasks = y.tasks ++ posted es })
    after s es (io_loop, named, port, next, conns, gave) valid =
        let conn = new_conn n sockfd io_loop in
        let (t, suits, o) = Follows-At (v.follows n) (next_absent y v (v.follows n)) in
        let in_map : (x : List ℕ)
            → live x s.connections ≡ one_if (is_text x n) + live x y.server.connections =
          λ x.
            ap (live x) conns
            ∙ live-put_connection x conn y.server.connections (
                conn_name-IsFresh y.server.name y.server.ip_port y.server.next_conn_id
                  y.server.connections v.valid.short v.valid.small v.valid.numbered) in
        let ts : List Task = connect_established conn ∷ [] in
        subst
          (λ fs.
            IsSound (record {
              server = s;
              conn_of = put n fresh y.conn_of;
              tasks = y.tasks ++ posted fs;
            }))
          (sym gave)
          (IsSound-one n y
            (record { server = s; conn_of = put n fresh y.conn_of; tasks = y.tasks ++ ts }) v valid
            (omega (arith, next)) (named, port)
            (λ x other st h k. (
              counts_posted x y st s ts (omega (arith, in_map x, other_name x n other))
                  (omega (arith, other_name x n other), refl, refl) h,
              subst (Suits st) (sym (put_other x n fresh y.conn_of other)) k,
            ))
            (At-Follows made (
              (
                omega (arith, t.0, in_map n, same_name n),
                omega (arith, t.1, waiting-append (establishes n) y.tasks ts, same_name n),
                omega (arith, t.2, waiting-append (removes n) y.tasks ts),
                omega (arith, t.3, waiting-append (destroys n) y.tasks ts),
              ),
              subst (Suits made) (sym (put_same n fresh y.conn_of)) new,
              (y.server.next_conn_id, omega (arith, next), rw (named, port) refl),
            )))
