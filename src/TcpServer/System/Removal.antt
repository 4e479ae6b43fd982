-- ===== src/TcpServer/System/Removal.antt =====
-- `removeConnectionInLoop` in the system: it succeeds, and the connections stay sound.
use ouge_net_lib.Common.{
  ◌+◌, ◌≡◌, refl, ◌∙◌, Option, none, some, List, [], ◌∷◌, ◌++◌, arith, ok, Ensures-ok,
}
use ouge_net_lib.TcpConnection.{Connection}
use ouge_net_lib.TcpServer.{
  queue_in_loop, Conn, TcpServer, Task, connect_destroyed, remove_connection_in_loop,
  erase_connection, remove_in_loop,
}
use ouge_net_lib.TcpServer.Names.{is_text_refl}
use ouge_net_lib.TcpServer.Connections.{erase_count, live-erase}
use ouge_net_lib.TcpServer.Tasks.{establishes, destroys, IsValid, Keeps}
use ouge_net_lib.TcpServer.Runs.{removes as removes_in_loop, perform-Keeps}
use ouge_net_lib.TcpServer.System.{System, Picks, run_task}
use ouge_net_lib.TcpServer.System.Invariant.{
  removes, waiting, waiting-append, waiting-Picks, closed, removed, Suits, Follows-At, At-Follows,
  IsSound, IsSound-one, removes-Follows,
}
use ouge_net_lib.TcpServer.System.Counts.{counts_picked, counts_posted, other_name, same_name}

pub remove-IsSound :
    (conn : Conn) (rest : List Task) (y : System)
    → IsSound y
    → Picks (remove_connection_in_loop conn) y.tasks rest
    → (z : System) × (run_task (remove_connection_in_loop conn) (record y { tasks = rest }) ≡ ok z)
      × IsSound z
unfolding run_task remove_in_loop
remove-IsSound conn rest y v p =
    let n = conn.name in
    let w = v.follows n in
    let one : waiting (removes n) y.tasks ≡ 1 + waiting (removes n) rest =
      waiting-Picks (removes n) p ∙ rw (is_text_refl n) refl in
    let (t, suits, o) = Follows-At w (removes-Follows w (omega (arith, one))) in
    let s : TcpServer = record (y.server) {
      connections = (erase_connection n y.server.connections).1;
    } in
    let erased : (erase_connection n y.server.connections).0 ≡ 1 =
      erase_count n y.server.connections v.valid.distinct ∙ t.0 in
    let done : remove_in_loop conn y.server
        ≡ ok (s, queue_in_loop conn.io_loop (connect_destroyed conn) ∷ []) =
      ground (arith, erased) in
    let valid : IsValid s =
      (Ensures-ok (remove_in_loop conn y.server) (Keeps y.server)
        (s, queue_in_loop conn.io_loop (connect_destroyed conn) ∷ [])
        (perform-Keeps (removes_in_loop conn) y.server v.valid) done).valid in
    let z : System = record y { server = s; tasks = rest ++ connect_destroyed conn ∷ [] } in
    (
      z,
      rw erased refl,
      IsSound-one n y z v valid (omega arith) (refl, refl)
          (λ x other st h k. (
            counts_posted x (record y { tasks = rest }) st s (connect_destroyed conn ∷ [])
                (omega (
                  arith,
                  live-erase x n y.server.connections v.valid.distinct t.0,
                  other_name x n other,
                ))
                (omega arith, omega arith, omega (arith, other_name x n other))
                (counts_picked x y p st (refl, other_name x n other, refl) h),
            k,
          ))
          (At-Follows removed (
            (
              omega (
                arith,
                t.0,
                live-erase n n y.server.connections v.valid.distinct t.0,
                same_name n,
              ),
              omega (
                arith,
                t.1,
                waiting-Picks (establishes n) p,
                waiting-append (establishes n) rest (connect_destroyed conn ∷ []),
              ),
              omega
                  (arith, t.2, one, waiting-append (removes n) rest (connect_destroyed conn ∷ [])),
              omega (
                arith,
                t.3,
                waiting-Picks (destroys n) p,
                waiting-append (destroys n) rest (connect_destroyed conn ∷ []),
                same_name n,
              ),
            ),
            down (y.conn_of n) suits,
            o,
          )),
    )
  where
    down : (o : Option Connection) → Suits closed o → Suits removed o
    down (some c) k = k
    down none k = k
