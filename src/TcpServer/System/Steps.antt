-- ===== src/TcpServer/System/Steps.antt =====
-- A task that a loop runs in the system: it succeeds, and the connections stay sound.
use ouge_net_lib.Common.{ℕ, ◌+◌, ◌≡◌, refl, sym, ◌∙◌, subst, Option, none, some, List, arith, ok}
use ouge_net_lib.Acceptor.{listen}
use ouge_net_lib.TcpConnection.{connecting, Connection}
use ouge_net_lib.TcpConnection.Closing.{IsDown, establish_succeeds, finish_succeeds}
use ouge_net_lib.TcpServer.{
  Conn, Task, listen_acceptor, connect_established, connect_destroyed, remove_connection_in_loop,
}
use ouge_net_lib.TcpServer.Names.{is_text_refl}
use ouge_net_lib.TcpServer.Tasks.{establishes, destroys}
use ouge_net_lib.TcpServer.System.{System, Picks, put, run_task}
use ouge_net_lib.TcpServer.System.Invariant.{
  removes, waiting, waiting-Picks, Stage, absent, made, up, closed, removed, Suits, Origin,
  Follows-At, At-Follows, IsSound, IsSound-one, establishes-Follows, destroys-Follows,
}
use ouge_net_lib.TcpServer.System.Counts.{counts_picked, other_name, put_other, put_same}
use ouge_net_lib.TcpServer.System.Removal.{remove-IsSound}

establish-IsSound :
    (conn : Conn) (rest : List Task) (y : System)
    → IsSound y
    → Picks (connect_established conn) y.tasks rest
    → (z : System) × (run_task (connect_established conn) (record y { tasks = rest }) ≡ ok z)
      × IsSound z
unfolding run_task
establish-IsSound conn rest y v p =
    let n = conn.name in
    let w = v.follows n in
    let one : waiting (establishes n) y.tasks ≡ 1 + waiting (establishes n) rest =
      waiting-Picks (establishes n) p ∙ rw (is_text_refl n) refl in
    let (t, suits, o) = Follows-At w (establishes-Follows w (omega (arith, one))) in
    let (c, there, e) = made_there (y.conn_of n) suits in
    let (d, is_up, (es, done)) = establish_succeeds c e in
    let z : System = record y { conn_of = put n d y.conn_of; tasks = rest } in
    (
      z,
      rw (there, done) refl,
      IsSound-one n y z v v.valid (omega arith) (refl, refl)
          (λ x other st h s. (
            counts_picked x y p st (rw other (refl, refl, refl)) h,
            subst (Suits st) (sym (put_other x n d y.conn_of other)) s,
          ))
          (At-Follows up (
            (
              t.0,
              omega (arith, t.1, one),
              omega (arith, t.2, waiting-Picks (removes n) p),
              omega (arith, t.3, waiting-Picks (destroys n) p),
            ),
            subst (Suits up) (sym (put_same n d y.conn_of)) is_up,
            o,
          )),
    )
  where
    made_there :
        (o : Option Connection)
        → Suits made o
        → (c : Connection) × (o ≡ some c) × (c.state ≡ connecting)
    made_there (some c) s = (c, refl, s)
    made_there none s = absurd s

finish-IsSound :
    (conn : Conn) (rest : List Task) (y : System)
    → IsSound y
    → Picks (connect_destroyed conn) y.tasks rest
    → (z : System) × (run_task (connect_destroyed conn) (record y { tasks = rest }) ≡ ok z)
      × IsSound z
unfolding run_task
finish-IsSound conn rest y v p =
    let n = conn.name in
    let w = v.follows n in
    let one : waiting (destroys n) y.tasks ≡ 1 + waiting (destroys n) rest =
      waiting-Picks (destroys n) p ∙ rw (is_text_refl n) refl in
    let (t, suits, o) = Follows-At w (destroys-Follows w (omega (arith, one))) in
    let (c, there, e) = removed_there (y.conn_of n) suits in
    let (d, is_down, (es, done), freed) = finish_succeeds c e in
    let z : System = record y { conn_of = put n d y.conn_of; tasks = rest } in
    (
      z,
      rw (there, done, freed) refl,
      IsSound-one n y z v v.valid (omega arith) (refl, refl)
          (λ x other st h s. (
            counts_picked x y p st (refl, refl, other_name x n other) h,
            subst (Suits st) (sym (put_other x n d y.conn_of other)) s,
          ))
          (At-Follows absent (
            (
              t.0,
              omega (arith, t.1, waiting-Picks (establishes n) p),
              omega (arith, t.2, waiting-Picks (removes n) p),
              omega (arith, t.3, one),
            ),
            subst (Suits absent) (sym (put_same n d y.conn_of)) is_down,
            tt,
          )),
    )
  where
    removed_there :
        (o : Option Connection) → Suits removed o → (c : Connection) × (o ≡ some c) × IsDown c
    removed_there (some c) s = (c, refl, s)
    removed_there none s = absurd s

listen-IsSound :
    (rest : List Task) (y : System)
    → IsSound y
    → Picks listen_acceptor y.tasks rest
    → (z : System) × (run_task listen_acceptor (record y { tasks = rest }) ≡ ok z) × IsSound z
unfolding run_task
listen-IsSound rest y v p = (
  record y {
    server = record (y.server) { acceptor = (listen (y.server).acceptor).0 };
    tasks = rest;
  },
  refl,
  record {
    valid = record {
      short = v.valid.short;
      small = v.valid.small;
      numbered = v.valid.numbered;
      distinct = v.valid.distinct;
    };
    follows = λ x.
        let w = v.follows x in
        record {
          stage = w.stage;
          tallies = counts_picked x y p w.stage (refl, refl, refl) w.tallies;
          suits = w.suits;
          origin = kept w.stage x w.origin;
        };
  },
)
  where
    kept :
        (st : Stage) (x : List ℕ)
        → Origin st x y.server
        → Origin st x (record (y.server) { acceptor = (listen (y.server).acceptor).0 })
    kept absent x o = tt
    kept made x o = o
    kept up x o = o
    kept closed x o = o
    kept removed x o = o

-- A task that waits, whichever loop runs it next.
pub run_task-IsSound :
    (t : Task) (rest : List Task) (y : System)
    → IsSound y
    → Picks t y.tasks rest
    → (z : System) × (run_task t (record y { tasks = rest }) ≡ ok z) × IsSound z
run_task-IsSound listen_acceptor rest y v p = listen-IsSound rest y v p
run_task-IsSound (connect_established conn) rest y v p = establish-IsSound conn rest y v p
run_task-IsSound (remove_connection_in_loop conn) rest y v p = remove-IsSound conn rest y v p
run_task-IsSound (connect_destroyed conn) rest y v p = finish-IsSound conn rest y v p
