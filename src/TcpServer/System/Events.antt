-- ===== src/TcpServer/System/Events.antt =====
-- An event of a connection keeps the system sound.
use ouge_net_lib.Common.{
  ℕ, ◌≡◌, refl, sym, ap, ◌∙◌, subst, true, false, inl, inr, some, List, [], ◌∷◌, ◌++◌, arith, ok,
  ◌>>=◌, Ensures, Ensures-ok, Result-cases, Bool-cases,
}
use ouge_net_lib.TcpConnection
use ouge_net_lib.TcpConnection.{
  State, disconnected, connecting, Connection, is_open, is_disconnected,
}
use ouge_net_lib.TcpConnection.Closing.{
  Event, act, StaysOrCloses, is_own, closings, act-StaysOrCloses, act_late, is_late, may_come,
}
use ouge_net_lib.TcpServer.{Conn, Task, remove_connection_in_loop, is_text}
use ouge_net_lib.TcpServer.Tasks.{establishes, destroys}
use ouge_net_lib.TcpServer.System.{System, put, look, react, close_callbacks}
use ouge_net_lib.TcpServer.System.Invariant.{
  removes, waiting, waiting-append, Stage, absent, made, up, closed, removed, counts_of, Tallies,
  Suits, Origin, Follows-At, At-Follows, IsSound, IsSound-one,
}
use ouge_net_lib.TcpServer.System.Counts.{counts_posted, other_name, same_name, put_other, put_same}

-- The system after an event that gives `d` and `es`.
abbrev reacted : Conn → System → TcpConnection.Done → System
reacted conn y r = record y {
  conn_of = put conn.name r.0 y.conn_of;
  tasks = y.tasks ++ close_callbacks (closings r.1) conn y.server;
}

react_found :
    (e : Event) (conn : Conn) (y : System) (c : Connection)
    → y.conn_of conn.name ≡ some c
    → react e conn y ≡ (act e c >>= λ r. ok (reacted conn y r))
unfolding react
react_found e conn y c there =
    let found : look conn.name y ≡ ok c = ground (arith, there) in rw found refl

-- A connection that is up is where the server keeps it.
up_stage : (st : Stage) (c : Connection) → Suits st (some c) → is_open c.state ≡ true → st ≡ up
up_stage absent c s is_up = absurd (ground (arith, s, is_up))
up_stage made c s is_up = absurd (ground (arith, s, is_up))
up_stage up c s is_up = refl
up_stage closed c s is_up = absurd (ground (arith, s, is_up))
up_stage removed c s is_up = absurd (ground (arith, s, is_up))

-- The new state of one connection, and tasks that are about it.
changes-IsSound :
    (n : List ℕ) (d : Connection) (ts : List Task) (st : Stage) (y : System)
    → IsSound y
    → ((x : List ℕ)
        → is_text x n ≡ false
        → (waiting (establishes x) ts ≡ 0)
          × (waiting (removes x) ts ≡ 0)
          × (waiting (destroys x) ts ≡ 0))
    → Tallies (counts_of st) n (record y { tasks = y.tasks ++ ts })
    → Suits st (some d)
    → Origin st n y.server
    → IsSound (record y { conn_of = put n d y.conn_of; tasks = y.tasks ++ ts })
changes-IsSound n d ts st y v none_of t suits o =
    IsSound-one n y (record y { conn_of = put n d y.conn_of; tasks = y.tasks ++ ts }) v v.valid
      (omega arith) (refl, refl)
      (λ x other st h k. (
        counts_posted x y st y.server ts refl (none_of x other) h,
        subst (Suits st) (sym (put_other x n d y.conn_of other)) k,
      ))
      (At-Follows st (t, subst (Suits st) (sym (put_same n d y.conn_of)) suits, o))

reacted-IsSound :
    (e : Event) (conn : Conn) (y : System) (c : Connection) (d : TcpConnection.Done)
    → IsSound y
    → y.conn_of conn.name ≡ some c
    → may_come c.state e ≡ true
    → act e c ≡ ok d
    → IsSound (reacted conn y d)
unfolding close_callbacks
reacted-IsSound e conn y c d v there may done = elim (Bool-cases (is_open c.state)) [
  | inr down ↦
      let (same, quiet) =
        Ensures-ok (act e c) (λ d. (d.0 ≡ c) × (closings d.1 ≡ 0)) d
          (act_late e c down (late_comes down)) done in
      let w = v.follows n in
      rw quiet (
        changes-IsSound n d.0 [] w.stage y v (λ x other. (refl, refl, refl))
          (none_added w.stage w.tallies)
          (subst (Suits w.stage) (there ∙ ap some (sym same)) w.suits) w.origin)
  | inl is_up ↦
      let w = v.follows n in
      let (t, s, o) =
        Follows-At w (up_stage w.stage c (subst (Suits w.stage) there w.suits) is_up) in
      elim (Ensures-ok (act e c) StaysOrCloses d (act-StaysOrCloses e c is_up (own_comes is_up))
        done) [
          | inl (quiet, still) ↦ rw quiet (
              changes-IsSound n d.0 [] up y v (λ x other. (refl, refl, refl)) (none_added up t)
                still o)
          | inr (once, down, idle) ↦ rw once (
              changes-IsSound n d.0 (remove_connection_in_loop conn ∷ []) closed y v
                (λ x other. (refl, omega (arith, other_name x n other), refl)) (one_added t)
                (down, idle) o)
        ]
]
  where
    n : List ℕ
    n = conn.name

    late_comes : is_open c.state ≡ false → is_late c.state e ≡ true
    late_comes down = ground (arith, may, down)

    own_comes : is_open c.state ≡ true → is_own e ≡ true
    own_comes is_up = ground (arith, may, is_up)

    none_added :
        (st : Stage)
        → Tallies (counts_of st) n y
        → Tallies (counts_of st) n (record y { tasks = y.tasks ++ [] })
    none_added st t = counts_posted n y st y.server [] refl (refl, refl, refl) t

    one_added :
        Tallies (counts_of up) n y
        → Tallies
            (counts_of closed)
            n
            (record y { tasks = y.tasks ++ remove_connection_in_loop conn ∷ [] })
    one_added t =
        let ts : List Task = remove_connection_in_loop conn ∷ [] in
        (
          t.0,
          omega (arith, t.1, waiting-append (establishes n) y.tasks ts),
          omega (arith, t.2, waiting-append (removes n) y.tasks ts, same_name n),
          omega (arith, t.3, waiting-append (destroys n) y.tasks ts),
        )

pub react-IsSound :
    (e : Event) (conn : Conn) (y : System) (c : Connection)
    → IsSound y
    → y.conn_of conn.name ≡ some c
    → may_come c.state e ≡ true
    → Ensures (react e conn y) IsSound
react-IsSound e conn y c v there may =
    subst (λ r. Ensures r IsSound) (sym (react_found e conn y c there))
      (elim (Result-cases (act e c)) [
        | inr failed ↦ rw (failed.1) tt
        | inl got ↦ rw (got.1) (reacted-IsSound e conn y c got.0 v there may got.1)
      ])
