-- ===== src/TcpServer/System/Drain.antt =====
-- The loops run the tasks that wait until none is left.
use ouge_net_lib.Common.{
  ℕ, zero, suc, ◌+◌, ◌*◌, ◌≤◌, ◌≡◌, refl, sym, ap, ◌∙◌, subst, Bool, false, inl, inr, Option, none,
  some, List, [], ◌∷◌, length, arith, Result, ok, ◌>>=◌, Ensures, Ensures-ok, Result-cases,
  Bool-cases, List-cases, ◌==◌,
}
use ouge_net_lib.TcpConnection.{
  Connection, is_open, connect_established as establish, connect_destroyed as finish, destroy,
}
use ouge_net_lib.TcpServer.{
  TcpServer, Task, listen_acceptor, connect_established, connect_destroyed,
  remove_connection_in_loop, remove_in_loop, erase_connection,
}
use ouge_net_lib.TcpServer.Connections.{live, one_if}
use ouge_net_lib.TcpServer.Tasks.{IsValid, establishes, destroys}
use ouge_net_lib.TcpServer.System.{System, look, run_task, Picks, first}
use ouge_net_lib.TcpServer.System.Invariant.{
  removes, absent, up, Stage, made, closed, removed, IsSound, Suits, waiting, waiting-append,
  counts_of,
}
use ouge_net_lib.TcpServer.System.Steps.{run_task-IsSound}
use ouge_net_lib.TcpServer.System.Protocol.{Run, runs, Run-IsSound}

-- How many tasks a task makes, itself included.
abbrev pub weight : Task → ℕ
weight (remove_connection_in_loop conn) = 2
weight t = 1

-- At most `n` tasks, the oldest first.
abbrev pub drain : ℕ → System → Result System
drain zero y = ok y
drain (suc n) y = elim y.tasks [
  | [] ↦ ok y
  | t ∷ rest ↦ run_task t (record y { tasks = rest }) >>= λ z. drain n z
]

run_task-weight :
    (t : Task) (y : System)
    → Ensures (run_task t y) (λ z. waiting weight z.tasks + 1 ≡ weight t + waiting weight y.tasks)
unfolding run_task remove_in_loop
run_task-weight listen_acceptor y = omega arith
run_task-weight (connect_established conn) y = elim (Result-cases (look conn.name y)) [
  | inr failed ↦ rw (failed.1) tt
  | inl (c, there) ↦ elim (Result-cases (establish c)) [
    | inr failed ↦ rw (there, failed.1) tt
    | inl (d, done) ↦ rw (there, done) (omega arith)
  ]
]
run_task-weight (remove_connection_in_loop conn) y =
    elim (Bool-cases ((erase_connection conn.name y.server.connections).0 == 1)) [
      | inr missing ↦ rw missing tt
      | inl there ↦
          rw there (omega (arith, waiting-append weight y.tasks (connect_destroyed conn ∷ [])))
    ]
run_task-weight (connect_destroyed conn) y = elim (Result-cases (look conn.name y)) [
  | inr failed ↦ rw (failed.1) tt
  | inl (c, there) ↦ elim (Result-cases (finish c)) [
    | inr failed ↦ rw (there, failed.1) tt
    | inl (d, done) ↦ elim (Result-cases (destroy d.0)) [
      | inr failed ↦ rw (there, done, failed.1) tt
      | inl (u, freed) ↦ rw (there, done, freed) (omega arith)
    ]
  ]
]

length-weight : (ts : List Task) → waiting weight ts ≤ 2 * length ts
length-weight [] = omega arith
length-weight (t ∷ ts) = ground (arith, length-weight ts)

-- What is left where nothing waits.
abbrev pub is_up : Option Connection → Bool
is_up none = false
is_up (some c) = is_open c.state

quiet_stage :
    (st : Stage) (o : Option Connection)
    → 0 ≡ (counts_of st).to_establish
    → 0 ≡ (counts_of st).to_remove
    → 0 ≡ (counts_of st).to_destroy
    → Suits st o
    → (counts_of st).in_map ≡ one_if (is_up o)
quiet_stage absent none a b c s = refl
quiet_stage absent (some k) a b c s = ground (arith, s)
quiet_stage made o a b c s = absurd (omega arith)
quiet_stage up none a b c s = absurd s
quiet_stage up (some k) a b c s = ground (arith, s)
quiet_stage closed o a b c s = absurd (omega arith)
quiet_stage removed o a b c s = absurd (omega arith)

IsSound-is_up :
    (y : System)
    → IsSound y
    → y.tasks ≡ []
    → (x : List ℕ) → live x y.server.connections ≡ one_if (is_up (y.conn_of x))
IsSound-is_up y v quiet x =
    let w = v.follows x in
    w.tallies.0
    ∙ quiet_stage w.stage (y.conn_of x) (ap (waiting (establishes x)) (sym quiet) ∙ w.tallies.1)
        (ap (waiting (removes x)) (sym quiet) ∙ w.tallies.2)
        (ap (waiting (destroys x)) (sym quiet) ∙ w.tallies.3) w.suits

weight_pos : (t : Task) → 1 ≤ weight t
weight_pos t = ground arith

drain_quiet : (n : ℕ) (y : System) → y.tasks ≡ [] → drain n y ≡ ok y
drain_quiet zero y quiet = refl
drain_quiet (suc n) y quiet = rw quiet refl

-- With enough turns every task runs.
drain_ends :
    {s : TcpServer} (n : ℕ) (y : System)
    → IsValid s
    → s.connections ≡ []
    → Run s y
    → waiting weight y.tasks ≤ n
    → (z : System) × (drain n y ≡ ok z) × (z.tasks ≡ []) × Run s z
drain_ends zero y v empty run enough = elim (List-cases y.tasks) [
  | inl quiet ↦ (y, refl, quiet, run)
  | inr (t, rest, e) ↦ absurd (omega (arith, enough, ap (waiting weight) e, weight_pos t))
]
drain_ends (suc n) y v empty run enough = elim (List-cases y.tasks) [
  | inl quiet ↦ (y, drain_quiet (suc n) y quiet, quiet, run)
  | inr (t, rest, e) ↦
      let p : Picks t y.tasks rest = subst (λ ts. Picks t ts rest) (sym e) first in
      let (w, done, sound) = run_task-IsSound t rest y (Run-IsSound v empty run) p in
      let less : waiting weight w.tasks + 1 ≡ weight t + waiting weight rest =
        Ensures-ok (run_task t (record y { tasks = rest }))
          (λ z. waiting weight z.tasks + 1 ≡ weight t + waiting weight rest) w
          (run_task-weight t (record y { tasks = rest })) done in
      let (z, drained, quiet, more) =
        drain_ends n w v empty (runs run p done)
          (omega (arith, enough, less, ap (waiting weight) e)) in
      (z, rw (e, done) drained, quiet, more)
]

-- A well-formed server that has no connection yet, with the task to listen, after any order of new
-- connections, events and tasks as for `Run`, without the server's destructor: where nothing new
-- comes, the loops run out of tasks, at the latest after twice as many as wait, no task fails,
-- and then the map has a name once where its connection is up, and not at all where it is not.
pub Run-drain :
    {s : TcpServer} {y : System}
    → IsValid s
    → s.connections ≡ []
    → Run s y
    → (z : System) × (drain (2 * length y.tasks) y ≡ ok z)
      × (z.tasks ≡ [])
      × ((x : List ℕ) → live x z.server.connections ≡ one_if (is_up (z.conn_of x)))
Run-drain {y = y} v empty run =
    let (z, done, quiet, more) =
      drain_ends (2 * length y.tasks) y v empty run (length-weight y.tasks) in
    (z, done, quiet, IsSound-is_up z (Run-IsSound v empty more) quiet)
