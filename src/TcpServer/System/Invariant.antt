-- ===== src/TcpServer/System/Invariant.antt =====
-- Where a connection of the system is, from its making to its end, and what each step does to that.
use ouge_net_lib.Common.{
  ℕ, ◌+◌, ◌≤◌, ◌<◌, ◌≡◌, refl, sym, subst, true, false, inl, inr, Option, none, some, List, [], ◌∷◌,
  ◌++◌, arith, Bool-cases,
}
use ouge_net_lib.TcpConnection.{connecting, Connection, is_open}
use ouge_net_lib.TcpConnection.Closing.{IsDown}
use ouge_net_lib.TcpServer.{TcpServer, Task, remove_connection_in_loop, is_text, conn_name}
use ouge_net_lib.TcpServer.Names.{is_text-same}
use ouge_net_lib.TcpServer.Connections.{one_if, live}
use ouge_net_lib.TcpServer.Tasks.{establishes, destroys, IsValid}
use ouge_net_lib.TcpServer.System.{System, Picks, first, later}

abbrev pub removes : List ℕ → Task → ℕ
removes x (remove_connection_in_loop c) = one_if (is_text x c.name)
removes x _ = 0

abbrev pub waiting : (Task → ℕ) → List Task → ℕ
waiting f [] = 0
waiting f (t ∷ ts) = f t + waiting f ts

pub waiting-append :
    (f : Task → ℕ) (ts us : List Task) → waiting f (ts ++ us) ≡ waiting f ts + waiting f us
waiting-append f [] us = omega arith
waiting-append f (t ∷ ts) us = omega (arith, waiting-append f ts us)

pub waiting-Picks :
    {t : Task} {ts rest : List Task} (f : Task → ℕ)
    → Picks t ts rest
    → waiting f ts ≡ f t + waiting f rest
waiting-Picks f first = refl
waiting-Picks f (later {u = u} p) = omega (arith, waiting-Picks f p)

-- The stages of a connection: not made or ended, made, up, closed, and no more in the server's map.
pub data Stage : Type 0 where
  absent made up closed removed : Stage

-- How often the map has a name, and how many tasks of each kind wait for its connection.
pub record Counts : Type 0 where
  pub in_map : ℕ
  pub to_establish : ℕ
  pub to_remove : ℕ
  pub to_destroy : ℕ

abbrev pub counts : ℕ → ℕ → ℕ → ℕ → Counts
counts m e r d = record { in_map = m; to_establish = e; to_remove = r; to_destroy = d }

abbrev pub counts_of : Stage → Counts
counts_of absent = counts 0 0 0 0
counts_of made = counts 1 1 0 0
counts_of up = counts 1 0 0 0
counts_of closed = counts 1 0 1 0
counts_of removed = counts 0 0 0 1

abbrev pub Tallies : Counts → List ℕ → System → Type 0
Tallies n x y =
    (live x y.server.connections ≡ n.in_map)
    × (waiting (establishes x) y.tasks ≡ n.to_establish)
    × (waiting (removes x) y.tasks ≡ n.to_remove)
    × (waiting (destroys x) y.tasks ≡ n.to_destroy)

abbrev pub Suits : Stage → Option Connection → Type 0
Suits absent none = Unit
Suits absent (some c) = IsDown c
Suits made (some c) = c.state ≡ connecting
Suits up (some c) = is_open c.state ≡ true
Suits closed (some c) = IsDown c
Suits removed (some c) = IsDown c
Suits _ none = ⊥

-- Only a number that was given out has a connection.
abbrev pub IsKnown : List ℕ → TcpServer → Type 0
IsKnown x s = (id : ℕ) × (id < s.next_conn_id) × (x ≡ conn_name s.name s.ip_port id)

abbrev pub Origin : Stage → List ℕ → TcpServer → Type 0
Origin absent x s = Unit
Origin _ x s = IsKnown x s

pub record Follows (x : List ℕ) (y : System) : Type 0 where
  pub stage : Stage
  pub tallies : Tallies (counts_of stage) x y
  pub suits : Suits stage (y.conn_of x)
  pub origin : Origin stage x y.server

pub record IsSound (y : System) : Type 0 where
  pub valid : IsValid y.server
  pub follows : (x : List ℕ) → Follows x y

-- The stage that a waiting task shows.
establishes_stage : (st : Stage) → 1 ≤ (counts_of st).to_establish → st ≡ made
establishes_stage st e = ground (arith, e)

pub establishes-Follows :
    {x : List ℕ} {y : System} (w : Follows x y)
    → 1 ≤ waiting (establishes x) y.tasks
    → w.stage ≡ made
establishes-Follows w e = establishes_stage w.stage (omega (arith, e, w.tallies.1))

removes_stage : (st : Stage) → 1 ≤ (counts_of st).to_remove → st ≡ closed
removes_stage st e = ground (arith, e)

pub removes-Follows :
    {x : List ℕ} {y : System} (w : Follows x y) → 1 ≤ waiting (removes x) y.tasks → w.stage ≡ closed
removes-Follows w e = removes_stage w.stage (omega (arith, e, w.tallies.2))

destroys_stage : (st : Stage) → 1 ≤ (counts_of st).to_destroy → st ≡ removed
destroys_stage st e = ground (arith, e)

pub destroys-Follows :
    {x : List ℕ} {y : System} (w : Follows x y)
    → 1 ≤ waiting (destroys x) y.tasks
    → w.stage ≡ removed
destroys-Follows w e = destroys_stage w.stage (omega (arith, e, w.tallies.3))

-- A step that concerns one name.
pub IsSound-one :
    (n : List ℕ) (y z : System)
    → IsSound y
    → IsValid z.server
    → y.server.next_conn_id ≤ z.server.next_conn_id
    → (z.server.name ≡ y.server.name) × (z.server.ip_port ≡ y.server.ip_port)
    → ((x : List ℕ)
        → is_text x n ≡ false
        → (st : Stage) → Tallies (counts_of st) x y
        → Suits st (y.conn_of x)
        → Tallies (counts_of st) x z × Suits st (z.conn_of x))
    → Follows n z
    → IsSound z
IsSound-one n y z v valid grows named others this = record {
  valid = valid;
  follows = λ x. elim (Bool-cases (is_text x n)) [
    | inl same ↦ subst (λ w. Follows w z) (sym (is_text-same x n same)) this
    | inr other ↦
        let w = v.follows x in
        let kept = others x other w.stage w.tallies w.suits in
        record {
          stage = w.stage;
          tallies = kept.0;
          suits = kept.1;
          origin = known w.stage x w.origin;
        }
  ];
}
  where
    known : (st : Stage) (x : List ℕ) → Origin st x y.server → Origin st x z.server
    known absent x o = tt
    known made x (id, less, e) = (id, omega arith, rw (named.0, named.1) e)
    known up x (id, less, e) = (id, omega arith, rw (named.0, named.1) e)
    known closed x (id, less, e) = (id, omega arith, rw (named.0, named.1) e)
    known removed x (id, less, e) = (id, omega arith, rw (named.0, named.1) e)

abbrev pub At : Stage → List ℕ → System → Type 0
At st x y = Tallies (counts_of st) x y × Suits st (y.conn_of x) × Origin st x y.server

pub Follows-At : {st : Stage} {x : List ℕ} {y : System} (w : Follows x y) → w.stage ≡ st → At st x y
Follows-At {x = x} {y = y} w e = subst (λ s. At s x y) e (w.tallies, w.suits, w.origin)

pub At-Follows : {x : List ℕ} {y : System} (st : Stage) → At st x y → Follows x y
At-Follows st (t, s, o) = record { stage = st; tallies = t; suits = s; origin = o }
