-- ===== src/TcpServer/System/Counts.antt =====
-- The counts of a connection's tasks where a task runs or new ones come.
use ouge_net_lib.Common.{ℕ, ◌≡◌, refl, false, Option, some, List, ◌++◌, arith}
use ouge_net_lib.TcpConnection.{Connection}
use ouge_net_lib.TcpServer.{TcpServer, Task, is_text}
use ouge_net_lib.TcpServer.Names.{is_text_refl}
use ouge_net_lib.TcpServer.Connections.{one_if, live}
use ouge_net_lib.TcpServer.Tasks.{establishes, destroys}
use ouge_net_lib.TcpServer.System.{System, Picks, put}
use ouge_net_lib.TcpServer.System.Invariant.{
  removes, waiting, waiting-append, waiting-Picks, Stage, counts_of, Tallies,
}

-- The counts of a name that the task is not about.
pub counts_picked :
    {t : Task} {rest : List Task} (x : List ℕ) (y : System)
    → Picks t y.tasks rest
    → (st : Stage) → (establishes x t ≡ 0) × (removes x t ≡ 0) × (destroys x t ≡ 0)
    → Tallies (counts_of st) x y
    → Tallies (counts_of st) x (record y { tasks = rest })
counts_picked x y p st none_of h = (
  h.0,
  omega (arith, h.1, none_of.0, waiting-Picks (establishes x) p),
  omega (arith, h.2, none_of.1, waiting-Picks (removes x) p),
  omega (arith, h.3, none_of.2, waiting-Picks (destroys x) p),
)

-- The counts after new tasks that are not about the name.
pub counts_posted :
    (x : List ℕ) (y : System) (st : Stage) (s : TcpServer) (ts : List Task)
    → live x s.connections ≡ live x y.server.connections
    → (waiting (establishes x) ts ≡ 0)
      × (waiting (removes x) ts ≡ 0)
      × (waiting (destroys x) ts ≡ 0)
    → Tallies (counts_of st) x y
    → Tallies (counts_of st) x (record y { server = s; tasks = y.tasks ++ ts })
counts_posted x y st s ts kept none_of h = (
  omega (arith, h.0, kept),
  omega (arith, h.1, none_of.0, waiting-append (establishes x) y.tasks ts),
  omega (arith, h.2, none_of.1, waiting-append (removes x) y.tasks ts),
  omega (arith, h.3, none_of.2, waiting-append (destroys x) y.tasks ts),
)

pub other_name : (x n : List ℕ) → is_text x n ≡ false → one_if (is_text x n) ≡ 0
other_name x n other = rw other refl

pub same_name : (n : List ℕ) → one_if (is_text n n) ≡ 1
same_name n = rw (is_text_refl n) refl

pub put_other :
    (x n : List ℕ) (d : Connection) (conn_of : List ℕ → Option Connection)
    → is_text x n ≡ false
    → put n d conn_of x ≡ conn_of x
put_other x n d conn_of other = rw other refl

pub put_same :
    (n : List ℕ) (d : Connection) (conn_of : List ℕ → Option Connection)
    → put n d conn_of n ≡ some d
put_same n d conn_of = rw (is_text_refl n) refl
