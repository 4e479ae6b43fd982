-- ===== src/TcpServer/System/Protocol.antt =====
-- Every order of new connections, events and tasks of a server, from one without connections.
use ouge_net_lib.Common.{ℕ, ◌≡◌, refl, sym, ap, ◌∙◌, true, some, List, [], ok, Ensures-ok}
use ouge_net_lib.Channel.{Channel}
use ouge_net_lib.Buffer.{Buffer}
use ouge_net_lib.TcpConnection.{Connection, new_connection}
use ouge_net_lib.TcpConnection.Closing.{Event, may_come}
use ouge_net_lib.TcpServer.{Conn, TcpServer, Task}
use ouge_net_lib.TcpServer.Connections.{live}
use ouge_net_lib.TcpServer.Tasks.{IsValid}
use ouge_net_lib.TcpServer.System.{System, new_system, run_task, accept, react, Picks}
use ouge_net_lib.TcpServer.System.Invariant.{absent, IsSound}
use ouge_net_lib.TcpServer.System.Steps.{run_task-IsSound}
use ouge_net_lib.TcpServer.System.Moves.{accept-IsSound}
use ouge_net_lib.TcpServer.System.Events.{react-IsSound}

pub data Run (s : TcpServer) : System → Type 0 where
  here : Run s (new_system s)
  accepts :
      {y z : System}
      → Run s y
      → (sockfd : ℕ) (channel : Channel) (input output : Buffer)
      → accept sockfd (new_connection channel input output) y ≡ ok z
      → Run s z
  reacts :
      {y z : System} {c : Connection}
      → Run s y
      → (e : Event) (conn : Conn) → y.conn_of conn.name ≡ some c
      → may_come c.state e ≡ true
      → react e conn y ≡ ok z
      → Run s z
  runs :
      {y z : System} {t : Task} {rest : List Task}
      → Run s y
      → Picks t y.tasks rest
      → run_task t (record y { tasks = rest }) ≡ ok z
      → Run s z

new_system-IsSound : (s : TcpServer) → IsValid s → s.connections ≡ [] → IsSound (new_system s)
new_system-IsSound s v none_yet = record {
  valid = v;
  follows = λ x. record {
    stage = absent;
    tallies = (ap (live x) none_yet, refl, refl, refl);
    suits = tt;
    origin = tt;
  };
}

pub Run-IsSound :
    {s : TcpServer} {y : System} → IsValid s → s.connections ≡ [] → Run s y → IsSound y
unfolding new_connection
Run-IsSound {s = s} v empty here = new_system-IsSound s v empty
Run-IsSound {y = z} v empty (accepts {y = y} run sockfd channel input output e) =
    Ensures-ok (accept sockfd (new_connection channel input output) y) IsSound z
      (accept-IsSound sockfd (new_connection channel input output) y (Run-IsSound v empty run) refl)
      e
Run-IsSound {y = z} v empty (reacts {y = y} {c = c} run event conn there may e) =
    Ensures-ok (react event conn y) IsSound z
      (react-IsSound event conn y c (Run-IsSound v empty run) there may) e
Run-IsSound {y = z} v empty (runs {y = y} {t = t} {rest = rest} run p e) =
    let (z', e', sound) = run_task-IsSound t rest y (Run-IsSound v empty run) p in
    Ensures-ok (ok z') IsSound z sound (sym e' ∙ e)

-- A well-formed server that has no connection yet, with the task to listen: after any order of new
-- connections, of events of its connections and of tasks that the loops run, without the server's
-- destructor, every task that waits succeeds when it runs next, whichever it is:
-- `connectEstablished` finds the state connecting, `removeConnectionInLoop` the name once in the map,
-- `connectDestroyed` a channel without events, and then the destructor the state disconnected.
-- While a connection is not up its events are `shutdown`, `forceClose` and what they queue, and a
-- late `sendInLoop`.
pub Run-run_task :
    {s : TcpServer} {y : System} {t : Task} {rest : List Task}
    → IsValid s
    → s.connections ≡ []
    → Run s y
    → Picks t y.tasks rest
    → (z : System) × (run_task t (record y { tasks = rest }) ≡ ok z)
Run-run_task {y = y} {t = t} {rest = rest} v empty run p =
    let (z, e, sound) = run_task-IsSound t rest y (Run-IsSound v empty run) p in (z, e)
