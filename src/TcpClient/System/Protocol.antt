-- ===== src/TcpClient/System/Protocol.antt =====
-- Every order of a client's calls, its connector's callbacks, the events of its connections and the ends
-- that its loop runs, from a client without a connection.
use ouge_net_lib.Common.{
  ℕ, ◌≡◌, refl, sym, ap, ◌∙◌, subst, true, ◌&&◌, Option, none, some, List, [], ◌∷◌, ◌==◌,
  if◌then◌else◌, Result, ok, ◌>>=◌, Ensures-ok, arith,
}
use ouge_net_lib.Channel.{Channel}
use ouge_net_lib.Buffer.{Buffer}
use ouge_net_lib.Connector.{restart}
use ouge_net_lib.TcpConnection.{Connection, is_open, new_connection}
use ouge_net_lib.TcpConnection.Closing.{Event, may_come}
use ouge_net_lib.TcpClient.{
  Conn, TcpClient, Done, queue_connect_destroyed, by_connectors, is_connection, remove_connection,
}
use ouge_net_lib.TcpClient.Single.{IsValid, IsAt}
use ouge_net_lib.TcpClient.Runs.{Operation}
use ouge_net_lib.TcpClient.System.{System, new_system, operate, react, run_end, Picks}
use ouge_net_lib.TcpClient.System.Invariant.{
  current, At, IsSound, Suits, new_system-IsSound, open_stage,
}
use ouge_net_lib.TcpClient.System.Steps.{run_end-IsSound}
use ouge_net_lib.TcpClient.System.Calls.{IsFor, operate-IsSound}
use ouge_net_lib.TcpClient.System.Events.{react-IsSound}

pub data Run (c : TcpClient) : System → Type 0 where
  here : Run c (new_system c)
  operates :
      {y z : System}
      → Run c y
      → (o : Operation) (channel : Channel) (input output : Buffer) → IsFor o y
      → operate o (new_connection channel input output) y ≡ ok z
      → Run c z
  reacts :
      {y z : System} {k : Connection}
      → Run c y
      → (e : Event) (fd errno : ℕ) (conn : Conn) (fresh : Connection)
      → y.conn_of conn.address ≡ some k
      → may_come k.state e ≡ true
      → react e fd errno conn fresh y ≡ ok z
      → Run c z
  runs :
      {y z : System} {conn : Conn} {rest : List Conn}
      → Run c y
      → Picks conn y.ends rest
      → run_end conn (record y { ends = rest }) ≡ ok z
      → Run c z

pub Run-IsSound :
    {c : TcpClient} {y : System} → IsValid c → c.connection ≡ none → Run c y → IsSound y
unfolding new_connection
Run-IsSound {c = c} v none_yet here = new_system-IsSound c v none_yet
Run-IsSound {y = z} v none_yet (operates {y = y} run o channel input output may e) =
    Ensures-ok (operate o (new_connection channel input output) y) IsSound z
      (operate-IsSound o (new_connection channel input output) y (Run-IsSound v none_yet run) refl
        may)
      e
Run-IsSound {y = z} v none_yet (reacts {y = y} {k = k} run event fd errno conn fresh there may e) =
    Ensures-ok (react event fd errno conn fresh y) IsSound z
      (react-IsSound event fd errno conn fresh k y (Run-IsSound v none_yet run) there may) e
Run-IsSound {y = z} v none_yet (runs {y = y} {conn = conn} {rest = rest} run p e) =
    let (z', e', sound) = run_end-IsSound conn rest y (Run-IsSound v none_yet run) p in
    Ensures-ok (ok z') IsSound z sound (sym e' ∙ e)

-- What `removeConnection` does after its two `assert`s.
abbrev pub removed : ℕ → ℕ → Conn → TcpClient → Result Done
removed fd errno conn c =
    if c.retry && c.connect
    then (do
      (k, es) ← restart fd errno c.connector
      ok (
        record c { connection = none; connector = k },
        queue_connect_destroyed conn ∷ by_connectors es,
      ))
    else ok (record c { connection = none }, queue_connect_destroyed conn ∷ [])

passes :
    (fd errno : ℕ) (a : ℕ) (o : Option Conn) (c : TcpClient)
    → c.connection ≡ o
    → IsAt c.loop o
    → current a o ≡ 1
    → (conn : Conn) × (c.connection ≡ some conn)
      × (conn.address ≡ a)
      × (remove_connection fd errno conn c ≡ removed fd errno conn c)
unfolding remove_connection
passes fd errno a none c there home h = absurd (omega (arith, h))
passes fd errno a (some conn) c there home h =
    let at_home : c.loop == conn.io_loop ≡ true = ground (arith, home) in
    let its_own : is_connection c.connection conn ≡ true =
      ap (λ o. is_connection o conn) there ∙ same_address conn.address in
    (conn, there, ground (arith, h), rw (at_home, its_own) refl)
  where
    same_address : (n : ℕ) → n == n ≡ true
    same_address n = ground arith

-- A well-formed client without a connection, after any order of its calls, its connector's callbacks, the
-- events of its connections and the ends of connections: where a connection is up it is the
-- client's, so that its close callback passes both `assert`s of `removeConnection`, whatever the system
-- calls give. A new connection takes an address where there is none, and one that is not up has no events
-- but `shutdown`, `forceClose`, what they queue, and a late `sendInLoop`.
pub Run-remove_connection :
    {c : TcpClient} {y : System} {k : Connection} (fd errno address : ℕ)
    → IsValid c
    → c.connection ≡ none
    → Run c y
    → y.conn_of address ≡ some k
    → is_open k.state ≡ true
    → (conn : Conn) × (y.client.connection ≡ some conn)
      × (conn.address ≡ address)
      × (remove_connection fd errno conn y.client ≡ removed fd errno conn y.client)
Run-remove_connection {y = y} {k = k} fd errno address v none_yet run there is_up =
    let sound = Run-IsSound v none_yet run in
    let w = sound.follows address in
    let st = open_stage w.stage k (subst (Suits w.stage) there w.at.2) is_up in
    let h = subst (λ s. At s address y) st w.at in
    passes fd errno address y.client.connection y.client refl sound.valid.at_loop h.0

-- Along the same runs every `connectDestroyed` that waits succeeds when it runs next: it finds a channel
-- without events, and the destructor after it the state disconnected.
pub Run-run_end :
    {c : TcpClient} {y : System} {conn : Conn} {rest : List Conn}
    → IsValid c
    → c.connection ≡ none
    → Run c y
    → Picks conn y.ends rest
    → (z : System) × (run_end conn (record y { ends = rest }) ≡ ok z)
Run-run_end {y = y} {conn = conn} {rest = rest} v none_yet run p =
    let (z, e, sound) = run_end-IsSound conn rest y (Run-IsSound v none_yet run) p in (z, e)
