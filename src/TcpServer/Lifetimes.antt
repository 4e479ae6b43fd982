-- ===== src/TcpServer/Lifetimes.antt =====
-- Along every sequence of operations each connection is established once and destroyed once.
use ouge_net_lib.Common.{
  ℕ, ◌+◌, ◌^◌, ◌<◌, ◌≡◌, refl, ap, ◌∙◌, subst, true, false, Bool-cases, inl, inr, ◌⊎◌, ◌&&◌, List,
  [], ◌∷◌, ◌++◌, length, ltb, leb, arith, lt→ltb, if◌then◌else◌, ok, err, assert_failed, Ensures-ok,
}
use ouge_net_lib.EventLoopThreadPool.{EventLoopThreadPool, get_next_loop, is_empty}
use ouge_net_lib.EventLoopThreadPool.Rounds.{nth_exists}
use ouge_net_lib.TcpServer.{
  Conn, TcpServer, connect_established, connect_destroyed, Task, Effect, run_in_loop, queue_in_loop,
  thread_init, is_text, is_text_before, new_conn, conn_name, put_connection, erase_connection,
  new_connection, remove_in_loop, destroy_connections, destroy,
}
use ouge_net_lib.TcpServer.Names.{is_text_refl}
use ouge_net_lib.TcpServer.Connections.{one_if, live, IsFresh}
use ouge_net_lib.TcpServer.Tasks.{
  total, established, destroyed, establishes, destroys, IsAtHome, IsValid, Keeps,
}
use ouge_net_lib.TcpServer.Runs.{Operation, perform, perform-Keeps, conn_name-IsFresh}

pub data Run (s : TcpServer) : TcpServer → List Effect → Type 0 where
  here : Run s s []
  next :
      {d d' : TcpServer} {before es : List Effect}
      → Run s d before
      → (o : Operation) → perform o d ≡ ok (d', es)
      → Run s d' (before ++ es)

total-append : (f : Task → ℕ) (es fs : List Effect) → total f (es ++ fs) ≡ total f es + total f fs
total-append f [] fs = omega arith
total-append f (run_in_loop l t ∷ es) fs = omega (arith, total-append f es fs)
total-append f (queue_in_loop l t ∷ es) fs = omega (arith, total-append f es fs)
total-append f (thread_init ∷ es) fs = total-append f es fs

home-append :
    (home : ℕ) (es fs : List Effect)
    → IsAtHome home es
    → IsAtHome home fs
    → IsAtHome home (es ++ fs)
home-append home [] fs h g = g
home-append home (run_in_loop l t ∷ es) fs h g = (h.0, home-append home es fs h.1 g)
home-append home (queue_in_loop l t ∷ es) fs h g = (h.0, home-append home es fs h.1 g)
home-append home (thread_init ∷ es) fs h g = home-append home es fs h g

join_runs :
    (s d d' : TcpServer) (before es : List Effect)
    → Keeps s (d, before)
    → Keeps d (d', es)
    → Keeps s (d', before ++ es)
join_runs s d d' before es first last = record {
  valid = last.valid;
  balance = λ x. omega (
    arith,
    first.balance x,
    last.balance x,
    total-append (establishes x) before es,
    total-append (destroys x) before es,
  );
  gives = λ id small.
      let x = conn_name s.name s.ip_port id in
      let again : established x es ≡ one_if (leb d.next_conn_id id && ltb id d'.next_conn_id) =
        subst
          (λ n.
            established (conn_name n s.ip_port id) es
            ≡ one_if (leb d.next_conn_id id && ltb id d'.next_conn_id))
          (first.same_name)
          (subst
            (λ a.
              established (conn_name d.name a id) es
              ≡ one_if (leb d.next_conn_id id && ltb id d'.next_conn_id))
            (first.same_ip_port) (last.gives id small)) in
      total-append (establishes x) before es
      ∙ ground (arith, again, first.gives id small, first.grows, last.grows);
  grows = omega (arith, first.grows, last.grows);
  same_name = last.same_name ∙ first.same_name;
  same_ip_port = last.same_ip_port ∙ first.same_ip_port;
  same_loop = last.same_loop ∙ first.same_loop;
  at_home =
      home-append s.loop before es first.at_home
        (subst (λ l. IsAtHome l es) first.same_loop last.at_home);
}

pub Run-Keeps : {s s' : TcpServer} {es : List Effect} → IsValid s → Run s s' es → Keeps s (s', es)
Run-Keeps {s} v here = record {
  valid = v;
  balance = λ x. omega arith;
  gives = λ id small. ground arith;
  grows = omega arith;
  same_name = refl;
  same_ip_port = refl;
  same_loop = refl;
  at_home = tt;
}
Run-Keeps {s} v (next {d} {d'} {before} {es} run o e) =
    let first = Run-Keeps v run in
    join_runs s d d' before es first
      (Ensures-ok (perform o d) (Keeps d) (d', es) (perform-Keeps o d first.valid) e)

destroys_live : (x : List ℕ) (cs : List Conn) → destroyed x (destroy_connections cs) ≡ live x cs
unfolding destroy_connections
destroys_live x [] = refl
destroys_live x (c ∷ cs) = ap (λ n. one_if (is_text x c.name) + n) (destroys_live x cs)

-- Along any operations of a well-formed server without connections, in any order that passes their
-- `assert`s, and its destructor at the end: the connection with a number `id` below 2^31 is
-- established exactly once where the server gave that number out and never where it did not, and is
-- destroyed exactly as often as it is established, whether it was removed before or not. Each task of
-- a connection before the destructor goes to the loop of that connection.
pub Run-lifetimes :
    {s s' : TcpServer} {es : List Effect} (id : ℕ)
    → IsValid s
    → s.connections ≡ []
    → Run s s' es
    → id < 2 ^ 31
    → (established (conn_name s.name s.ip_port id) es
        ≡ one_if (leb s.next_conn_id id && ltb id s'.next_conn_id))
      × (destroyed (conn_name s.name s.ip_port id) (es ++ destroy s')
          ≡ established (conn_name s.name s.ip_port id) es)
      × IsAtHome s.loop es
unfolding destroy
Run-lifetimes {s} {s'} {es} id v none_yet run small =
    let all = Run-Keeps v run in
    let x = conn_name s.name s.ip_port id in
    let empty : live x s.connections ≡ 0 = rw none_yet refl in
    (
      all.gives id small,
      omega (
        arith,
        total-append (destroys x) es (destroy_connections s'.connections),
        destroys_live x s'.connections,
        all.balance x,
        empty,
      ),
      all.at_home,
    )

-- A pool that hands out loops.
abbrev pub IsReady : EventLoopThreadPool → Type 0
IsReady p = (p.started ≡ true) × ((p.next ≡ 0) ⊎ (p.next < length p.loops))

get_next_loop-ready :
    (p : EventLoopThreadPool)
    → IsReady p
    → (l : ℕ) × (q : EventLoopThreadPool) × (get_next_loop p ≡ ok (l, q))
unfolding get_next_loop
get_next_loop-ready p ready = elim (Bool-cases (is_empty p.loops)) [
  | inl bare ↦ (p.base_loop, p, ground (arith, ready, bare))
  | inr full ↦
      let inside : p.next < length p.loops = in_range p.loops p.next full ready.1 in
      let (l, there, rest) = nth_exists p.loops p.next inside in
      (
        l,
        record p { next = if leb (length p.loops) (p.next + 1) then 0 else p.next + 1 },
        ground (arith, ready.0, full, there),
      )
]
  where
    in_range :
        (ls : List ℕ) (n : ℕ) → is_empty ls ≡ false → (n ≡ 0) ⊎ (n < length ls) → n < length ls
    in_range [] n full h = absurd (ground (arith, full))
    in_range (l ∷ ls) n full h = ground (arith, h)

erase-put_connection :
    (c : Conn) (cs : List Conn)
    → IsFresh c.name cs
    → erase_connection c.name (put_connection c cs) ≡ (1, cs)
erase-put_connection c [] f = rw (is_text_refl c.name) refl
erase-put_connection c (d ∷ cs) f = elim (Bool-cases (is_text_before c.name d.name)) [
  | inl b ↦ rw (f.0, b, is_text_refl c.name) refl
  | inr nb ↦ rw (f.0, nb, f.0, erase-put_connection c cs f.1) refl
]

erase_fresh : (x : List ℕ) (cs : List Conn) → IsFresh x cs → erase_connection x cs ≡ (0, cs)
erase_fresh x [] f = refl
erase_fresh x (c ∷ cs) f = rw (f.0, erase_fresh x cs f.1) refl

-- A started, well-formed server that has not given out all numbers accepts a connection without a
-- failed `assert`, and gives it to a loop of the pool. The removal of that connection succeeds and
-- brings the map back to what it was, and a second removal fails the `assert`.
pub new_connection-remove_in_loop :
    (sockfd : ℕ) (s : TcpServer)
    → IsValid s
    → IsReady s.thread_pool
    → s.next_conn_id + 1 < 2 ^ 31
    → (conn : Conn) × (r t : TcpServer) × (new_connection sockfd s
        ≡ ok (r, run_in_loop conn.io_loop (connect_established conn) ∷ []))
      × (remove_in_loop conn r ≡ ok (t, queue_in_loop conn.io_loop (connect_destroyed conn) ∷ []))
      × (t.connections ≡ s.connections)
      × (remove_in_loop conn t ≡ err assert_failed)
unfolding new_connection remove_in_loop
new_connection-remove_in_loop sockfd s v ready room =
    let (l, q, got) = get_next_loop-ready s.thread_pool ready in
    let conn = new_conn (conn_name s.name s.ip_port s.next_conn_id) sockfd l in
    let fresh : IsFresh conn.name s.connections =
      conn_name-IsFresh s.name s.ip_port s.next_conn_id s.connections v.short v.small v.numbered in
    let gone : TcpServer = record s { thread_pool = q; next_conn_id = s.next_conn_id + 1 } in
    (
      conn,
      record gone { connections = put_connection conn s.connections },
      gone,
      rw (got, lt→ltb (s.next_conn_id + 1) (2 ^ 31) room) refl,
      rw (erase-put_connection conn s.connections fresh) refl,
      refl,
      rw (erase_fresh conn.name s.connections fresh) refl,
    )
