-- ===== src/TcpConnection/Lifecycle/Runs.antt =====
-- What holds along every sequence of operations.
use ouge_net_lib.Common.{
  ℕ, ◌+◌, ◌≤◌, ◌≡◌, sym, ap, ap₂, ◌∙◌, false, List, [], ◌∷◌, ◌++◌, append-nil, append_assoc, arith,
  Result, ok, err, assert_failed, subst, Ensures,
}
use ouge_net_lib.Buffer.{Buffer}
use ouge_net_lib.Buffer.Valid.{contents}
use ouge_net_lib.Channel.{is_none_event}
use ouge_net_lib.TcpConnection.{
  connected, Connection, Effect, Done, connect_destroyed, shutdown, connection_callback,
}
use ouge_net_lib.TcpConnection.Output.{WriteResult, send_in_loop, handle_write, high_water}
use ouge_net_lib.TcpConnection.Stream.{IsValid, Streams, wire, wire-append}
use ouge_net_lib.TcpConnection.Stream.Send.{send_in_loop-Streams}
use ouge_net_lib.TcpConnection.Stream.Drain.{handle_write-Streams}
use ouge_net_lib.TcpConnection.Lifecycle.{
  Step, sends, writable, readable, consumes, performs, Run, here, next, rank, called, calls,
}
use ouge_net_lib.TcpConnection.Lifecycle.Moves.{Moves, perform-Moves, after_read-Moves}
use ouge_net_lib.TcpConnection.Receive.{input-IsValid, handle_read-after_read, counted}
use ouge_net_lib.Buffer.ReadFd.{offered}

-- The writes run no connection callback.
send_in_loop-calls :
    (bytes : List ℕ) (w : WriteResult) (c : Connection) {c' : Connection} {es : List Effect}
    → send_in_loop bytes w c ≡ ok (c', es)
    → calls es ≡ 0
unfolding send_in_loop high_water
send_in_loop-calls bytes w c e = ground arith

handle_write-calls :
    (w : WriteResult) (c : Connection) {c' : Connection} {es : List Effect}
    → handle_write w c ≡ ok (c', es)
    → calls es ≡ 0
unfolding handle_write
handle_write-calls w c e = ground arith

ok-injective : {a b : Done} → ok a ≡ ok b → a ≡ b
ok-injective h = cc

-- What one operation does, whichever it is.
record Stepped (c : Connection) (acc : List ℕ) (d : Done) : Type 0 where
  valid : IsValid d.0
  stream : wire d.1 ++ contents d.0.output_buffer ≡ contents c.output_buffer ++ acc
  forward : rank c.state ≤ rank d.0.state
  counted : called c.state + calls d.1 ≡ called d.0.state

Streams-Stepped :
    {r : Result Done} {c c' : Connection} {bytes acc : List ℕ} {es : List Effect}
    → Streams r c bytes
    → r ≡ ok (c', es)
    → acc ≡ bytes
    → calls es ≡ 0
    → Stepped c acc (c', es)
Streams-Stepped {r} {c} {c'} {bytes} {acc} {es} (c₁, es₁, e₁, v₁, same, stream) e a none_called =
    let p : (let q : Done = (c₁, es₁) in q) ≡ (c', es) = ok-injective (sym e₁ ∙ e) in
    subst (λ (d : Done). calls d.1 ≡ 0 → Stepped c acc d) p
      (λ n. record {
        valid = v₁;
        stream = stream ∙ ap (◌++◌ (contents c.output_buffer)) (sym a);
        forward = rw same (omega arith);
        counted = rw same (omega (arith, n));
      })
      none_called

Moves-Stepped : {c : Connection} (acc : List ℕ) (d : Done) → acc ≡ [] → Moves c d → Stepped c acc d
Moves-Stepped {c} acc d a m = record {
  valid = m.valid;
  stream =
      ap₂ (λ (ws : List ℕ) (b : Buffer). ws ++ contents b) m.no_wire m.output_kept
      ∙ sym (append-nil (contents c.output_buffer))
      ∙ ap (◌++◌ (contents c.output_buffer)) (sym a);
  forward = m.forward;
  counted = m.counted;
}

-- The input buffer plays no part in it.
with_input :
    (b : Buffer) {c : Connection} {acc : List ℕ} {d : Done}
    → Stepped (record c { input_buffer = b }) acc d
    → Stepped c acc d
with_input b s = record {
  valid = s.valid;
  stream = s.stream;
  forward = s.forward;
  counted = s.counted;
}

Step-Stepped :
    {c c' : Connection} {acc : List ℕ} {es : List Effect}
    → IsValid c
    → Step c c' acc es
    → Stepped c acc (c', es)
Step-Stepped {c} v (sends bytes w respects small fits e a) =
    Streams-Stepped (send_in_loop-Streams bytes w v respects small fits) e a
      (send_in_loop-calls bytes w c e)
Step-Stepped {c} v (writable w respects e a) =
    Streams-Stepped (handle_write-Streams w v respects) e a (handle_write-calls w c e)
Step-Stepped {c} {c'} {acc} {es} v (readable readv small respects e a) =
    let (b, bv, _, r) = handle_read-after_read readv v small respects in
    let moved = after_read-Moves (counted (readv (offered c.input_buffer))) (input-IsValid v bv) in
    with_input b (
      Moves-Stepped acc (c', es) a
        (subst (λ x. Ensures x (Moves (record c { input_buffer = b }))) (sym r ∙ e) moved))
Step-Stepped {c} {c'} {acc} {es} v (consumes b bv e n a) =
    rw (e, n, a)
      (record {
        valid = input-IsValid v bv;
        stream = sym (append-nil (contents c.output_buffer));
        forward = omega arith;
        counted = omega arith;
      })
Step-Stepped {c} {c'} {acc} {es} v (performs o e a) =
    Moves-Stepped acc (c', es) a (subst (λ r. Ensures r (Moves c)) e (perform-Moves o v))

-- Along any run of operations from a well-formed connection, in which system calls take and give no
-- more than they are given room for and the buffers do not outgrow the largest vector, the
-- invariant holds, and what went to the socket, with what waits at the end, is what waited at the
-- start with everything accepted since behind it: no byte is lost, repeated or moved.
pub Run-stream :
    {c c' : Connection} {acc : List ℕ} {es : List Effect}
    → IsValid c
    → Run c c' acc es
    → IsValid c' × (wire es ++ contents c'.output_buffer ≡ contents c.output_buffer ++ acc)
Run-stream {c} v here = (v, sym (append-nil (contents c.output_buffer)))
Run-stream {c} v
      (next {d = d} {d' = d'} {accepted_before = acc₁} {taken_in = acc₂} {before = es₁} {es = es₂} r
        s) =
    let (dv, before) = Run-stream v r in
    let after = Step-Stepped dv s in
    (
      after.valid,
      ap (λ (ws : List ℕ). ws ++ contents d'.output_buffer) (wire-append es₁ es₂)
          ∙ append_assoc (wire es₁) (wire es₂) (contents d'.output_buffer)
          ∙ ap (◌++◌ (wire es₁)) after.stream
          ∙ sym (append_assoc (wire es₁) (contents d.output_buffer) acc₂)
          ∙ ap (λ (ws : List ℕ). ws ++ acc₂) before
          ∙ append_assoc (contents c.output_buffer) acc₁ acc₂,
    )

calls-append : (es fs : List Effect) → calls (es ++ fs) ≡ calls es + calls fs
calls-append [] fs = omega arith
calls-append (connection_callback ∷ es) fs = omega (arith, calls-append es fs)
calls-append (e ∷ es) fs = calls-append es fs

-- Along any run of operations from a well-formed connection, with the same bounds on system calls
-- and buffers, the states only go forward, from connecting over connected and disconnecting to
-- disconnected, and the connection callback runs exactly once when the connection comes up and
-- once when it goes down.
pub Run-callbacks :
    {c c' : Connection} {acc : List ℕ} {es : List Effect}
    → IsValid c
    → Run c c' acc es
    → (rank c.state ≤ rank c'.state) × (called c.state + calls es ≡ called c'.state)
Run-callbacks v here = (omega arith, omega arith)
Run-callbacks v
      (next {d = d} {d' = d'} {accepted_before = acc₁} {taken_in = acc₂} {before = es₁} {es = es₂} r
        s) =
    let (on, count) = Run-callbacks v r in
    let after = Step-Stepped (Run-stream v r).0 s in
    (omega (arith, on, after.forward), omega (arith, count, after.counted, calls-append es₁ es₂))

-- `connectDestroyed` after `shutdown` of a connected connection whose channel waits for any event
-- fails an `assert`.
pub connect_destroyed-shutdown :
    (c : Connection)
    → c.state ≡ connected
    → is_none_event c.channel ≡ false
    → connect_destroyed (shutdown c).0 ≡ err assert_failed
unfolding connect_destroyed shutdown
connect_destroyed-shutdown c up busy = ground (arith, up, busy)
