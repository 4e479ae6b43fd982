-- ===== src/TcpConnection/Closing.antt =====
-- What the events and calls of a connection do to its state, and when it tells the server or the
-- client that it has closed.
use ouge_net_lib.Common.{
  ℕ, suc, ◌≡◌, refl, Bool, true, false, ◌⊎◌, inl, inr, List, [], ◌∷◌, arith, Result, ok, err,
  assert_failed, Ensures, Result-cases, Option, if◌then◌else◌,
}
use ouge_net_lib.Buffer.{Buffer}
use ouge_net_lib.Buffer.ReadFd.{ReadResult, read_fd}
use ouge_net_lib.Channel.{
  is_reading, disable_all, enable_reading, is_none_event, change, change_events,
}
use ouge_net_lib.TcpConnection.{
  State, is_disconnected, connecting, connected, connect_established, connect_destroyed, destroy,
  tie_channel, update_channel, remove_channel, connection_callback, disconnected, Connection,
  Effect, close_callback, Done, is_open, handle_close, shutdown, shutdown_in_loop, force_close,
  force_close_with_delay, force_close_in_loop, start_read_in_loop, stop_read_in_loop,
}
use ouge_net_lib.TcpConnection.Output.{
  WriteResult, send_in_loop, handle_write, handle_read, after_read, high_water, drained,
}
use ouge_net_lib.TcpConnection.Lifecycle.{
  Operation, shuts, shuts_in_loop, forces, forces_later, forces_in_loop, establishes, destroys,
  perform,
}

-- An event of the channel or a call of the user.
pub data Event : Type 0 where
  sends : List ℕ → WriteResult → Event
  writable : WriteResult → Event
  readable : (ℕ → ReadResult) → Event
  consumes : Buffer → Event  -- a callback of the user takes bytes from the input buffer
  does : Operation → Event

abbrev pub act : Event → Connection → Result Done
act (sends bytes w) c = send_in_loop bytes w c
act (writable w) c = handle_write w c
act (readable readv) c = handle_read readv c
act (consumes b) c = ok (record c { input_buffer = b }, [])
act (does o) c = perform o c

-- Those of the connection itself: `connectEstablished` and `connectDestroyed` are the server's.
abbrev pub is_own : Event → Bool
is_own (does establishes) = false
is_own (does destroys) = false
is_own _ = true

-- Those that may come while the connection is not up: they see its state first.
abbrev pub is_guarded : Event → Bool
is_guarded (does shuts) = true
is_guarded (does shuts_in_loop) = true
is_guarded (does forces) = true
is_guarded (does forces_later) = true
is_guarded (does forces_in_loop) = true
is_guarded _ = false

abbrev pub closings : List Effect → ℕ
closings [] = 0
closings (close_callback ∷ es) = suc (closings es)
closings (e ∷ es) = closings es

-- The connection stays up, or it goes down, waits for nothing and says so once.
abbrev pub StaysOrCloses : Done → Type 0
StaysOrCloses d =
    ((closings d.1 ≡ 0) × (is_open d.0.state ≡ true))
    ⊎ ((closings d.1 ≡ 1) × (d.0.state ≡ disconnected) × (is_none_event d.0.channel ≡ true))

send-StaysOrCloses :
    (bytes : List ℕ) (w : WriteResult) (c : Connection)
    → is_open c.state ≡ true
    → Ensures (send_in_loop bytes w c) StaysOrCloses
unfolding send_in_loop high_water
send-StaysOrCloses bytes w c up = ground (arith, up)

write-StaysOrCloses :
    (w : WriteResult) (c : Connection)
    → is_open c.state ≡ true
    → Ensures (handle_write w c) StaysOrCloses
unfolding handle_write drained shutdown_in_loop
write-StaysOrCloses w c up = ground (arith, up)

after_read-StaysOrCloses :
    (n : Option ℕ) (c : Connection)
    → is_open c.state ≡ true
    → Ensures (after_read n c) StaysOrCloses
unfolding after_read handle_close change change_events is_none_event
after_read-StaysOrCloses n c up = ground (arith, up)

read-StaysOrCloses :
    (readv : ℕ → ReadResult) (c : Connection)
    → is_open c.state ≡ true
    → Ensures (handle_read readv c) StaysOrCloses
unfolding handle_read
read-StaysOrCloses readv c up = elim (Result-cases (read_fd readv c.input_buffer)) [
  | inr failed ↦ rw failed.1 tt
  | inl got ↦
      let (r, e) = got in
      rw e (after_read-StaysOrCloses r.count (record c { input_buffer = r.after }) up)
]

does-StaysOrCloses :
    (o : Operation) (c : Connection)
    → is_open c.state ≡ true
    → is_own (does o) ≡ true
    → Ensures (perform o c) StaysOrCloses
unfolding handle_close shutdown shutdown_in_loop force_close force_close_with_delay
    force_close_in_loop start_read_in_loop stop_read_in_loop change change_events is_none_event
does-StaysOrCloses o c up own = ground (arith, up, own)

-- A connection that is up.
pub act-StaysOrCloses :
    (e : Event) (c : Connection)
    → is_open c.state ≡ true
    → is_own e ≡ true
    → Ensures (act e c) StaysOrCloses
act-StaysOrCloses (sends bytes w) c up own = send-StaysOrCloses bytes w c up
act-StaysOrCloses (writable w) c up own = write-StaysOrCloses w c up
act-StaysOrCloses (readable readv) c up own = read-StaysOrCloses readv c up
act-StaysOrCloses (consumes b) c up own = inl (refl, up)
act-StaysOrCloses (does o) c up own = does-StaysOrCloses o c up own

-- One that is not.
pub act_guarded :
    (e : Event) (c : Connection)
    → is_open c.state ≡ false
    → is_guarded e ≡ true
    → Ensures (act e c) (λ d. (d.0 ≡ c) × (closings d.1 ≡ 0))
unfolding shutdown shutdown_in_loop force_close force_close_with_delay force_close_in_loop
act_guarded (does o) c down late = ground (arith, down, late)
act_guarded _ c down late = absurd (ground (arith, late))

-- It is down and waits for nothing.
abbrev pub IsDown : Connection → Type 0
IsDown c = (c.state ≡ disconnected) × (is_none_event c.channel ≡ true)

-- The operations at both ends of its life.
pub establish_succeeds :
    (c : Connection)
    → c.state ≡ connecting
    → (d : Connection) × (is_open d.state ≡ true)
      × ((es : List Effect) × (connect_established c ≡ ok (d, es)))
unfolding connect_established
establish_succeeds c e = (
  record c { state = connected; channel = change enable_reading c.channel },
  refl,
  (tie_channel ∷ update_channel ∷ connection_callback ∷ [], ground (arith, e)),
)

pub finish_succeeds :
    (c : Connection)
    → IsDown c
    → (d : Connection) × IsDown d
      × ((es : List Effect) × (connect_destroyed c ≡ ok (d, es)))
      × (destroy d ≡ ok tt)
unfolding connect_destroyed destroy is_none_event
finish_succeeds c (e, idle) = (
  record c { channel = record (c.channel) { added_to_loop = false } },
  (e, idle),
  (remove_channel ∷ [], ground (arith, e, idle)),
  ground (arith, e),
)

-- What may come in a state: all of its own while a connection is up; else what looks at the state
-- first, and a message of another thread that comes late.
abbrev pub is_late : State → Event → Bool
is_late s (sends bytes w) = is_disconnected s
is_late s e = is_guarded e

abbrev pub may_come : State → Event → Bool
may_come s e = if is_open s then is_own e else is_late s e

send_late :
    (bytes : List ℕ) (w : WriteResult) (c : Connection)
    → is_disconnected c.state ≡ true
    → send_in_loop bytes w c ≡ ok (c, [])
unfolding send_in_loop
send_late bytes w c down = ground (arith, down)

-- Nothing that comes late changes a connection that is not up.
pub act_late :
    (e : Event) (c : Connection)
    → is_open c.state ≡ false
    → is_late c.state e ≡ true
    → Ensures (act e c) (λ d. (d.0 ≡ c) × (closings d.1 ≡ 0))
act_late (sends bytes w) c down late = rw (send_late bytes w c late) (refl, refl)
act_late e c down late = act_guarded e c down late

-- A connection that is up and that `handleClose` takes down: `connectDestroyed` after that succeeds, but
-- not where `startReadInLoop` runs between them, which enables reading again whatever the
-- state, so that the `assert` of `Channel::remove` fails.
pub handle_close-start_read_in_loop :
    (c : Connection)
    → is_open c.state ≡ true
    → (d : Connection) × ((es : List Effect) × (handle_close c ≡ ok (d, es)))
      × ((r : Done) × (connect_destroyed d ≡ ok r))
      × (connect_destroyed (start_read_in_loop d).0 ≡ err assert_failed)
unfolding handle_close start_read_in_loop connect_destroyed change change_events is_none_event
    is_reading
handle_close-start_read_in_loop c is_up =
    let d : Connection = record c {
      state = disconnected;
      channel = change disable_all c.channel;
    } in
    (
      d,
      (update_channel ∷ connection_callback ∷ close_callback ∷ [], ground (arith, is_up)),
      (
        (record d { channel = record (d.channel) { added_to_loop = false } }, remove_channel ∷ []),
        refl,
      ),
      ground arith,
    )
