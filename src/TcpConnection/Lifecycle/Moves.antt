-- ===== src/TcpConnection/Lifecycle/Moves.antt =====
-- What each operation other than a write does to the state, the flags and the callbacks.
use ouge_net_lib.Common.{
  ℕ, ◌+◌, ◌≤◌, ◌≡◌, refl, sym, ◌∙◌, Bool, true, false, [], arith, Bool-cases, inl, inr, Option,
  some, none, Ensures,
}
use mathlib.Core.Bool.{true≢false}
use ouge_net_lib.Channel.{Change, enable_reading, disable_reading, disable_all, is_writing}
use ouge_net_lib.Channel.Masks.{change-Waits, is_writing-Waits, reads_after, writes_after}
use ouge_net_lib.TcpConnection.{
  State, disconnected, connecting, connected, disconnecting, Connection, Done, is_disconnected,
  is_connected, is_open, with_events, connect_established, connect_destroyed, handle_close,
  shutdown, shutdown_in_loop, force_close, force_close_with_delay, force_close_in_loop,
  start_read_in_loop, stop_read_in_loop,
}
use ouge_net_lib.TcpConnection.Output.{after_read}
use ouge_net_lib.TcpConnection.Stream.{IsValid, wire}
use ouge_net_lib.TcpConnection.Lifecycle.{
  Operation, shuts, shuts_in_loop, forces, forces_later, forces_in_loop, starts_read, stops_read,
  establishes, closes, destroys, perform, rank, called, calls,
}

-- What an operation other than a write does.
pub record Moves (c : Connection) (r : Done) : Type 0 where
  pub valid : IsValid r.0
  pub output_kept : r.0.output_buffer ≡ c.output_buffer
  pub no_wire : wire r.1 ≡ []
  pub forward : rank c.state ≤ rank r.0.state
  pub counted : called c.state + calls r.1 ≡ called r.0.state

-- A change of what the channel reads keeps the invariant; so does one that goes down.
reading-IsValid :
    (k : Change) (s : State) {c : Connection}
    → ((w : Bool) → writes_after k w ≡ w)
    → (is_disconnected s ≡ false → is_disconnected c.state ≡ false)
    → IsValid c
    → IsValid (with_events k (record c { state = s }))
reading-IsValid k s {c} same up v =
    let (r, w, f) = v.flags in
    let (after, _, writes, _) = change-Waits k f in
    record {
      input = v.input;
      output = v.output;
      flags = (reads_after k r, writes_after k w, after);
      writing = λ h. writes ∙ same w ∙ sym (is_writing-Waits f) ∙ v.writing (up h);
    }

pub down-IsValid :
    {c : Connection}
    → IsValid c
    → IsValid (with_events disable_all (record c { state = disconnected }))
down-IsValid {c} v =
    let (r, w, f) = v.flags in
    record {
      input = v.input;
      output = v.output;
      flags = (false, false, (change-Waits disable_all f).0);
      writing = λ h. absurd (true≢false h);
    }

state-IsValid :
    (s : State) {c : Connection}
    → (is_disconnected s ≡ false → is_disconnected c.state ≡ false)
    → IsValid c
    → IsValid (record c { state = s })
state-IsValid s up v = record {
  input = v.input;
  output = v.output;
  flags = v.flags;
  writing = λ h. v.writing (up h);
}

connect_established-Moves : {c : Connection} → IsValid c → Ensures (connect_established c) (Moves c)
unfolding connect_established
connect_established-Moves {c} v = by_state c.state refl
  where
    by_state : (s : State) → c.state ≡ s → Ensures (connect_established c) (Moves c)
    by_state connecting e =
        rw (e, connect_established)
          (record {
            valid = reading-IsValid enable_reading connected (λ w. refl) (λ h. rw e) v;
            output_kept = refl;
            no_wire = refl;
            forward = omega arith;
            counted = refl;
          })
    by_state connected e = rw (e, connect_established) tt
    by_state disconnecting e = rw (e, connect_established) tt
    by_state disconnected e = rw (e, connect_established) tt

-- `Channel::remove` clears a mark that the invariant does not speak of.
unmark-IsValid :
    {c : Connection}
    → IsValid c
    → IsValid (record c { channel = record (c.channel) { added_to_loop = false } })
unfolding is_writing
unmark-IsValid {c} v =
    let (r, w, f) = v.flags in
    record {
      input = v.input;
      output = v.output;
      flags = (r, w, record { events_eq = f.events_eq });
      writing = v.writing;
    }

connect_destroyed-Moves : {c : Connection} → IsValid c → Ensures (connect_destroyed c) (Moves c)
unfolding connect_destroyed
connect_destroyed-Moves {c} v = elim (Bool-cases (is_connected c.state)) [
  | inl up ↦
      let valid = unmark-IsValid (down-IsValid v) in
      rw (up, connect_destroyed) (ground (arith, valid, up))
  | inr other ↦
      let valid = unmark-IsValid v in rw (other, connect_destroyed) (ground (arith, valid, other))
]

handle_close-Moves : {c : Connection} → IsValid c → Ensures (handle_close c) (Moves c)
unfolding handle_close
handle_close-Moves {c} v = ground (arith, down-IsValid v)

open_up : (s : State) → is_open s ≡ true → is_disconnected s ≡ false
open_up s h = ground arith

-- The three operations that begin to close keep a closed connection as it is.
shutdown-Moves : {c : Connection} → IsValid c → Moves c (shutdown c)
unfolding shutdown
shutdown-Moves {c} v = elim (Bool-cases (is_connected c.state)) [
  | inl up ↦
      let valid = state-IsValid disconnecting (λ _. ground (arith, up)) v in
      rw (up, shutdown) (ground (arith, valid, up))
  | inr other ↦ rw (other, shutdown) (ground (arith, v))
]

force_close-Moves :
    {c : Connection} → IsValid c → Moves c (force_close c) × Moves c (force_close_with_delay c)
unfolding force_close force_close_with_delay
force_close-Moves {c} v = elim (Bool-cases (is_open c.state)) [
  | inl up ↦
      let valid = state-IsValid disconnecting (λ _. open_up c.state up) v in
      (
        rw (up, force_close) (ground (arith, valid, up)),
        rw (up, force_close_with_delay) (ground (arith, valid, up)),
      )
  | inr other ↦ (
    rw (other, force_close) (ground (arith, v)),
    rw (other, force_close_with_delay) (ground (arith, v)),
  )
]

force_close_in_loop-Moves : {c : Connection} → IsValid c → Ensures (force_close_in_loop c) (Moves c)
unfolding force_close_in_loop
force_close_in_loop-Moves {c} v = elim (Bool-cases (is_open c.state)) [
  | inl up ↦ rw (up, force_close_in_loop) (ground (arith, down-IsValid v, up))
  | inr other ↦ rw (other, force_close_in_loop) (ground (arith, v))
]

read_flag-IsValid :
    (k : Change) (reading : Bool) {c : Connection}
    → ((w : Bool) → writes_after k w ≡ w)
    → IsValid c
    → IsValid (record (with_events k c) { reading = reading })
read_flag-IsValid k reading {c} same v =
    let kept = reading-IsValid k c.state same (λ h. h) v in
    record { input = kept.input; output = kept.output; flags = kept.flags; writing = kept.writing }

start_read_in_loop-Moves : {c : Connection} → IsValid c → Moves c (start_read_in_loop c)
unfolding start_read_in_loop
start_read_in_loop-Moves {c} v =
    ground (arith, v, read_flag-IsValid enable_reading true (λ w. refl) v)

stop_read_in_loop-Moves : {c : Connection} → IsValid c → Moves c (stop_read_in_loop c)
unfolding stop_read_in_loop
stop_read_in_loop-Moves {c} v =
    ground (arith, v, read_flag-IsValid disable_reading false (λ w. refl) v)

pub after_read-Moves :
    (n : Option ℕ) {c : Connection} → IsValid c → Ensures (after_read n c) (Moves c)
unfolding after_read
after_read-Moves none {c} v = ground (arith, v)
after_read-Moves (some n) {c} v = ground (arith, v, down-IsValid v)

shutdown_in_loop-Moves : {c : Connection} → IsValid c → Moves c (shutdown_in_loop c)
unfolding shutdown_in_loop
shutdown_in_loop-Moves {c} v = ground (arith, v)

pub perform-Moves : (o : Operation) {c : Connection} → IsValid c → Ensures (perform o c) (Moves c)
perform-Moves shuts v = shutdown-Moves v
perform-Moves shuts_in_loop v = shutdown_in_loop-Moves v
perform-Moves forces v = (force_close-Moves v).0
perform-Moves forces_later v = (force_close-Moves v).1
perform-Moves forces_in_loop v = force_close_in_loop-Moves v
perform-Moves starts_read v = start_read_in_loop-Moves v
perform-Moves stops_read v = stop_read_in_loop-Moves v
perform-Moves establishes v = connect_established-Moves v
perform-Moves closes v = handle_close-Moves v
perform-Moves destroys v = connect_destroyed-Moves v
