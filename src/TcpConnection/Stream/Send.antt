-- ===== src/TcpConnection/Stream/Send.antt =====
-- `sendInLoop`: what the socket takes at once, and what goes to the output buffer.
use ouge_net_lib.Common.{
  ℕ, ◌+◌, ◌-◌, ◌≤◌, ◌<◌, ◌≡◌, inl, inr, refl, sym, ap, ap₂, ◌∙◌, Bool, true, false, ◌&&◌, List, [],
  ◌∷◌, ◌++◌, append-nil, append_assoc, arith, length, take, drop, length-drop, take_all,
  take-append-drop, ltb, lt→ltb, length-append, ◌==◌, if◌then◌else◌, Bool-cases, sub_size, max_size,
  read_at_ok,
}
use native.Mathlib.Decide.{dec_lt}
use ouge_net_lib.Buffer.Valid.{contents, readable-eq-length}
use ouge_net_lib.Buffer.Grow.{Fits, append_lem}
use ouge_net_lib.Channel.{enable_writing, is_writing}
use ouge_net_lib.Channel.Masks.{change-Waits}
use ouge_net_lib.TcpConnection.{
  Connection, Effect, update_channel, queue_write_complete, is_disconnected, with_events,
}
use ouge_net_lib.TcpConnection.Output.{
  WriteResult, taken, failed, direct_write, is_idle, high_water, Direct, finish_send, buffer_rest,
  send_in_loop, no_write,
}
use ouge_net_lib.TcpConnection.Stream.{
  wire, wire-append, IsValid, Streams, Respects, is_broken, accepted,
}

-- The bytes behind the first `n`, held back after `es`.
joined :
    (n : ℕ) (bytes held : List ℕ) (es fs : List Effect)
    → wire fs ≡ []
    → wire es ++ held ≡ held ++ take n bytes
    → wire (es ++ fs) ++ (held ++ drop n bytes) ≡ held ++ bytes
joined n bytes held es fs none_out h =
    ap (λ (ws : List ℕ). ws ++ (held ++ drop n bytes))
      (wire-append es fs ∙ ap (◌++◌ (wire es)) none_out ∙ append-nil (wire es))
    ∙ sym (append_assoc (wire es) held (drop n bytes))
    ∙ ap (λ (ws : List ℕ). ws ++ drop n bytes) h
    ∙ append_assoc held (take n bytes) (drop n bytes)
    ∙ ap (◌++◌ held) (take-append-drop n bytes)

wire-high_water : (n : ℕ) (c : Connection) → wire (high_water n c) ≡ []
unfolding high_water
wire-high_water n c = ground arith

module _ {c : Connection} (v : IsValid c) (up : is_disconnected c.state ≡ false) where
  buffer_rest-Streams :
      (bytes : List ℕ) (n remaining : ℕ) (es : List Effect)
      → n + remaining ≡ length bytes
      → 0 < remaining
      → remaining ≤ max_size
      → Fits remaining c.output_buffer
      → wire es ++ contents c.output_buffer ≡ contents c.output_buffer ++ take n bytes
      → Streams (buffer_rest bytes n remaining es c) c bytes
  unfolding buffer_rest
  buffer_rest-Streams bytes n remaining es whole some_left small fits h =
      let rest = drop n bytes in
      let length-rest : length rest ≡ remaining = omega (arith, length-drop n bytes) in
      let (out, e, ov, held) =
        append_lem rest remaining v.output (omega (arith, length-rest)) small fits in
      let held' : contents out ≡ contents c.output_buffer ++ rest =
        held
        ∙ ap (◌++◌ (contents c.output_buffer))
            (take_all remaining rest (omega (arith, length-rest))) in
      let read = read_at_ok n remaining bytes (omega arith) in
      let piece : take remaining rest ≡ rest =
        take_all remaining rest (omega (arith, length-rest)) in
      let more : ltb 0 (length (contents out)) ≡ true = lt→ltb 0 _ (
        omega
          (arith, ap length held', length-append (contents c.output_buffer) rest, length-rest)) in
      let warned = high_water remaining c in
      let quiet = wire-high_water remaining c in
      let (r, w, f) = v.flags in
      elim (Bool-cases (is_writing c.channel)) [
        | inl already ↦ (
          record c { output_buffer = out },
          es ++ warned,
          ground (arith, read, piece, e, already),
          record {
            input = v.input;
            output = ov;
            flags = v.flags;
            writing = λ _. already ∙ sym more;
          },
          refl,
          ap (◌++◌ (wire (es ++ warned))) held' ∙ joined n bytes _ es warned quiet h,
        )
        | inr idle ↦ (
          with_events enable_writing (record c { output_buffer = out }),
          es ++ (warned ++ update_channel ∷ []),
          ground (arith, read, piece, e, idle),
          record {
            input = v.input;
            output = ov;
            flags = (r, true, (change-Waits enable_writing f).0);
            writing = λ _. (change-Waits enable_writing f).2 ∙ sym more;
          },
          refl,
          ap (◌++◌ (wire (es ++ (warned ++ update_channel ∷ [])))) held'
              ∙ joined n bytes _ es (warned ++ update_channel ∷ [])
                  (wire-append warned _ ∙ rw quiet) h,
        )
      ]

  finish_send-Streams :
      (bytes : List ℕ) (d : Direct)
      → d.fault_error ≡ false
      → d.nwrote ≤ length bytes
      → length bytes ≤ max_size
      → Fits (length bytes) c.output_buffer
      → wire d.effects ++ contents c.output_buffer ≡ contents c.output_buffer ++ take d.nwrote bytes
      → Streams (finish_send bytes d c) c bytes
  unfolding finish_send
  finish_send-Streams bytes d sound some_out small fits h =
      let remaining = length bytes - d.nwrote in
      let remaining_lem : sub_size (length bytes) d.nwrote ≡ remaining = omega arith in
      elim (dec_lt d.nwrote (length bytes)) [
        | yes more ↦
            let (c', es, e, v', same, stream) =
              buffer_rest-Streams bytes d.nwrote remaining d.effects (omega arith) (omega arith)
                (omega arith) (omega arith) h in
            (c', es, ground (arith, remaining_lem, sound, e), v', same, stream)
        | no done ↦ (
          c,
          d.effects,
          ground (arith, remaining_lem, sound),
          v,
          refl,
          h ∙ ap (◌++◌ (contents c.output_buffer)) (take_all d.nwrote bytes (omega arith)),
        )
      ]

-- Nothing waits in the output buffer of a connection that is idle.
contents-is_idle : {c : Connection} → IsValid c → is_idle c ≡ true → contents c.output_buffer ≡ []
unfolding is_idle
contents-is_idle {c} v h =
    eq_nil (contents c.output_buffer) (ground (arith, readable-eq-length v.output))
  where
    eq_nil : (xs : List ℕ) → length xs ≡ 0 → xs ≡ []
    eq_nil [] e = refl
    eq_nil (x ∷ xs) e = absurd (omega arith)

swap_wire :
    (xs : List ℕ) (es : List Effect) (held : List ℕ)
    → wire es ≡ []
    → held ≡ []
    → (xs ++ wire es) ++ held ≡ held ++ xs
swap_wire xs es held none_out empty =
    ap₂ (λ (ws : List ℕ) (hs : List ℕ). (xs ++ ws) ++ hs) none_out empty
    ∙ append-nil (xs ++ [])
    ∙ append-nil xs
    ∙ sym (ap (λ (hs : List ℕ). hs ++ xs) empty)

queued : (b : Bool) → wire (if b then queue_write_complete ∷ [] else []) ≡ []
queued true = refl
queued false = refl

direct-Streams :
    (bytes : List ℕ) (w : WriteResult) {c : Connection}
    → IsValid c
    → is_disconnected c.state ≡ false
    → is_idle c ≡ true
    → Respects w (length bytes)
    → length bytes ≤ max_size
    → Fits (length bytes) c.output_buffer
    → Streams (finish_send bytes (direct_write bytes w c) c) c (if is_broken w then [] else bytes)
unfolding direct_write
direct-Streams bytes (taken n) {c} v up idle respects small fits =
    finish_send-Streams v up bytes _ refl respects small fits (
      swap_wire (take n bytes)
        (if sub_size (length bytes) n == 0 && c.write_complete_set
          then queue_write_complete ∷ []
          else [])
        _ (queued (sub_size (length bytes) n == 0 && c.write_complete_set))
        (contents-is_idle v idle))
direct-Streams bytes (failed errno) {c} v up idle respects small fits =
    elim (Bool-cases (is_broken (failed errno))) [
      | inl broken ↦
          rw broken (c, [], unfold finish_send in ground arith, v, refl, sym (append-nil _))
      | inr alive ↦ rw alive (
          finish_send-Streams v up bytes no_write refl (omega arith) small fits
            (sym (append-nil _)))
    ]

-- `sendInLoop` succeeds on a well-formed connection if the bytes fit into the output buffer and the
-- socket takes no more than it is given. It keeps the state and the invariant, and what it accepts
-- follows, in order and once, what was accepted before.
pub send_in_loop-Streams :
    (bytes : List ℕ) (w : WriteResult) {c : Connection}
    → IsValid c
    → Respects w (length bytes)
    → length bytes ≤ max_size
    → Fits (length bytes) c.output_buffer
    → Streams (send_in_loop bytes w c) c (accepted bytes w c)
unfolding send_in_loop
send_in_loop-Streams bytes w {c} v respects small fits =
    elim (Bool-cases (is_disconnected c.state)) [
      | inl down ↦ rw down (c, [], refl, v, refl, sym (append-nil _))
      | inr up ↦ elim (Bool-cases (is_idle c)) [
        | inl idle ↦ rw (up, idle) (direct-Streams bytes w v up idle respects small fits)
        | inr busy ↦
            rw (up, busy)
              (finish_send-Streams v up bytes no_write refl (omega arith) small fits
                (sym (append-nil _)))
      ]
    ]
