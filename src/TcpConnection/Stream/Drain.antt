-- ===== src/TcpConnection/Stream/Drain.antt =====
-- `handleWrite`: the output buffer runs empty into the socket.
use ouge_net_lib.Common.{
  ℕ, ◌-◌, ◌≤◌, ◌<◌, ◌≡◌, inl, inr, refl, sym, ap, ap₂, ◌∙◌, true, false, ◌&&◌, List, [], ◌∷◌, ◌++◌,
  append-nil, arith, length, take, drop, take-append-drop, ltb, ◌==◌, Bool-cases, read_at_ok,
}
use ouge_net_lib.Buffer.{readable_bytes}
use ouge_net_lib.Buffer.Valid.{contents, readable-eq-length, readable_bytes_lem, retrieve_lem}
use ouge_net_lib.Channel.{disable_writing, is_writing}
use ouge_net_lib.Channel.Masks.{change-Waits}
use ouge_net_lib.TcpConnection.{Connection, Effect, wrote, update_channel, with_events}
use ouge_net_lib.TcpConnection.Output.{WriteResult, taken, failed, drained, handle_write}
use ouge_net_lib.TcpConnection.Stream.{wire, IsValid, Streams, Respects}

wire-drained : (c : Connection) → wire (drained c) ≡ []
unfolding drained
wire-drained c = ground arith

-- What went out and what stays make up what was held.
split_wire :
    (n : ℕ) (held : List ℕ) (es : List Effect) {rest : List ℕ}
    → wire es ≡ []
    → rest ≡ drop n held
    → (take n held ++ wire es) ++ rest ≡ held ++ []
split_wire n held es none_out e =
    ap₂ (λ (ws : List ℕ) (rs : List ℕ). (take n held ++ ws) ++ rs) none_out e
    ∙ ap (λ (ws : List ℕ). ws ++ drop n held) (append-nil (take n held))
    ∙ take-append-drop n held
    ∙ sym (append-nil held)

taken-Streams :
    (n : ℕ) {c : Connection}
    → IsValid c
    → n ≤ length (contents c.output_buffer)
    → is_writing c.channel ≡ true
    → 0 < n
    → Streams (handle_write (taken n) c) c []
unfolding handle_write
taken-Streams n {c} v respects waiting some_out =
    let b = c.output_buffer in
    let (out, e, ov, rest) = retrieve_lem n v.output respects in
    let read =
      read_at_ok b.reader_index (b.writer_index - b.reader_index) b.buffer
        (omega (arith, v.output)) in
    let count = readable_bytes_lem v.output in
    let left = readable-eq-length ov in
    let (r, w, f) = v.flags in
    let held = record c { output_buffer = out } in
    elim (Bool-cases (readable_bytes out == 0)) [
      | inl empty ↦
          let idle = with_events disable_writing held in
          (
            idle,
            wrote (take n (contents b)) ∷ update_channel ∷ drained idle,
            ground (arith, waiting, some_out, read, count, e, empty),
            record {
              input = v.input;
              output = ov;
              flags = (r, false, (change-Waits disable_writing f).0);
              writing = λ _. (change-Waits disable_writing f).2 ∙ ground (arith, left, empty);
            },
            refl,
            split_wire n (contents b) (update_channel ∷ drained idle) (wire-drained idle) rest,
          )
      | inr more ↦ (
        held,
        wrote (take n (contents b)) ∷ [],
        ground (arith, waiting, some_out, read, count, e, more),
        record {
          input = v.input;
          output = ov;
          flags = v.flags;
          writing = λ _. waiting ∙ ground (arith, left, more);
        },
        refl,
        split_wire n (contents b) [] refl rest,
      )
    ]

-- `handleWrite` of a well-formed connection, where the socket takes no more than it is given, succeeds, keeps the state and the invariant, and moves
-- bytes from the front of the output buffer to the socket.
pub handle_write-Streams :
    (w : WriteResult) {c : Connection}
    → IsValid c
    → Respects w (length (contents c.output_buffer))
    → Streams (handle_write w c) c []
unfolding handle_write
handle_write-Streams (failed errno) {c} v respects = (c, [], refl, v, refl, sym (append-nil _))
handle_write-Streams (taken n) {c} v respects =
    elim (Bool-cases (is_writing c.channel && ltb 0 n)) [
      | inl busy ↦ taken-Streams n v respects (ground (arith, busy)) (ground (arith, busy))
      | inr idle ↦ rw idle (c, [], refl, v, refl, sym (append-nil _))
    ]
