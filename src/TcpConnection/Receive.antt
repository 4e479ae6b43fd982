-- ===== src/TcpConnection/Receive.antt =====
-- `handleRead`: what arrives goes to the input buffer and to the message callback, and the end of
-- the stream closes the connection.
use ouge_net_lib.Common.{
  ℕ, ◌+◌, ◌≤◌, ◌≡◌, refl, sym, ap, ◌∙◌, true, List, [], ◌∷◌, ◌++◌, append-nil, arith, length,
  Option, none, some, ok, max_size, lt→ltb,
}
use ouge_net_lib.Buffer.Valid.{contents}
use ouge_net_lib.Buffer.Valid
use ouge_net_lib.Buffer.ReadFd.{
  ReadResult, got, failed, ReadFd, read_fd, offered, extra_size, read_fd_got, read_fd_failed,
  Respects as ReadRespects,
}
use ouge_net_lib.Buffer.{Buffer}
use ouge_net_lib.Channel.{is_none_event, disable_all, change, change_events}
use ouge_net_lib.TcpConnection.{
  Connection, Effect, disconnected, is_open, with_events, handle_close, update_channel,
  connection_callback, close_callback, message_callback, report_error,
}
use ouge_net_lib.TcpConnection.Output.{after_read, handle_read}
use ouge_net_lib.TcpConnection.Stream.{IsValid}
use ouge_net_lib.TcpConnection.Lifecycle.Moves.{down-IsValid}

-- The bytes that the system call put into the blocks.
abbrev pub arrived : ReadResult → List ℕ
arrived (got bytes) = bytes
arrived (failed errno) = []

-- What `readFd` returns: -1 for a failure, and else the number of bytes.
abbrev pub counted : ReadResult → Option ℕ
counted (got bytes) = some (length bytes)
counted (failed errno) = none

-- `readFd` succeeds on a well-formed buffer, whatever the system call returns.
pub read_fd-arrived :
    (readv : ℕ → ReadResult) {c : Connection}
    → IsValid c
    → length c.input_buffer.buffer + extra_size ≤ max_size
    → ReadRespects (readv (offered c.input_buffer)) (offered c.input_buffer)
    → (r : ReadFd) × (read_fd readv c.input_buffer ≡ ok r)
      × Valid.IsValid r.after
      × (contents r.after ≡ contents c.input_buffer ++ arrived (readv (offered c.input_buffer)))
      × (r.count ≡ counted (readv (offered c.input_buffer)))
read_fd-arrived readv {c} v small respects = by_result (readv (offered c.input_buffer)) refl
  where
    by_result :
        (x : ReadResult)
        → readv (offered c.input_buffer) ≡ x
        → (r : ReadFd) × (read_fd readv c.input_buffer ≡ ok r)
          × Valid.IsValid r.after
          × (contents r.after ≡ contents c.input_buffer ++ arrived (readv (offered c.input_buffer)))
          × (r.count ≡ counted (readv (offered c.input_buffer)))
    by_result (got bytes) e =
        let (r, done, rv, held, count, _) = read_fd_got readv bytes v.input small respects e in
        (r, done, rv, rw e held, rw e count)
    by_result (failed errno) e = (
      record { after = c.input_buffer; count = none; saved_errno = some errno },
      read_fd_failed readv errno c.input_buffer e,
      v.input,
      rw e (sym (append-nil (contents c.input_buffer))),
      rw e refl,
    )

-- The connection with another input buffer.
pub input-IsValid :
    {c : Connection} {b : Buffer}
    → IsValid c
    → Valid.IsValid b
    → IsValid (record c { input_buffer = b })
input-IsValid v bv = record { input = bv; output = v.output; flags = v.flags; writing = v.writing }

-- `handleRead` is `readFd` and then a branch on what it returned.
pub handle_read-after_read :
    (readv : ℕ → ReadResult) {c : Connection}
    → IsValid c
    → length c.input_buffer.buffer + extra_size ≤ max_size
    → ReadRespects (readv (offered c.input_buffer)) (offered c.input_buffer)
    → (b : Buffer) × Valid.IsValid b
      × (contents b ≡ contents c.input_buffer ++ arrived (readv (offered c.input_buffer)))
      × (handle_read readv c
          ≡ after_read (counted (readv (offered c.input_buffer))) (record c { input_buffer = b }))
unfolding handle_read
handle_read-after_read readv {c} v small respects =
    let (r, done, rv, held, count) = read_fd-arrived readv v small respects in
    (
      r.after,
      rv,
      held,
      rw done (ap (λ n. after_read n (record c { input_buffer = r.after })) count),
    )

-- What a read of an open connection leads to, by what the system call returned: the end of the
-- stream takes it down, with both callbacks; bytes stay in the input buffer and reach the message
-- callback; a failure is reported.
abbrev pub Received : ReadResult → Connection → Connection → List Effect → Type 0
Received (got []) c c' es =
    (es ≡ update_channel ∷ connection_callback ∷ close_callback ∷ [])
    × (c'.state ≡ disconnected)
    × (is_none_event c'.channel ≡ true)
Received (got (x ∷ xs)) c c' es =
    (es ≡ message_callback ∷ []) × (c'.state ≡ c.state) × (c'.channel ≡ c.channel)
Received (failed errno) c c' es =
    (es ≡ report_error ∷ []) × (c'.state ≡ c.state) × (c'.channel ≡ c.channel)

-- `handleRead` of a well-formed open connection whose input buffer may grow by the second block
-- succeeds, whatever `readv` returns within the room that it is given: the bytes that arrived stand behind those that were unread, the output buffer is
-- kept, and what follows depends on the result as `Received` says.
pub handle_read-Received :
    (readv : ℕ → ReadResult) {c : Connection}
    → IsValid c
    → is_open c.state ≡ true
    → length c.input_buffer.buffer + extra_size ≤ max_size
    → ReadRespects (readv (offered c.input_buffer)) (offered c.input_buffer)
    → (c' : Connection) × (es : List Effect) × (handle_read readv c ≡ ok (c', es))
      × IsValid c'
      × (contents c'.input_buffer
          ≡ contents c.input_buffer ++ arrived (readv (offered c.input_buffer)))
      × (c'.output_buffer ≡ c.output_buffer)
      × Received (readv (offered c.input_buffer)) c c' es
unfolding after_read change change_events is_none_event handle_close
handle_read-Received readv {c} v up small respects =
    let (b, bv, held, e) = handle_read-after_read readv v small respects in
    by_result (readv (offered c.input_buffer)) b bv held e
  where
    by_result :
        (x : ReadResult) (b : Buffer)
        → Valid.IsValid b
        → contents b ≡ contents c.input_buffer ++ arrived x
        → handle_read readv c ≡ after_read (counted x) (record c { input_buffer = b })
        → (c' : Connection) × (es : List Effect) × (handle_read readv c ≡ ok (c', es))
          × IsValid c'
          × (contents c'.input_buffer ≡ contents c.input_buffer ++ arrived x)
          × (c'.output_buffer ≡ c.output_buffer)
          × Received x c c' es
    by_result (got []) b bv held e = (
      with_events disable_all (record c { input_buffer = b; state = disconnected }),
      update_channel ∷ connection_callback ∷ close_callback ∷ [],
      e ∙ rw up refl,
      down-IsValid (input-IsValid v bv),
      held,
      refl,
      (refl, refl, refl),
    )
    by_result (got (x ∷ xs)) b bv held e = (
      record c { input_buffer = b },
      message_callback ∷ [],
      e ∙ rw (lt→ltb 0 (length (x ∷ xs)) (omega arith)) refl,
      input-IsValid v bv,
      held,
      refl,
      (refl, refl, refl),
    )
    by_result (failed errno) b bv held e = (
      record c { input_buffer = b },
      report_error ∷ [],
      e,
      input-IsValid v bv,
      held,
      refl,
      (refl, refl, refl),
    )
