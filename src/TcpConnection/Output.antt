-- ===== src/TcpConnection/Output.antt =====
-- `send`, `sendInLoop`, `handleWrite` and `handleRead`. What the socket answers to the one `write`
-- of an operation is an argument.
use ouge_net_lib.Common.{
  ℕ, Bool, false, ◌&&◌, ◌||◌, not, Option, none, some, List, [], ◌∷◌, ◌++◌, length, take, ltb, leb,
  ◌==◌, if◌then◌else◌, add_size, sub_size, Result, ok, ◌>>=◌, ◌>>◌, assert, read_at,
}
use ouge_net_lib.Buffer.{readable_bytes, append, retrieve}
use ouge_net_lib.Buffer.ReadFd.{ReadResult, read_fd}
use ouge_net_lib.Channel.{enable_writing, disable_writing, is_writing}
use ouge_net_lib.TcpConnection.{
  Connection, Effect, Done, wrote, update_channel, message_callback, report_error,
  queue_write_complete, queue_high_water, run_send, is_disconnected, is_connected, is_disconnecting,
  with_events, shutdown_in_loop, handle_close,
}

-- What `sockets::write` returns: how many bytes the socket took, or `errno`.
pub data WriteResult : Type 0 where
  taken : ℕ → WriteResult
  failed : ℕ → WriteResult

-- <errno.h>
abbrev pub errno_epipe : ℕ
errno_epipe = 32

abbrev pub errno_econnreset : ℕ
errno_econnreset = 104

-- The first `write` of `sendInLoop`: how much went out, whether the connection is broken, and what
-- was queued. The test for EWOULDBLOCK decides only whether a message is logged.
pub record Direct : Type 0 where
  pub nwrote : ℕ
  pub fault_error : Bool
  pub effects : List Effect

unfoldable pub direct_write : List ℕ → WriteResult → Connection → Direct
direct_write bytes (taken n) c = record {
  nwrote = n;
  fault_error = false;
  effects =
      wrote (take n bytes)
      ∷ (if sub_size (length bytes) n == 0 && c.write_complete_set
          then queue_write_complete ∷ []
          else []);
}
direct_write bytes (failed errno) c = record {
  nwrote = 0;
  fault_error = errno == errno_epipe || errno == errno_econnreset;
  effects = [];
}

abbrev pub no_write : Direct
no_write = record { nwrote = 0; fault_error = false; effects = [] }

-- Nothing waits to go out, so the socket may be tried at once.
unfoldable pub is_idle : Connection → Bool
unfolding readable_bytes
is_idle c = not (is_writing c.channel) && readable_bytes c.output_buffer == 0

-- The high-water callback is queued where the output buffer comes to reach the mark.
unfoldable pub high_water : ℕ → Connection → List Effect
unfolding readable_bytes
high_water remaining c =
    let old_len = readable_bytes c.output_buffer in
    if leb c.high_water_mark (add_size old_len remaining)
      && ltb old_len c.high_water_mark
      && c.high_water_mark_set
    then queue_high_water (add_size old_len remaining) ∷ []
    else []

-- What the socket has not taken goes to the output buffer, and the channel waits to write.
unfoldable pub buffer_rest : List ℕ → ℕ → ℕ → List Effect → Connection → Result Done
unfolding high_water
buffer_rest bytes nwrote remaining effects c = do
  let warned = high_water remaining c
  rest ← read_at nwrote remaining bytes
  output ← append rest remaining c.output_buffer
  let held = record c { output_buffer = output }
  ok (
      if is_writing c.channel
      then (held, effects ++ warned)
      else (with_events enable_writing held, effects ++ (warned ++ update_channel ∷ [])))

-- `sendInLoop` behind its first `write`.
unfoldable pub finish_send : List ℕ → Direct → Connection → Result Done
unfolding buffer_rest
finish_send bytes d c = do
  let remaining = sub_size (length bytes) d.nwrote
  assert (leb remaining (length bytes))
  (if not d.fault_error && ltb 0 remaining
      then buffer_rest bytes d.nwrote remaining d.effects c
      else ok (c, d.effects))

unfoldable pub send_in_loop : List ℕ → WriteResult → Connection → Result Done
unfolding direct_write is_idle finish_send
send_in_loop bytes w c =
    if is_disconnected c.state
    then ok (c, [])
    else finish_send bytes (if is_idle c then direct_write bytes w c else no_write) c

-- `send`: a call from the loop's thread, or from another one.
unfoldable pub send : Bool → List ℕ → WriteResult → Connection → Result Done
unfolding send_in_loop
send in_loop_thread bytes w c =
    if is_connected c.state
    then if in_loop_thread then send_in_loop bytes w c else ok (c, run_send bytes ∷ [])
    else ok (c, [])

-- What follows when the output buffer has run empty and writing is disabled.
unfoldable pub drained : Connection → List Effect
unfolding shutdown_in_loop
drained c =
    (if c.write_complete_set then queue_write_complete ∷ [] else [])
    ++ (if is_disconnecting c.state then (shutdown_in_loop c).1 else [])

unfoldable pub handle_write : WriteResult → Connection → Result Done
unfolding readable_bytes retrieve drained
handle_write (failed errno) c = ok (c, [])
handle_write (taken n) c =
    if is_writing c.channel && ltb 0 n
    then (do
      unsent ←
          read_at c.output_buffer.reader_index (readable_bytes c.output_buffer)
            c.output_buffer.buffer
      output ← retrieve n c.output_buffer
      let held = record c { output_buffer = output }
      let idle = with_events disable_writing held
      ok (
          if readable_bytes output == 0
          then (idle, wrote (take n unsent) ∷ update_channel ∷ drained idle)
          else (held, wrote (take n unsent) ∷ [])))
    else ok (c, [])

-- The branch of `handleRead` by the number of bytes that `readFd` returned.
unfoldable pub after_read : Option ℕ → Connection → Result Done
unfolding handle_close
after_read none c = ok (c, report_error ∷ [])
after_read (some n) c = if ltb 0 n then ok (c, message_callback ∷ []) else handle_close c

unfoldable pub handle_read : (ℕ → ReadResult) → Connection → Result Done
unfolding read_fd after_read
handle_read readv c = do
  r ← read_fd readv c.input_buffer
  after_read r.count (record c { input_buffer = r.after })
