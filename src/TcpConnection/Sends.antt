-- ===== src/TcpConnection/Sends.antt =====
-- `send` of a whole buffer, and the calls that go to the loop by `runInLoop`.
use ouge_net_lib.Common.{
  ◌-◌, ◌≡◌, refl, ap, ◌∙◌, Bool, true, false, List, [], if◌then◌else◌, Result, ok, ◌>>=◌, arith,
  read_at, read_at_ok,
}
use ouge_net_lib.Buffer.{
  Buffer, readable_bytes, retrieve_all, retrieve_all_as_string, retrieve_as_string, retrieve,
}
use ouge_net_lib.Buffer.Valid.{contents, readable_bytes_lem, length-contents, retrieve_all_lem}
use ouge_net_lib.Buffer.Valid
use ouge_net_lib.TcpConnection.{
  Connection, Effect, Done, is_connected, start_read_in_loop, stop_read_in_loop,
}
use ouge_net_lib.TcpConnection.Output.{WriteResult, send_in_loop}

-- What `send` of a buffer leads to: it was sent, with the connection and the buffer behind it; or the
-- loop got a functor that holds the pointer to the buffer; or the connection was not up.
pub data Sending : Type 0 where
  sent : Connection → Buffer → List Effect → Sending
  queued not_connected : Sending

unfoldable pub send_buffer : Bool → Buffer → WriteResult → Connection → Result Sending
unfolding readable_bytes retrieve_all send_in_loop
send_buffer in_loop_thread b w c =
    if is_connected c.state
    then if in_loop_thread
      then (do
        bytes ← read_at b.reader_index (readable_bytes b) b.buffer
        (d, es) ← send_in_loop bytes w c
        ok (sent d (retrieve_all b) es))
      else ok queued
    else ok not_connected

-- The functor, when the loop runs it.
unfoldable pub send_queued : Buffer → WriteResult → Connection → Result Sending
unfolding retrieve_all_as_string send_in_loop
send_queued b w c = do
  (bytes, rest) ← retrieve_all_as_string b
  (d, es) ← send_in_loop bytes w c
  ok (sent d rest es)

-- `startRead` and `stopRead` in the loop's thread, where `runInLoop` runs them at once.
unfoldable pub start_read : Connection → Done
unfolding start_read_in_loop
start_read c = start_read_in_loop c

unfoldable pub stop_read : Connection → Done
unfolding stop_read_in_loop
stop_read c = stop_read_in_loop c

-- What both ways of sending a buffer come to.
abbrev pub Sends : Buffer → WriteResult → Connection → Result Sending → Type 0
Sends b w c r =
    r ≡ (send_in_loop (contents b) w c >>= λ (d : Done). ok (sent d.0 (retrieve_all b) d.1))

-- `send` of a well-formed buffer on a connection that is up sends exactly the unread bytes as
-- `sendInLoop` does, and leaves the buffer well-formed and empty: in the loop's thread at once, and
-- from another thread when the loop runs the functor, where the buffer is then as it was.
pub send_buffer-send_queued :
    (b : Buffer) (w : WriteResult) (c : Connection)
    → Valid.IsValid b
    → is_connected c.state ≡ true
    → Sends b w c (send_buffer true b w c)
      × (send_buffer false b w c ≡ ok queued)
      × Sends b w c (send_queued b w c)
      × Valid.IsValid (retrieve_all b)
      × (contents (retrieve_all b) ≡ [])
unfolding send_buffer send_queued retrieve_all_as_string retrieve_as_string retrieve retrieve_all
send_buffer-send_queued b w c v up =
    let count = readable_bytes_lem v in
    let read : read_at b.reader_index (readable_bytes b) b.buffer ≡ ok (contents b) =
      ap (λ n. read_at b.reader_index n b.buffer) count
      ∙ read_at_ok b.reader_index (b.writer_index - b.reader_index) b.buffer (omega (arith, v)) in
    let whole : retrieve_all_as_string b ≡ ok (contents b, retrieve_all b) = ground (arith, read) in
    (rw (up, read) refl, rw up refl, rw whole refl, (retrieve_all_lem v), refl)
