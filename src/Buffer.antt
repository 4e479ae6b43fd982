-- ===== src/Buffer.antt =====
-- net/Buffer.h and net/Buffer.cc: bytes are read at the front and written at the back of one
-- vector. A pointer into the vector is its index; a failed `assert` and an exception are faults.
pub mod Valid
pub mod Grow
pub mod Front
pub mod Shrink
pub mod ReadFd
pub mod Ints
pub mod Search
pub mod Refine
mod Examples
use ouge_net_lib.Common.{
  ℕ, ◌+◌, ◌-◌, ◌^◌, ◌%◌, List, [], length, drop, ltb, leb, ◌==◌, if◌then◌else◌, add_size, sub_size,
  Result, ok, ◌>>=◌, ◌>>◌, assert, read_at, copy_to, resize,
}
use ouge_net_lib.StringPiece.{StringPiece, size_of_int}

pub record Buffer : Type 0 where
  pub buffer : List ℕ
  pub reader_index : ℕ
  pub writer_index : ℕ

abbrev pub cheap_prepend : ℕ
cheap_prepend = 8

abbrev pub initial_size : ℕ
initial_size = 1024

unfoldable pub readable_bytes : Buffer → ℕ
readable_bytes b = sub_size b.writer_index b.reader_index

unfoldable pub writable_bytes : Buffer → ℕ
writable_bytes b = sub_size (length b.buffer) b.writer_index

unfoldable pub prependable_bytes : Buffer → ℕ
prependable_bytes b = b.reader_index

abbrev fresh : List ℕ → Buffer
fresh bytes = record { buffer = bytes; reader_index = cheap_prepend; writer_index = cheap_prepend }

unfoldable pub new_buffer : ℕ → Result Buffer
unfolding readable_bytes writable_bytes prependable_bytes
new_buffer size = do
  bytes ← resize (add_size cheap_prepend size) []
  let b = fresh bytes
  assert (readable_bytes b == 0)
  assert (writable_bytes b == size)
  assert (prependable_bytes b == cheap_prepend)
  ok b

-- Both buffers after the call.
unfoldable pub swap : Buffer → Buffer → Buffer × Buffer
swap b rhs = (rhs, b)

unfoldable pub retrieve_all : Buffer → Buffer
retrieve_all b = record b { reader_index = cheap_prepend; writer_index = cheap_prepend }

unfoldable pub retrieve : ℕ → Buffer → Result Buffer
unfolding readable_bytes retrieve_all
retrieve len b = do
  assert (leb len (readable_bytes b))
  ok (
      if ltb len (readable_bytes b)
      then record b { reader_index = add_size b.reader_index len }
      else retrieve_all b)

unfoldable pub retrieve_until : ℕ → Buffer → Result Buffer
unfolding retrieve
retrieve_until end b = do
  assert (leb b.reader_index end)
  assert (leb end b.writer_index)
  retrieve (sub_size end b.reader_index) b

unfoldable pub retrieve_as_string : ℕ → Buffer → Result (List ℕ × Buffer)
unfolding readable_bytes retrieve
retrieve_as_string len b = do
  assert (leb len (readable_bytes b))
  result ← read_at b.reader_index len b.buffer
  rest ← retrieve len b
  ok (result, rest)

unfoldable pub retrieve_all_as_string : Buffer → Result (List ℕ × Buffer)
unfolding retrieve_as_string
retrieve_all_as_string b = retrieve_as_string (readable_bytes b) b

unfoldable pub has_written : ℕ → Buffer → Result Buffer
unfolding writable_bytes
has_written len b = do
  assert (leb len (writable_bytes b))
  ok (record b { writer_index = add_size b.writer_index len })

unfoldable pub unwrite : ℕ → Buffer → Result Buffer
unfolding readable_bytes
unwrite len b = do
  assert (leb len (readable_bytes b))
  ok (record b { writer_index = sub_size b.writer_index len })

unfoldable pub make_space : ℕ → Buffer → Result Buffer
unfolding readable_bytes writable_bytes prependable_bytes
make_space len b =
    if ltb (add_size (writable_bytes b) (prependable_bytes b)) (add_size len cheap_prepend)
    then (do
      bytes ← resize (add_size b.writer_index len) b.buffer
      ok (record b { buffer = bytes }))
    else (do
      assert (ltb cheap_prepend b.reader_index)
      let readable = readable_bytes b
      unread ← read_at b.reader_index readable b.buffer
      bytes ← copy_to cheap_prepend unread b.buffer
      let moved = record b {
        buffer = bytes;
        reader_index = cheap_prepend;
        writer_index = add_size cheap_prepend readable;
      }
      assert (readable == readable_bytes moved)
      ok moved)

unfoldable pub ensure_writable_bytes : ℕ → Buffer → Result Buffer
unfolding make_space writable_bytes
ensure_writable_bytes len b = do
  roomy ← if ltb (writable_bytes b) len then make_space len b else ok b
  assert (leb len (writable_bytes roomy))
  ok roomy

-- `append (data, len)`: the list is the memory from `data` on.
unfoldable pub append : List ℕ → ℕ → Buffer → Result Buffer
unfolding ensure_writable_bytes has_written
append bytes len b = do
  roomy ← ensure_writable_bytes len b
  src ← read_at 0 len bytes
  written ← copy_to roomy.writer_index src roomy.buffer
  has_written len (record roomy { buffer = written })

-- `prepend (data, len)` of a whole array
unfoldable pub prepend : List ℕ → Buffer → Result Buffer
unfolding prependable_bytes
prepend bytes b = do
  assert (leb (length bytes) (prependable_bytes b))
  let start = sub_size b.reader_index (length bytes)
  written ← copy_to start bytes b.buffer
  ok (record b { buffer = written; reader_index = start })

unfoldable pub to_string_piece : Buffer → StringPiece
unfolding readable_bytes
to_string_piece b = record {
  ptr = drop b.reader_index b.buffer;
  length_pattern = readable_bytes b % 2 ^ 32;
}

unfoldable pub append_piece : StringPiece → Buffer → Result Buffer
unfolding append
append_piece str b = append str.ptr (size_of_int str.length_pattern) b

-- The buffer that `other` brings in; the old vector goes with `other`.
unfoldable pub shrink : ℕ → Buffer → Result Buffer
unfolding new_buffer ensure_writable_bytes append_piece to_string_piece swap readable_bytes
shrink reserve b = do
  fresh ← new_buffer initial_size
  roomy ← ensure_writable_bytes (add_size (readable_bytes b) reserve) fresh
  other ← append_piece (to_string_piece b) roomy
  ok (swap b other).0
