-- ===== src/Buffer/Valid.antt =====
-- The representation invariant of `Buffer`, the bytes that it holds, and each operation that
-- moves an index.
use ouge_net_lib.Common.{
  ℕ, ◌+◌, ◌-◌, ◌≤◌, ◌<◌, ◌≡◌, refl, sym, inl, inr, List, [], ◌++◌, arith, length, take, drop,
  replicate, length-take, length-append, length-replicate, drop_all, window, length-window,
  drop-window, take-window, ltb, Bool-cases, add_size, Result, ok, err, assert_failed, max_size,
  resize_ok,
}
use ouge_net_lib.Buffer.{
  Buffer, fresh, cheap_prepend, readable_bytes, writable_bytes, prependable_bytes, new_buffer,
  retrieve_all, retrieve, has_written, unwrite,
}

pub record IsValid (b : Buffer) : Type 0 where
  pub ordered : b.reader_index ≤ b.writer_index
  pub inside : b.writer_index ≤ length b.buffer
  pub prefixed : cheap_prepend ≤ length b.buffer
  pub bounded : length b.buffer ≤ max_size

-- The unread bytes, oldest first.
abbrev pub contents : Buffer → List ℕ
contents b = window b.reader_index b.writer_index b.buffer

-- The call succeeds, with a well-formed buffer that holds these bytes.
abbrev pub Yields : Result Buffer → List ℕ → Type 0
Yields r xs = (b : Buffer) × (r ≡ ok b) × IsValid b × (contents b ≡ xs)

pub readable_bytes_lem :
    {b : Buffer} → IsValid b → readable_bytes b ≡ b.writer_index - b.reader_index
unfolding readable_bytes
readable_bytes_lem v = omega arith

pub writable_bytes_lem :
    {b : Buffer} → IsValid b → writable_bytes b ≡ length b.buffer - b.writer_index
unfolding writable_bytes
writable_bytes_lem v = omega arith

pub length-contents :
    {b : Buffer} → IsValid b → length (contents b) ≡ b.writer_index - b.reader_index
length-contents {b} v = length-window b.reader_index b.writer_index b.buffer v.inside

pub readable-eq-length : {b : Buffer} → IsValid b → readable_bytes b ≡ length (contents b)
readable-eq-length v = omega (arith, readable_bytes_lem v, length-contents v)

-- The vector of a new buffer.
abbrev zeroed : ℕ → List ℕ
zeroed size = take (add_size 8 size) [] ++ replicate (add_size 8 size - 0) 0

length-zeroed : (size : ℕ) → size + 8 ≤ max_size → length (zeroed size) ≡ size + 8
length-zeroed size h = omega (
  arith,
  length-append {A = ℕ} (take (add_size 8 size) []) (replicate (add_size 8 size - 0) 0),
  length-take {A = ℕ} (add_size 8 size) [],
  length-replicate {A = ℕ} (add_size 8 size - 0) 0,
)

-- A new buffer whose vector is within the largest size fails no `assert`, is well-formed and empty,
-- and has the room asked for behind the reserved prefix.
pub new_buffer_lem :
    (size : ℕ)
    → size + cheap_prepend ≤ max_size
    → (b : Buffer) × (new_buffer size ≡ ok b)
      × IsValid b
      × (contents b ≡ [])
      × (writable_bytes b ≡ size)
      × (prependable_bytes b ≡ cheap_prepend)
unfolding new_buffer
new_buffer_lem size h = (
  fresh (zeroed size),
  ground (arith, resize_ok (add_size 8 size) [] (omega arith), length-zeroed size h),
  ground (arith, length-zeroed size h),
  refl,
  ground (arith, length-zeroed size h),
  refl,
)

pub retrieve_all_lem : {b : Buffer} → IsValid b → IsValid (retrieve_all b)
unfolding retrieve_all
retrieve_all_lem v = omega arith

-- `retrieve` drops the first `len` unread bytes.
pub retrieve_lem :
    (len : ℕ) {b : Buffer}
    → IsValid b
    → len ≤ length (contents b)
    → Yields (retrieve len b) (drop len (contents b))
unfolding retrieve
retrieve_lem len {b} v h = elim (Bool-cases (ltb len (b.writer_index - b.reader_index))) [
  | inl part ↦ (
    record b { reader_index = b.reader_index + len },
    ground (arith, length-contents v),
    ground arith,
    sym (
        drop-window len b.reader_index b.writer_index (b.reader_index + len) b.buffer refl
          (ground arith)),
  )
  | inr whole ↦ (
    retrieve_all b,
    ground (arith, length-contents v),
    retrieve_all_lem v,
    sym (drop_all len (contents b) (ground (arith, length-contents v))),
  )
]

-- `unwrite` takes the last `len` unread bytes back.
pub unwrite_lem :
    (len : ℕ) {b : Buffer}
    → IsValid b
    → len ≤ length (contents b)
    → Yields (unwrite len b) (take (length (contents b) - len) (contents b))
unfolding unwrite
unwrite_lem len {b} v h = (
  record b { writer_index = b.writer_index - len },
  ground (arith, length-contents v),
  ground (arith, length-contents v),
  sym (
      take-window (length (contents b) - len) b.reader_index b.writer_index (b.writer_index - len)
        b.buffer (omega (arith, length-contents v)) (omega arith)),
)

-- A read of more than there is fails its `assert`.
pub retrieve_too_much :
    (len : ℕ) {b : Buffer}
    → IsValid b
    → length (contents b) < len
    → retrieve len b ≡ err assert_failed
unfolding retrieve
retrieve_too_much len v h = ground (arith, length-contents v)

pub unwrite_too_much :
    (len : ℕ) {b : Buffer}
    → IsValid b
    → length (contents b) < len
    → unwrite len b ≡ err assert_failed
unfolding unwrite
unwrite_too_much len v h = ground (arith, length-contents v)

pub has_written_lem :
    (len : ℕ) {b : Buffer}
    → IsValid b
    → b.writer_index + len ≤ length b.buffer
    → has_written len b ≡ ok (record b { writer_index = b.writer_index + len })
unfolding has_written
has_written_lem len {b} v h = ground arith
