-- ===== src/Buffer/Grow.antt =====
-- Room at the end: `makeSpace` by a longer vector or by moving the unread bytes to the front,
-- `ensureWritableBytes` and `append`.
use ouge_net_lib.Common.{
  ℕ, ◌+◌, ◌-◌, ◌≤◌, ◌<◌, ◌≡◌, ◌⊎◌, refl, ap, ◌∙◌, List, ◌++◌, arith, length, take, replicate,
  length-take, length-append, length-replicate, take_all, window, patched, length-patched,
  window-patched_end, window-append, add_size, Result, ok, err, length_error, max_size, read_at_ok,
  copy_to_ok, resize, resize_ok,
}
use native.Mathlib.Decide.{dec_lt}
use ouge_net_lib.Buffer.{Buffer, cheap_prepend, make_space, ensure_writable_bytes, append}
use ouge_net_lib.Buffer.Valid.{
  IsValid, contents, Yields, length-contents, readable_bytes_lem, writable_bytes_lem,
  has_written_lem,
}

-- The call succeeds, keeps the bytes, leaves room for `len` more at the end, and does not move the
-- writer up.
abbrev pub MakesRoom : Result Buffer → ℕ → Buffer → Type 0
MakesRoom r len b =
    (b' : Buffer) × (r ≡ ok b')
    × IsValid b'
    × (contents b' ≡ contents b)
    × (b'.writer_index + len ≤ length b'.buffer)
    × (b'.writer_index ≤ b.writer_index)

-- What decides whether `len` more bytes fit: the vector may grow to the end of the write, or the
-- unread bytes and the new ones fit behind the reserved prefix as it is.
abbrev pub Fits : ℕ → Buffer → Type 0
Fits len b =
    (b.writer_index + len ≤ max_size)
    ⊎ (b.writer_index - b.reader_index + len + cheap_prepend ≤ length b.buffer)

-- The two cases of the test in `makeSpace`.
abbrev Short : ℕ → Buffer → Type 0
Short len b = length b.buffer < b.writer_index - b.reader_index + len + cheap_prepend

grow-MakesRoom :
    (len : ℕ) {b : Buffer}
    → IsValid b
    → length b.buffer < b.writer_index + len
    → b.writer_index + len ≤ max_size
    → Short len b
    → MakesRoom (make_space len b) len b
unfolding make_space
grow-MakesRoom len {b} v full small s = (
  record b { buffer = longer },
  ground (arith, resize_ok (add_size b.writer_index len) b.buffer (omega arith)),
  ground (arith, length-longer),
  same,
  ground (arith, length-longer),
  omega arith,
)
  where
    longer : List ℕ
    longer =
        take (add_size b.writer_index len) b.buffer
        ++ replicate (add_size b.writer_index len - length b.buffer) 0

    length-longer : length longer ≡ b.writer_index + len
    length-longer = omega (
      arith,
      length-append (take (add_size b.writer_index len) b.buffer)
          (replicate (add_size b.writer_index len - length b.buffer) 0),
      length-take (add_size b.writer_index len) b.buffer,
      length-replicate {A = ℕ} (add_size b.writer_index len - length b.buffer) 0,
    )

    same : window b.reader_index b.writer_index longer ≡ contents b
    same =
        rw (take_all (add_size b.writer_index len) b.buffer (omega arith))
          (window-append b.reader_index b.writer_index b.buffer _ v.ordered v.inside)

compact-MakesRoom :
    (len : ℕ) {b : Buffer}
    → IsValid b
    → len ≤ max_size
    → length b.buffer < b.writer_index + len
    → b.writer_index - b.reader_index + len + cheap_prepend ≤ length b.buffer
    → MakesRoom (make_space len b) len b
unfolding make_space
compact-MakesRoom len {b} v small full s = (
  record b {
    buffer = patched cheap_prepend (contents b) b.buffer;
    reader_index = cheap_prepend;
    writer_index = cheap_prepend + (b.writer_index - b.reader_index);
  },
  ground (
    arith,
    length-contents v,
    readable_bytes_lem v,
    read_at_ok b.reader_index (b.writer_index - b.reader_index) b.buffer (omega arith),
    copy_to_ok cheap_prepend (contents b) b.buffer (omega (arith, length-contents v)),
  ),
  ground (arith, same_length),
  window-patched_end cheap_prepend cheap_prepend _ (contents b) b.buffer (omega arith)
      (omega (arith, length-contents v)) (omega arith),
  ground (arith, same_length),
  omega arith,
)
  where
    same_length : length (patched cheap_prepend (contents b) b.buffer) ≡ length b.buffer
    same_length =
        length-patched cheap_prepend (contents b) b.buffer (omega (arith, length-contents v))

-- `makeSpace (len)` on a well-formed buffer without room for `len` bytes at the end succeeds where
-- they fit, by growth or by moving the unread bytes to the front: these are kept, and there is room.
pub make_space-MakesRoom :
    (len : ℕ) {b : Buffer}
    → IsValid b
    → len ≤ max_size
    → length b.buffer < b.writer_index + len
    → Fits len b
    → MakesRoom (make_space len b) len b
make_space-MakesRoom len {b} v small full f =
    elim (dec_lt (length b.buffer) (b.writer_index - b.reader_index + len + cheap_prepend)) [
      | yes s ↦ grow-MakesRoom len v full (ground arith) s
      | no s ↦ compact-MakesRoom len v small full (omega arith)
    ]

pub ensure_writable_bytes-MakesRoom :
    (len : ℕ) {b : Buffer}
    → IsValid b
    → len ≤ max_size
    → Fits len b
    → MakesRoom (ensure_writable_bytes len b) len b
unfolding ensure_writable_bytes
ensure_writable_bytes-MakesRoom len {b} v small f =
    elim (dec_lt (length b.buffer) (b.writer_index + len)) [
      | yes full ↦
          let (b', e, v', same, room, low) = make_space-MakesRoom len v small full f in
          (b', ground (arith, writable_bytes_lem v, writable_bytes_lem v', e), v', same, room, low)
      | no roomy ↦ (b, ground (arith, writable_bytes_lem v), v, refl, omega arith, omega arith)
    ]

-- The call adds these bytes at the end, and moves the writer up by `len` at most.
abbrev pub Extends : Result Buffer → Buffer → List ℕ → ℕ → Type 0
Extends r b xs len =
    (b' : Buffer) × (r ≡ ok b')
    × IsValid b'
    × (contents b' ≡ contents b ++ xs)
    × (b'.writer_index ≤ b.writer_index + len)

pub append-Extends :
    (bytes : List ℕ) (len : ℕ) {b : Buffer}
    → IsValid b
    → len ≤ length bytes
    → len ≤ max_size
    → Fits len b
    → Extends (append bytes len b) b (take len bytes) len
unfolding append
append-Extends bytes len {b} v whole small f =
    let (r, e, v', same, room, low) = ensure_writable_bytes-MakesRoom len v small f in
    let src = take len bytes in
    let length-src : length src ≡ len = omega (arith, length-take len bytes) in
    let same_length = length-patched r.writer_index src r.buffer (omega (arith, length-src)) in
    let w = record r { buffer = patched r.writer_index src r.buffer } in
    let wv : IsValid w = ground (arith, same_length) in
    (
      record w { writer_index = r.writer_index + len },
      ground (
        arith,
        e,
        read_at_ok 0 len bytes (omega arith),
        copy_to_ok r.writer_index src r.buffer (omega (arith, length-src)),
        has_written_lem len wv (omega (arith, same_length)),
      ),
      ground (arith, same_length),
      window-patched_end r.reader_index r.writer_index _ src r.buffer v'.ordered
            (omega (arith, length-src)) room
          ∙ ap (λ (zs : List ℕ). zs ++ src) same,
      omega (arith, low),
    )

-- `append` on a well-formed buffer adds the first `len` bytes of an array of at least `len` at the
-- end, where they fit.
pub append_lem :
    (bytes : List ℕ) (len : ℕ) {b : Buffer}
    → IsValid b
    → len ≤ length bytes
    → len ≤ max_size
    → Fits len b
    → Yields (append bytes len b) (contents b ++ take len bytes)
append_lem bytes len v whole small f =
    let (b', e, v', c, _) = append-Extends bytes len v whole small f in (b', e, v', c)

-- Where they do not fit, the vector's exception comes out of `append`.
pub append_too_long :
    (bytes : List ℕ) {b : Buffer}
    → IsValid b
    → length bytes ≤ max_size
    → max_size < b.writer_index + length bytes
    → length b.buffer < b.writer_index - b.reader_index + length bytes + cheap_prepend
    → append bytes (length bytes) b ≡ err length_error
unfolding append ensure_writable_bytes make_space resize
append_too_long bytes {b} v small long s =
    ground (arith, writable_bytes_lem v, readable_bytes_lem v)
