-- ===== src/Buffer/Front.antt =====
-- The front of the buffer: `prepend`, and the reads that hand bytes out.
use ouge_net_lib.Common.{
  ℕ, ◌+◌, ◌-◌, ◌≤◌, ◌<◌, ◌≡◌, refl, ap, ◌∙◌, List, [], ◌++◌, arith, length, take, drop, take_all,
  drop_all, take-window, patched, length-patched, window-patched_front, Result, ok, err,
  assert_failed, read_at_ok, copy_to_ok,
}
use ouge_net_lib.Buffer.{
  Buffer, readable_bytes, retrieve_until, retrieve_as_string, retrieve_all_as_string, prepend,
}
use ouge_net_lib.Buffer.Valid.{
  IsValid, contents, Yields, length-contents, readable_bytes_lem, retrieve_lem,
}

-- `prepend` on a well-formed buffer of no more bytes than stand before the reader puts them in front
-- of the unread ones.
pub prepend_lem :
    (bytes : List ℕ) {b : Buffer}
    → IsValid b
    → length bytes ≤ b.reader_index
    → Yields (prepend bytes b) (bytes ++ contents b)
unfolding prepend
prepend_lem bytes {b} v h =
    let start = b.reader_index - length bytes in
    let same_length = length-patched start bytes b.buffer (omega arith) in
    (
      record b { buffer = patched start bytes b.buffer; reader_index = start },
      ground (arith, copy_to_ok start bytes b.buffer (omega arith)),
      ground (arith, same_length),
      window-patched_front start b.reader_index b.writer_index bytes b.buffer (omega arith)
          v.ordered v.inside,
    )

pub prepend_too_much :
    (bytes : List ℕ) {b : Buffer}
    → IsValid b
    → b.reader_index < length bytes
    → prepend bytes b ≡ err assert_failed
unfolding prepend
prepend_too_much bytes v h = ground arith

-- What a read that hands bytes out returns.
abbrev pub Reads : Result (List ℕ × Buffer) → List ℕ → List ℕ → Type 0
Reads r out rest = (b : Buffer) × (r ≡ ok (out, b)) × IsValid b × (contents b ≡ rest)

pub retrieve_as_string_lem :
    (len : ℕ) {b : Buffer}
    → IsValid b
    → len ≤ length (contents b)
    → Reads (retrieve_as_string len b) (take len (contents b)) (drop len (contents b))
unfolding retrieve_as_string
retrieve_as_string_lem len {b} v h =
    let (b', e, v', rest) = retrieve_lem len v h in
    let inside : len ≤ b.writer_index - b.reader_index = omega (arith, length-contents v) in
    let cut : take len (contents b) ≡ take len (drop b.reader_index b.buffer) =
      take-window len b.reader_index b.writer_index (b.reader_index + len) b.buffer refl
        (omega arith)
      ∙ ap (λ m. take m (drop b.reader_index b.buffer)) (omega arith) in
    (
      b',
      ground (
        arith,
        e,
        cut,
        readable_bytes_lem v,
        read_at_ok b.reader_index len b.buffer (omega arith),
      ),
      v',
      rest,
    )

pub retrieve_as_string_too_much :
    (len : ℕ) {b : Buffer}
    → IsValid b
    → length (contents b) < len
    → retrieve_as_string len b ≡ err assert_failed
unfolding retrieve_as_string
retrieve_as_string_too_much len v h = ground (arith, length-contents v)

-- `retrieveAllAsString` of a well-formed buffer hands out all unread bytes and leaves none.
pub retrieve_all_as_string_lem :
    {b : Buffer} → IsValid b → Reads (retrieve_all_as_string b) (contents b) []
unfolding retrieve_all_as_string
retrieve_all_as_string_lem {b} v =
    let n = readable_bytes b in
    let n_lem : n ≡ length (contents b) = omega (arith, readable_bytes_lem v, length-contents v) in
    let (b', e, v', rest) = retrieve_as_string_lem n v (omega (arith, n_lem)) in
    (
      b',
      e ∙ ap (λ xs. ok (xs, b')) (take_all n (contents b) (omega (arith, n_lem))),
      v',
      rest ∙ drop_all n (contents b) (omega (arith, n_lem)),
    )

-- `retrieveUntil (peek () + len)`
pub retrieve_until_lem :
    (len : ℕ) {b : Buffer}
    → IsValid b
    → len ≤ length (contents b)
    → Yields (retrieve_until (b.reader_index + len) b) (drop len (contents b))
unfolding retrieve_until
retrieve_until_lem len {b} v h =
    let (b', e, v', rest) = retrieve_lem len v h in
    (b', ground (arith, e, length-contents v), v', rest)
