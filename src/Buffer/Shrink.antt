-- ===== src/Buffer/Shrink.antt =====
-- `shrink`: the unread bytes move to a new buffer through a `StringPiece`, whose length is an `int`.
use ouge_net_lib.Common.{
  ℕ, ◌+◌, ◌-◌, ◌%◌, ◌^◌, ◌≤◌, ◌<◌, ◌≡◌, sym, ap, ◌∙◌, inl, List, ◌++◌, arith, length, take, drop,
  take_all, take-take, length-drop, max_size,
}
use ouge_net_lib.Buffer.{
  Buffer, cheap_prepend, initial_size, readable_bytes, append_piece, prependable_bytes,
  to_string_piece, shrink,
}
use ouge_net_lib.Buffer.Valid.{
  IsValid, contents, Yields, length-contents, readable_bytes_lem, new_buffer_lem,
}
use ouge_net_lib.Buffer.Grow.{Fits, ensure_writable_bytes-MakesRoom, append_lem}

-- What an `int` keeps of the number of unread bytes.
abbrev pub kept : Buffer → ℕ
kept b = length (contents b) % 2 ^ 32

append_piece_lem :
    {b r : Buffer}
    → IsValid b
    → IsValid r
    → kept b < 2 ^ 31
    → r.writer_index + kept b ≤ length r.buffer
    → Yields (append_piece (to_string_piece b) r) (contents r ++ take (kept b) (contents b))
unfolding append_piece to_string_piece
append_piece_lem {b} {r} v rv small room =
    let unread = drop b.reader_index b.buffer in
    let n_lem : readable_bytes b ≡ length (contents b) =
      omega (arith, readable_bytes_lem v, length-contents v) in
    let below : kept b ≤ b.writer_index - b.reader_index = omega (arith, length-contents v) in
    let fits : kept b ≤ length unread = omega (arith, length-drop b.reader_index b.buffer) in
    let (x, e, xv, c) = append_lem unread (kept b) rv fits (omega arith) (inl (omega arith)) in
    (
      x,
      ground (arith, e, n_lem),
      xv,
      c
          ∙ ap (◌++◌ (contents r))
              (sym (take-take (kept b) (b.writer_index - b.reader_index) unread below)),
    )

-- `shrink` of a well-formed buffer that with the reserve fits into the largest vector succeeds where
-- the number of its unread bytes modulo 2 ^ 32 is not negative as an `int`, and keeps just that many
-- of the first ones.
pub shrink_lem :
    (reserve : ℕ) {b : Buffer}
    → IsValid b
    → kept b < 2 ^ 31
    → length (contents b) + reserve + cheap_prepend ≤ max_size
    → Yields (shrink reserve b) (take (kept b) (contents b))
unfolding shrink prependable_bytes
shrink_lem reserve {b} v small fits =
    let (f, new, fv, empty, _, front) = new_buffer_lem initial_size (omega arith) in
    let n_lem : readable_bytes b ≡ length (contents b) =
      omega (arith, readable_bytes_lem v, length-contents v) in
    let total = length (contents b) + reserve in
    let fits_new : Fits total f = inl (omega (arith, length-contents fv, ap length empty, front)) in
    let (r, e, rv, same, room, _) =
      ensure_writable_bytes-MakesRoom total fv (omega arith) fits_new in
    let (x, e', xv, c) = append_piece_lem v rv small (omega arith) in
    (
      x,
      ground (arith, new, n_lem, e, e'),
      xv,
      c ∙ ap (λ (zs : List ℕ). zs ++ take (kept b) (contents b)) (same ∙ empty),
    )

-- `shrink` of a well-formed buffer with fewer than 2 ^ 31 unread bytes, which with the reserve fit
-- into the largest vector, succeeds and keeps all of them.
pub shrink-contents :
    (reserve : ℕ) {b : Buffer}
    → IsValid b
    → length (contents b) < 2 ^ 31
    → length (contents b) + reserve + cheap_prepend ≤ max_size
    → Yields (shrink reserve b) (contents b)
shrink-contents reserve {b} v small fits =
    let (x, e, xv, c) = shrink_lem reserve v (omega arith) fits in
    (x, e, xv, c ∙ take_all (kept b) (contents b) (omega arith))
