-- ===== src/Buffer/ReadFd.antt =====
-- `Buffer::readFd`: one scattered read into the writable end of the vector and a second block of
-- 65536 bytes on the stack. `sockets::readv` is a parameter: from the capacity of the blocks that
-- it is given to what the system call returns.
use ouge_net_lib.Common.{
  ℕ, ◌+◌, ◌-◌, ◌≤◌, ◌<◌, ◌≡◌, refl, ap, ◌∙◌, inl, List, ◌++◌, Option, none, some, arith, length,
  take, drop, take-append-drop, take_all, append_assoc, subst, length-take, length-drop, patched,
  length-patched, window-patched_end, ltb, leb, if◌then◌else◌, Result, ok, ◌>>=◌, max_size, copy_to,
  copy_to_ok, add_size,
}
use native.Mathlib.Decide.{dec_lt}
use ouge_net_lib.Buffer.{Buffer, writable_bytes, append}
use ouge_net_lib.Buffer.Valid.{IsValid, contents, Yields, writable_bytes_lem}
use ouge_net_lib.Buffer.Grow.{Fits, append_lem}

-- What a read or write system call returns: the bytes that it read, or `errno`.
pub data ReadResult : Type 0 where
  got : List ℕ → ReadResult
  failed : ℕ → ReadResult

abbrev pub extra_size : ℕ
extra_size = 65536

-- The capacity of the blocks that `readv` is given.
unfoldable pub offered : Buffer → ℕ
unfolding writable_bytes
offered b =
    let writable = writable_bytes b in
    if ltb writable extra_size then writable + extra_size else writable

-- The bytes read fill the vector's end first, then the block on the stack, which is appended.
unfoldable pub accept : List ℕ → Buffer → Result Buffer
unfolding writable_bytes append
accept bytes b =
    let writable = writable_bytes b in
    if leb (length bytes) writable
    then (do
      filled ← copy_to b.writer_index bytes b.buffer
      ok (record b { buffer = filled; writer_index = add_size b.writer_index (length bytes) }))
    else (do
      filled ← copy_to b.writer_index (take writable bytes) b.buffer
      append (drop writable bytes) (length bytes - writable)
          (record b { buffer = filled; writer_index = length filled }))

-- The buffer, the number of bytes read (`none` for -1) and `*savedErrno` where it is set.
pub record ReadFd : Type 0 where
  pub after : Buffer
  pub count : Option ℕ
  pub saved_errno : Option ℕ

unfoldable pub finish_read : ReadResult → Buffer → Result ReadFd
unfolding accept
finish_read (got bytes) b = do
  b' ← accept bytes b
  ok (record { after = b'; count = some (length bytes); saved_errno = none })
finish_read (failed errno) b = ok (record { after = b; count = none; saved_errno = some errno })

unfoldable pub read_fd : (ℕ → ReadResult) → Buffer → Result ReadFd
unfolding finish_read offered
read_fd readv b = finish_read (readv (offered b)) b

-- `readv` returns no more bytes than it was given room for.
abbrev pub Respects : ReadResult → ℕ → Type 0
Respects (got bytes) room = length bytes ≤ room
Respects (failed errno) room = Unit {0}

accept_all :
    (bytes : List ℕ) {b : Buffer}
    → IsValid b
    → length bytes ≤ length b.buffer - b.writer_index
    → Yields (accept bytes b) (contents b ++ bytes)
unfolding accept
accept_all bytes {b} v h =
    let same_length = length-patched b.writer_index bytes b.buffer (omega (arith, v)) in
    (
      record b {
        buffer = patched b.writer_index bytes b.buffer;
        writer_index = b.writer_index + length bytes;
      },
      ground (arith, writable_bytes_lem v, copy_to_ok b.writer_index bytes b.buffer (omega arith)),
      ground (arith, same_length),
      window-patched_end b.reader_index b.writer_index _ bytes b.buffer v.ordered refl
          (omega (arith, v)),
    )

-- The vector filled up to its end.
accept_rest :
    (bytes : List ℕ) {b : Buffer}
    → IsValid b
    → length b.buffer - b.writer_index < length bytes
    → length bytes ≤ length b.buffer - b.writer_index + extra_size
    → length b.buffer + extra_size ≤ max_size
    → Yields (accept bytes b) (contents b ++ bytes)
unfolding accept
accept_rest bytes {b} v more h small =
    let room = length b.buffer - b.writer_index in
    let head = take room bytes in
    let rest = drop room bytes in
    let length-head : length head ≡ room = omega (arith, length-take room bytes) in
    let same_length = length-patched b.writer_index head b.buffer (omega (arith, length-head, v)) in
    let filled = patched b.writer_index head b.buffer in
    let f : Buffer = record b { buffer = filled; writer_index = length filled } in
    let fv : IsValid f = ground (arith, same_length) in
    let fits : Fits (length bytes - room) f = inl (omega (arith, same_length)) in
    let held : contents f ≡ contents b ++ head =
      window-patched_end b.reader_index b.writer_index _ head b.buffer v.ordered
        (omega (arith, same_length, length-head, v)) (omega (arith, same_length)) in
    let (x, e, xv, c) =
      append_lem rest (length bytes - room) fv (omega (arith, length-drop room bytes)) (omega arith)
        fits in
    (
      x,
      ground (
        arith,
        writable_bytes_lem v,
        copy_to_ok b.writer_index head b.buffer (omega (arith, length-head, v)),
        e,
      ),
      xv,
      c
          ∙ regroup held
              (take_all (length bytes - room) rest (omega (arith, length-drop room bytes))),
    )
  where
    regroup :
        {xs ys : List ℕ}
        → xs ≡ contents b ++ take (length b.buffer - b.writer_index) bytes
        → ys ≡ drop (length b.buffer - b.writer_index) bytes
        → xs ++ ys ≡ contents b ++ bytes
    regroup p q =
        rw (p, q)
          (append_assoc (contents b) _ _ ∙ ap (◌++◌ (contents b)) (take-append-drop _ bytes))

accept_lem :
    (bytes : List ℕ) {b : Buffer}
    → IsValid b
    → length b.buffer + extra_size ≤ max_size
    → length bytes ≤ offered b
    → Yields (accept bytes b) (contents b ++ bytes)
unfolding offered
accept_lem bytes {b} v small h = elim (dec_lt (length b.buffer - b.writer_index) (length bytes)) [
  | yes more ↦ accept_rest bytes v more (ground (arith, writable_bytes_lem v)) small
  | no fits ↦ accept_all bytes v (omega arith)
]

-- A read of `bytes`, no more than the blocks hold, into a well-formed buffer that may grow by the
-- second block adds exactly those at the end and returns their number, also where they run over into
-- the block on the stack; `*savedErrno` is not set.
pub read_fd_got :
    (readv : ℕ → ReadResult) (bytes : List ℕ) {b : Buffer}
    → IsValid b
    → length b.buffer + extra_size ≤ max_size
    → Respects (readv (offered b)) (offered b)
    → readv (offered b) ≡ got bytes
    → (r : ReadFd) × (read_fd readv b ≡ ok r)
      × IsValid r.after
      × (contents r.after ≡ contents b ++ bytes)
      × (r.count ≡ some (length bytes))
      × (r.saved_errno ≡ none)
unfolding read_fd
read_fd_got readv bytes {b} v small respects e =
    let fits : length bytes ≤ offered b = subst (λ r. Respects r (offered b)) e respects in
    let (x, done, xv, c) = accept_lem bytes v small fits in
    (
      record { after = x; count = some (length bytes); saved_errno = none },
      rw e (rw done),
      xv,
      c,
      refl,
      refl,
    )

-- A failed read leaves the buffer as it was and hands `errno` out.
pub read_fd_failed :
    (readv : ℕ → ReadResult) (errno : ℕ) (b : Buffer)
    → readv (offered b) ≡ failed errno
    → read_fd readv b ≡ ok (record { after = b; count = none; saved_errno = some errno })
unfolding read_fd
read_fd_failed readv errno b e = rw e
