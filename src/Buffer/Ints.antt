-- ===== src/Buffer/Ints.antt =====
-- Integers in network byte order: `appendInt*`, `peekInt*`, `readInt*`, `retrieveInt*` and
-- `prependInt*`. A signed integer is its bit pattern; `o` is the byte order of the host.
use ouge_net_lib.Common.{
  ℕ, ◌+◌, ◌-◌, ◌^◌, ◌≤◌, ◌<◌, ◌≡◌, refl, sym, ap, ◌∙◌, List, [], ◌∷◌, ◌++◌, arith, length, take,
  drop, length-append, take-append_le, drop-append_add, take_all, append-nil, take-window, leb,
  Result, ok, err, ◌>>=◌, ◌>>◌, assert, out_of_bounds, read_at, read_at_ok, max_size,
}
use ouge_net_lib.Endian.{ByteOrder, to_memory, of_memory, host_to_network, network_to_host}
use ouge_net_lib.Endian.Wire.{
  wire, length-wire, to_memory-host_to_network, network_to_host-of_memory,
}
use ouge_net_lib.Buffer.{Buffer, readable_bytes, retrieve, append, prepend}
use ouge_net_lib.Buffer.Valid.{
  IsValid, contents, Yields, length-contents, readable_bytes_lem, retrieve_lem,
}
use ouge_net_lib.Buffer.Grow.{Fits, append_lem}
use ouge_net_lib.Buffer.Front.{prepend_lem}

unfoldable pub retrieve_int64 : Buffer → Result Buffer
unfolding retrieve
retrieve_int64 b = retrieve 8 b

unfoldable pub retrieve_int32 : Buffer → Result Buffer
unfolding retrieve
retrieve_int32 b = retrieve 4 b

unfoldable pub retrieve_int16 : Buffer → Result Buffer
unfolding retrieve
retrieve_int16 b = retrieve 2 b

unfoldable pub retrieve_int8 : Buffer → Result Buffer
unfolding retrieve
retrieve_int8 b = retrieve 1 b

-- `int8_t` has one byte and no byte order.
unfoldable pub append_int8 : ℕ → Buffer → Result Buffer
unfolding append
append_int8 x b = append (x ∷ []) 1 b

unfoldable pub peek_int8 : Buffer → Result ℕ
unfolding readable_bytes
peek_int8 b = do assert (leb 1 (readable_bytes b)); x ← read_at b.reader_index 1 b.buffer; first x
  where
    first : List ℕ → Result ℕ
    first [] = err out_of_bounds
    first (x ∷ rest) = ok x

module _ (o : ByteOrder) where
  -- The shared text of the three widths: `k` is `sizeof x`.
  unfoldable pub append_int : ℕ → ℕ → Buffer → Result Buffer
  unfolding append
  append_int k x b = append (to_memory o k (host_to_network o k x)) k b

  unfoldable pub peek_int : ℕ → Buffer → Result ℕ
  unfolding readable_bytes
  peek_int k b = do
    assert (leb k (readable_bytes b))
    be ← read_at b.reader_index k b.buffer
    ok (network_to_host o k (of_memory o be))

  unfoldable pub read_int : ℕ → Buffer → Result (ℕ × Buffer)
  unfolding peek_int retrieve
  read_int k b = do result ← peek_int k b; rest ← retrieve k b; ok (result, rest)

  unfoldable pub prepend_int : ℕ → ℕ → Buffer → Result Buffer
  unfolding prepend
  prepend_int k x b = prepend (to_memory o k (host_to_network o k x)) b

  -- `appendInt*` adds the wire format of the integer at the end.
  pub append_int_lem :
      (k x : ℕ) {b : Buffer}
      → IsValid b
      → k ≤ max_size
      → Fits k b
      → Yields (append_int k x b) (contents b ++ wire k x)
  unfolding append_int
  append_int_lem k x {b} v small f =
      let bytes = to_memory o k (host_to_network o k x) in
      let e = to_memory-host_to_network o k x in
      let n : length bytes ≡ k = ap length e ∙ length-wire k x in
      let (x', done, v', c) = append_lem bytes k v (omega (arith, n)) small f in
      (x', done, v', c ∙ ap (◌++◌ (contents b)) (take_all k bytes (omega (arith, n)) ∙ e))

  -- `prependInt*` on a well-formed buffer puts the wire format of the integer in front, where there
  -- is room before the reader, on a host of either byte order.
  pub prepend_int_lem :
      (k x : ℕ) {b : Buffer}
      → IsValid b
      → k ≤ b.reader_index
      → Yields (prepend_int k x b) (wire k x ++ contents b)
  unfolding prepend_int
  prepend_int_lem k x {b} v h =
      rw (to_memory-host_to_network o k x)
        (prepend_lem (wire k x) v (omega (arith, length-wire k x)))

  -- Where the unread bytes of a well-formed buffer begin with the wire format of an `x` of `k` bytes,
  -- `readInt*` returns `x` and leaves what follows, on a host of either byte order.
  pub read_int_lem :
      (k x : ℕ) (rest : List ℕ) {b : Buffer}
      → IsValid b
      → x < 256 ^ k
      → contents b ≡ wire k x ++ rest
      → (b' : Buffer) × (read_int k b ≡ ok (x, b')) × IsValid b' × (contents b' ≡ rest)
  unfolding read_int
  read_int_lem k x rest {b} v h e =
      let n : length (contents b) ≡ k + length rest =
        ap length e ∙ omega (arith, length-append (wire k x) rest, length-wire k x) in
      let (b', done, v', c) = retrieve_lem k v (omega (arith, n)) in
      let fits : k ≤ b.writer_index - b.reader_index = omega (arith, n, length-contents v) in
      let front : take k (drop b.reader_index b.buffer) ≡ wire k x =
        ap (λ m. take m (drop b.reader_index b.buffer)) (omega arith)
        ∙ sym (
            take-window k b.reader_index b.writer_index (b.reader_index + k) b.buffer refl
              (omega (arith, fits)))
        ∙ ap (take k) e
        ∙ take-append_le k (wire k x) rest (omega (arith, length-wire k x))
        ∙ take_all k (wire k x) (omega (arith, length-wire k x)) in
      (
        b',
        ground (
          arith,
          done,
          front,
          readable_bytes_lem v,
          fits,
          read_at_ok b.reader_index k b.buffer (omega (arith, fits, v)),
          network_to_host-of_memory o k x h,
        ),
        v',
        c ∙ ap (drop k) e ∙ drop-append_add k 0 (wire k x) rest (omega (arith, length-wire k x)),
      )

  -- Writing an integer of `k` bytes into a well-formed empty buffer where it fits and reading it gives
  -- it back and leaves nothing, on a host of either byte order.
  pub read_int-append_int :
      (k x : ℕ) {b : Buffer}
      → IsValid b
      → contents b ≡ []
      → x < 256 ^ k
      → k ≤ max_size
      → Fits k b
      → (b₁ b₂ : Buffer) × (append_int k x b ≡ ok b₁)
        × (read_int k b₁ ≡ ok (x, b₂))
        × (contents b₂ ≡ [])
  read_int-append_int k x {b} v e h small f =
      let (b₁, done, v₁, c₁) = append_int_lem k x v small f in
      let held : contents b₁ ≡ wire k x ++ [] =
        c₁ ∙ ap (λ (zs : List ℕ). zs ++ wire k x) e ∙ sym (append-nil (wire k x)) in
      let (b₂, got, _, c₂) = read_int_lem k x [] v₁ h held in (b₁, b₂, done, got, c₂)
