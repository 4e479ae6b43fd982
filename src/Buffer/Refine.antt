-- ===== src/Buffer/Refine.antt =====
-- `Buffer` against a queue of bytes: no sequence of calls tells them apart.
use ouge_net_lib.Common.{
  ℕ, ◌+◌, ◌-◌, ◌≤◌, ◌≡◌, refl, sym, ap, ◌∙◌, inl, inr, List, [], ◌∷◌, ◌++◌, arith, length, take,
  drop, take_all, max, leb, le→leb, leb-false, read_at, if◌then◌else◌, Result, ok, err, ◌>>=◌,
  Fault, ◌⊎◌, assert_failed, max_size,
}
use native.Mathlib.Decide.{dec_le}
use ouge_net_lib.Buffer.{Buffer, cheap_prepend, append, retrieve_as_string, unwrite, retrieve_all}
use ouge_net_lib.Buffer.Valid.{IsValid, contents, retrieve_all_lem, unwrite_lem, unwrite_too_much}
use ouge_net_lib.Buffer.Grow.{Fits, append-Extends}
use ouge_net_lib.Buffer.Front.{retrieve_as_string_lem, retrieve_as_string_too_much}

-- The calls of a client: `append`, `retrieveAsString`, `unwrite` and `retrieveAll`.
pub data Op : Type 0 where
  put : List ℕ → Op
  get : ℕ → Op
  unput : ℕ → Op
  clear : Op

-- What the call hands out, and the buffer after it.
unfoldable pub step : Op → Buffer → Result (List ℕ × Buffer)
step (put bytes) b = do b' ← append bytes (length bytes) b; ok ([], b')
step (get len) b = retrieve_as_string len b
step (unput len) b = do b' ← unwrite len b; ok ([], b')
step clear b = ok ([], retrieve_all b)

unfoldable pub replies : List Op → Buffer → Result (List (List ℕ))
unfolding step
replies [] b = ok []
replies (op ∷ ops) b = do (out, b') ← step op b; rest ← replies ops b'; ok (out ∷ rest)

-- The same calls on a queue of bytes, oldest first.
unfoldable pub queue_step : Op → List ℕ → Result (List ℕ × List ℕ)
queue_step (put bytes) q = ok ([], q ++ bytes)
queue_step (get len) q =
    if leb len (length q) then ok (take len q, drop len q) else err assert_failed
queue_step (unput len) q =
    if leb len (length q) then ok ([], take (length q - len) q) else err assert_failed
queue_step clear q = ok ([], [])

unfoldable pub queue_replies : List Op → List ℕ → Result (List (List ℕ))
unfolding queue_step
queue_replies [] q = ok []
queue_replies (op ∷ ops) q = do
  (out, q') ← queue_step op q
  rest ← queue_replies ops q'
  ok (out ∷ rest)

-- The bytes that a history appends.
abbrev pub volume : List Op → ℕ
volume [] = 0
volume (put bytes ∷ ops) = length bytes + volume ops
volume (op ∷ ops) = volume ops

volume-cons : (op : Op) (ops : List Op) → volume (op ∷ ops) ≡ volume (op ∷ []) + volume ops
volume-cons (put bytes) ops = omega arith
volume-cons (get len) ops = omega arith
volume-cons (unput len) ops = omega arith
volume-cons clear ops = omega arith

-- One call agrees with the queue, and the writer moves up by what it appends at most.
abbrev Agrees : Op → Buffer → Type 0
Agrees op b =
    ((out : List ℕ) × (b' : Buffer) × (step op b ≡ ok (out, b'))
      × IsValid b'
      × (queue_step op (contents b) ≡ ok (out, contents b'))
      × (max cheap_prepend b'.writer_index ≤ max cheap_prepend b.writer_index + volume (op ∷ [])))
    ⊎ ((f : Fault) × (step op b ≡ err f) × (queue_step op (contents b) ≡ err f))

retrieve_as_string-writer :
    (len : ℕ) (b : Buffer) {out : List ℕ} {b' : Buffer}
    → retrieve_as_string len b ≡ ok (out, b')
    → b'.writer_index ≤ max cheap_prepend b.writer_index
unfolding retrieve_as_string read_at
retrieve_as_string-writer len b e = ground arith

unwrite-writer :
    (len : ℕ) {b b' : Buffer} → IsValid b → unwrite len b ≡ ok b' → b'.writer_index ≤ b.writer_index
unfolding unwrite
unwrite-writer len v e = ground arith

put-Agrees :
    (bytes : List ℕ) {b : Buffer}
    → IsValid b
    → max cheap_prepend b.writer_index + length bytes ≤ max_size
    → Agrees (put bytes) b
unfolding step queue_step
put-Agrees bytes {b} v h =
    let fits : Fits (length bytes) b = inl (omega arith) in
    let (b', e, v', c, low) =
      append-Extends bytes (length bytes) v (omega arith) (omega arith) fits in
    let same : contents b ++ bytes ≡ contents b' =
      sym (c ∙ ap (◌++◌ (contents b)) (take_all (length bytes) bytes (omega arith))) in
    inl ([], b', rw e, v', ap (λ xs. ok ([], xs)) same, omega (arith, low))

get-Agrees : (len : ℕ) {b : Buffer} → IsValid b → Agrees (get len) b
unfolding step queue_step
get-Agrees len {b} v = elim (dec_le len (length (contents b))) [
  | yes l ↦
      let (b', e, v', c) = retrieve_as_string_lem len v l in
      inl (
        take len (contents b),
        b',
        e,
        v',
        rw (le→leb _ _ l) (ap (λ xs. ok (take len (contents b), xs)) (sym c)),
        omega (arith, retrieve_as_string-writer len b e),
      )
  | no m ↦ inr (
    assert_failed,
    retrieve_as_string_too_much len v (omega arith),
    rw (leb-false len (length (contents b)) (omega arith)),
  )
]

unput-Agrees : (len : ℕ) {b : Buffer} → IsValid b → Agrees (unput len) b
unfolding step queue_step
unput-Agrees len {b} v = elim (dec_le len (length (contents b))) [
  | yes l ↦
      let (b', e, v', c) = unwrite_lem len v l in
      inl (
        [],
        b',
        rw e,
        v',
        rw (le→leb _ _ l) (ap (λ xs. ok ([], xs)) (sym c)),
        omega (arith, unwrite-writer len v e),
      )
  | no m ↦ inr (
    assert_failed,
    rw (unwrite_too_much len v (omega arith)),
    rw (leb-false len (length (contents b)) (omega arith)),
  )
]

step-Agrees :
    (op : Op) {b : Buffer}
    → IsValid b
    → max cheap_prepend b.writer_index + volume (op ∷ []) ≤ max_size
    → Agrees op b
unfolding step queue_step
step-Agrees (put bytes) v h = put-Agrees bytes v (omega arith)
step-Agrees (get len) v h = get-Agrees len v
step-Agrees (unput len) v h = unput-Agrees len v
step-Agrees clear {b} v h = inl (
  [],
  retrieve_all b,
  refl,
  retrieve_all_lem v,
  unfold retrieve_all in refl,
  unfold retrieve_all in omega arith,
)

-- A well-formed buffer answers every history as the queue of its unread bytes does, faults
-- included, as long as the bytes that the history appends fit into the largest vector behind the
-- writer.
pub replies_refines :
    (ops : List Op) {b : Buffer}
    → IsValid b
    → max cheap_prepend b.writer_index + volume ops ≤ max_size
    → replies ops b ≡ queue_replies ops (contents b)
unfolding replies queue_replies
replies_refines [] v h = refl
replies_refines (op ∷ ops) {b} v h = elim (step-Agrees op v (omega (arith, volume-cons op ops))) [
  | inl (out, b', e, v', q, low) ↦
      rw (e, q)
        (ap (λ r. r >>= λ rest. ok (out ∷ rest))
          (replies_refines ops v' (omega (arith, low, volume-cons op ops))))
  | inr (f, e, q) ↦ rw (e, q)
]
