-- ===== src/Buffer/Search.antt =====
-- `findCRLF` and `findEOL`: where the first line end of the unread bytes stands. A pointer is its
-- index in the vector, and NULL is `none`.
use ouge_net_lib.Common.{
  ℕ, zero, suc, ◌+◌, ◌<◌, ◌≡◌, ◌⊎◌, refl, ap, inl, inr, true, false, ◌&&◌, List, [], ◌∷◌, subst,
  Option, none, some, arith, length, drop, get_elem?, ◌↔◌, window, leb, ◌==◌, if◌then◌else◌,
  Bool-cases, Option-cases, Result, ok, ◌>>◌, assert,
}
use mathlib.Core.Option
use ouge_net_lib.Buffer.{Buffer, retrieve_until}
use ouge_net_lib.Buffer.Valid.{IsValid, contents, Yields}
use ouge_net_lib.Buffer.Front.{retrieve_until_lem}

-- `std::search` for "\r\n": the offset of its first occurrence, or `none` for the range's end.
unfoldable pub search_crlf : List ℕ → Option ℕ
search_crlf [] = none
search_crlf (x ∷ []) = none
search_crlf (x ∷ y ∷ xs) =
    let later = search_crlf (y ∷ xs) in
    if x == b'\r' && y == b'\n' then some 0 else Option.map suc later

-- `memchr` for '\n'
unfoldable pub search_eol : List ℕ → Option ℕ
search_eol [] = none
search_eol (x ∷ xs) =
    let later = search_eol xs in if x == b'\n' then some 0 else Option.map suc later

unfoldable pub find_crlf : Buffer → Option ℕ
find_crlf b =
    Option.map (λ i. b.reader_index + i)
      (search_crlf (window b.reader_index b.writer_index b.buffer))

unfoldable pub find_crlf_from : ℕ → Buffer → Result (Option ℕ)
find_crlf_from start b = do
  assert (leb b.reader_index start)
  assert (leb start b.writer_index)
  ok (Option.map (λ i. start + i) (search_crlf (window start b.writer_index b.buffer)))

unfoldable pub find_eol : Buffer → Option ℕ
find_eol b =
    Option.map (λ i. b.reader_index + i)
      (search_eol (window b.reader_index b.writer_index b.buffer))

unfoldable pub find_eol_from : ℕ → Buffer → Result (Option ℕ)
find_eol_from start b = do
  assert (leb b.reader_index start)
  assert (leb start b.writer_index)
  ok (Option.map (λ i. start + i) (search_eol (window start b.writer_index b.buffer)))

-- "\r\n" stands at an offset; so does '\n'.
abbrev pub CrlfAt : ℕ → List ℕ → Type 0
CrlfAt i xs = (get_elem? xs i ≡ some b'\r') × (get_elem? xs (suc i) ≡ some b'\n')

abbrev pub EolAt : ℕ → List ℕ → Type 0
EolAt i xs = get_elem? xs i ≡ some b'\n'

-- The first offset at which a predicate holds, or that there is none.
abbrev pub First : (ℕ → Type 0) → Option ℕ → Type 0
First P (some i) = P i × ((j : ℕ) → j < i → ¬ P j)
First P none = (j : ℕ) → ¬ P j

First-suc :
    (P Q : ℕ → Type 0) (o : Option ℕ)
    → ((j : ℕ) → P (suc j) ↔ Q j)
    → ¬ P 0
    → First Q o
    → First P (Option.map suc o)
First-suc P Q none shift no0 f = none_at
  where
    none_at : (j : ℕ) → ¬ P j
    none_at zero h = no0 h
    none_at (suc j) h = f j ((shift j).0 h)
First-suc P Q (some i) shift no0 f = ((shift i).1 f.0, before)
  where
    before : (j : ℕ) → j < suc i → ¬ P j
    before zero l h = no0 h
    before (suc j) l h = f.1 j (omega arith) ((shift j).0 h)

CrlfAt-zero : (x y : ℕ) (xs : List ℕ) → (x == b'\r' && y == b'\n') ≡ true → CrlfAt 0 (x ∷ y ∷ xs)
CrlfAt-zero x y xs h = ground arith

not-CrlfAt-zero :
    (x y : ℕ) (xs : List ℕ) → (x == b'\r' && y == b'\n') ≡ false → ¬ CrlfAt 0 (x ∷ y ∷ xs)
not-CrlfAt-zero x y xs h c = ground arith

-- `std::search` finds the first line end.
search_crlf-First : (xs : List ℕ) → First (λ i. CrlfAt i xs) (search_crlf xs)
unfolding search_crlf
search_crlf-First [] = λ j h. cc (h.0)
search_crlf-First (x ∷ []) = λ j h. cc (h.1)
search_crlf-First (x ∷ y ∷ xs) = elim (Bool-cases (x == b'\r' && y == b'\n')) [
  | inl here ↦ rw here (CrlfAt-zero x y xs here, λ j l. absurd (omega arith))
  | inr later ↦ rw later (
      First-suc (λ i. CrlfAt i (x ∷ y ∷ xs)) (λ i. CrlfAt i (y ∷ xs)) (search_crlf (y ∷ xs))
        (λ j. (λ h. h, λ h. h)) (not-CrlfAt-zero x y xs later) (search_crlf-First (y ∷ xs)))
]

search_eol-First : (xs : List ℕ) → First (λ i. EolAt i xs) (search_eol xs)
unfolding search_eol
search_eol-First [] = λ j h. cc h
search_eol-First (x ∷ xs) = elim (Bool-cases (x == b'\n')) [
  | inl here ↦ rw here (ground arith, λ j l. absurd (omega arith))
  | inr later ↦ rw later (
      First-suc (λ i. EolAt i (x ∷ xs)) (λ i. EolAt i xs) (search_eol xs) (λ j. (λ h. h, λ h. h))
        (λ h. ground arith) (search_eol-First xs))
]

lt_of_get_elem? : (xs : List ℕ) (i x : ℕ) → get_elem? xs i ≡ some x → i < length xs
lt_of_get_elem? [] i x h = cc h
lt_of_get_elem? (y ∷ xs) zero x h = omega arith
lt_of_get_elem? (y ∷ xs) (suc i) x h = omega (arith, lt_of_get_elem? xs i x h)

-- What `findCRLF` finds: nothing, and then no "\r\n" is unread; or the first one, at the offset `i`
-- of the unread bytes, and then `retrieveUntil (crlf + 2)` succeeds and leaves what follows it.
abbrev pub LineFound : Buffer → Type 0
LineFound b =
    ((find_crlf b ≡ none) × ((j : ℕ) → ¬ CrlfAt j (contents b)))
    ⊎ ((i : ℕ) × (find_crlf b ≡ some (b.reader_index + i))
        × CrlfAt i (contents b)
        × ((j : ℕ) → j < i → ¬ CrlfAt j (contents b))
        × Yields (retrieve_until (b.reader_index + (i + 2)) b) (drop (i + 2) (contents b)))

-- `findCRLF` on a well-formed buffer finds no line end, and then none is unread; or the first one,
-- and then `retrieveUntil` of what follows it succeeds and leaves just that.
pub find_crlf-LineFound : {b : Buffer} → IsValid b → LineFound b
unfolding find_crlf
find_crlf-LineFound {b} v = elim (Option-cases (search_crlf (contents b))) [
  | inl e ↦ inl (
    ap (Option.map _) e,
    subst (First (λ i. CrlfAt i (contents b))) e (search_crlf-First (contents b)),
  )
  | inr (i, e) ↦
      let (at, before) =
        subst (First (λ i. CrlfAt i (contents b))) e (search_crlf-First (contents b)) in
      let inside = lt_of_get_elem? (contents b) (suc i) b'\n' at.1 in
      inr (i, ap (Option.map _) e, at, before, retrieve_until_lem (i + 2) v (omega (arith, inside)))
]

-- `findEOL` finds the first '\n' of the unread bytes, or none where there is none.
pub find_eol-First :
    {b : Buffer}
    → IsValid b
    → (o : Option ℕ) × (find_eol b ≡ Option.map (λ i. b.reader_index + i) o)
      × First (λ i. EolAt i (contents b)) o
unfolding find_eol
find_eol-First {b} v = (search_eol (contents b), refl, search_eol-First (contents b))
