-- ===== src/StringPiece/Order.antt =====
-- The comparisons against the dictionary order of the bytes.
use ouge_net_lib.Common.{
  ℕ, zero, suc, ◌+◌, ◌≤◌, ◌<◌, ◌^◌, ◌≡◌, refl, sym, ap, ◌∙◌, true, ◌||◌, List, [], ◌∷◌, ◌++◌,
  length, take, drop, arith, take-append-drop, take-take, length-append, length-take,
  take-append_le, take_all, length-drop, ◌-◌, ◌%◌, ltb, if◌then◌else◌,
}
use ouge_net_lib.StringPiece.{
  StringPiece, Sign, remove_prefix, remove_suffix, below, same, above, is_below, is_same, memcmp,
  shorter, equals, less, less_eq, by_length, compare, starts_with, as_string,
}

-- The piece lies within its memory, and its length is not negative.
pub record IsValid (s : StringPiece) : Type 0 where
  pub inside : s.length_pattern ≤ length s.ptr
  pub positive : s.length_pattern < 2 ^ 31

-- The dictionary order.
abbrev pub dictionary : List ℕ → List ℕ → Sign
dictionary [] [] = same
dictionary [] (y ∷ ys) = below
dictionary (x ∷ xs) [] = above
dictionary (x ∷ xs) (y ∷ ys) =
    let rest = dictionary xs ys in if ltb x y then below else if ltb y x then above else rest

by_length-memcmp :
    (m n : ℕ) (xs ys : List ℕ)
    → m ≤ length xs
    → n ≤ length ys
    → by_length (memcmp xs ys (shorter m n)) m n ≡ dictionary (take m xs) (take n ys)
unfolding memcmp
by_length-memcmp zero zero xs ys h g = refl
by_length-memcmp zero (suc n) xs [] h g = absurd (omega arith)
by_length-memcmp zero (suc n) xs (y ∷ ys) h g = ground arith
by_length-memcmp (suc m) zero [] ys h g = absurd (omega arith)
by_length-memcmp (suc m) zero (x ∷ xs) ys h g = ground arith
by_length-memcmp (suc m) (suc n) [] ys h g = absurd (omega arith)
by_length-memcmp (suc m) (suc n) (x ∷ xs) [] h g = absurd (omega arith)
by_length-memcmp (suc m) (suc n) (x ∷ xs) (y ∷ ys) h g =
    let rest = by_length-memcmp m n xs ys (omega arith) (omega arith) in
    rw (shorter-suc m n) (ground (arith, rest))
  where
    shorter-suc : (m n : ℕ) → shorter (suc m) (suc n) ≡ suc (shorter m n)
    shorter-suc m n = ground arith

-- `compare`, `<`, `<=` and `==` of pieces within their memory agree with the dictionary order of the
-- bytes.
pub compare-dictionary :
    (s x : StringPiece)
    → IsValid s
    → IsValid x
    → (compare s x ≡ dictionary (as_string s) (as_string x))
      × (less s x ≡ is_below (dictionary (as_string s) (as_string x)))
      × (less_eq s x ≡ (
          is_below (dictionary (as_string s) (as_string x))
          || is_same (dictionary (as_string s) (as_string x))))
      × (equals s x ≡ is_same (dictionary (as_string s) (as_string x)))
unfolding compare less less_eq equals as_string
compare-dictionary s x v w =
    let e = by_length-memcmp s.length_pattern x.length_pattern s.ptr x.ptr v.inside w.inside in
    (e, ground (arith, e), ground (arith, e), ground (arith, e))

memcmp-take :
    (n : ℕ) (xs ys : List ℕ)
    → n ≤ length xs
    → n ≤ length ys
    → (memcmp xs ys n ≡ same → take n xs ≡ take n ys)
      × (take n xs ≡ take n ys → memcmp xs ys n ≡ same)
unfolding memcmp
memcmp-take zero xs ys h g = (λ e. refl, λ e. refl)
memcmp-take (suc n) [] ys h g = absurd (omega arith)
memcmp-take (suc n) (x ∷ xs) [] h g = absurd (omega arith)
memcmp-take (suc n) (x ∷ xs) (y ∷ ys) h g =
    let (fwd, bwd) = memcmp-take n xs ys (omega arith) (omega arith) in
    (λ e. ground (arith, fwd, e), λ e. ground (arith, bwd, e))

-- `starts_with` of pieces within their memory says whether the bytes of the one begin with those of
-- the other.
pub starts_with-append :
    (s x : StringPiece)
    → IsValid s
    → IsValid x
    → (starts_with s x ≡ true → (rest : List ℕ) × (as_string s ≡ as_string x ++ rest))
      × ((rest : List ℕ) → as_string s ≡ as_string x ++ rest → starts_with s x ≡ true)
unfolding starts_with as_string
starts_with-append s x v w = (found, begins)
  where
    m : ℕ
    m = x.length_pattern

    n : ℕ
    n = s.length_pattern

    found : starts_with s x ≡ true → (rest : List ℕ) × (take n s.ptr ≡ take m x.ptr ++ rest)
    found e =
        let fits : m ≤ n = ground (arith, e) in
        let at =
          (memcmp-take m s.ptr x.ptr (omega (arith, v.inside)) w.inside).0 (ground (arith, e)) in
        (
          drop m (take n s.ptr),
          sym (take-append-drop m (take n s.ptr))
              ∙ ap (λ (zs : List ℕ). zs ++ drop m (take n s.ptr)) (take-take m n s.ptr fits ∙ at),
        )

    begins : (rest : List ℕ) → take n s.ptr ≡ take m x.ptr ++ rest → starts_with s x ≡ true
    begins rest e =
        let fits : m ≤ n = omega (
          arith,
          ap length e,
          length-append (take m x.ptr) rest,
          length-take m x.ptr,
          length-take n s.ptr,
          v.inside,
          w.inside,
        ) in
        let front : take m s.ptr ≡ take m x.ptr =
          sym (take-take m n s.ptr fits)
          ∙ ap (take m) e
          ∙ take-append_le m (take m x.ptr) rest (omega (arith, length-take m x.ptr, w.inside))
          ∙ take_all m (take m x.ptr) (omega (arith, length-take m x.ptr)) in
        ground (arith, fits, (memcmp-take m s.ptr x.ptr (omega (arith, v.inside)) w.inside).1 front)

nil-take : (k : ℕ) → (let none_left : List ℕ = [] in none_left) ≡ take k []
nil-take zero = refl
nil-take (suc k) = refl

drop-take : (n m : ℕ) (xs : List ℕ) → drop n (take m xs) ≡ take (m - n) (drop n xs)
drop-take zero m xs = let e : m ≡ m - 0 = omega arith in ap (λ k. take k xs) e
drop-take (suc n) zero xs =
    let e : 0 ≡ zero - suc n = omega arith in ap (λ k. take k (drop (suc n) xs)) e
drop-take (suc n) (suc m) [] = nil-take (suc m - suc n)
drop-take (suc n) (suc m) (x ∷ xs) =
    let e : m - n ≡ suc m - suc n = omega arith in drop-take n m xs ∙ ap (λ k. take k (drop n xs)) e

-- `remove_prefix` and `remove_suffix` of no more than the piece has take as many bytes from its front
-- and from its end, and keep it within its memory.
pub remove_prefix-remove_suffix :
    (n : ℕ) (s : StringPiece)
    → IsValid s
    → n ≤ s.length_pattern
    → IsValid (remove_prefix n s)
      × (as_string (remove_prefix n s) ≡ drop n (as_string s))
      × IsValid (remove_suffix n s)
      × (as_string (remove_suffix n s) ≡ take (s.length_pattern - n) (as_string s))
unfolding remove_prefix remove_suffix as_string
remove_prefix-remove_suffix n s v h =
    let left : (s.length_pattern + (2 ^ 32 - n)) % 2 ^ 32 ≡ s.length_pattern - n =
      omega (arith, v.positive) in
    (
      ground (arith, v.inside, v.positive, left, length-drop n s.ptr),
      ap (λ m. take m (drop n s.ptr)) left ∙ sym (drop-take n s.length_pattern s.ptr),
      ground (arith, v.inside, v.positive, left),
      ap (λ m. take m s.ptr) left
          ∙ sym (take-take (s.length_pattern - n) s.length_pattern s.ptr (omega arith)),
    )
