-- ===== src/StringPiece/Makes.antt =====
-- A piece made of a text is the text.
use ouge_net_lib.Common.{
  ℕ, ◌%◌, ◌^◌, ◌<◌, ◌≤◌, ◌≡◌, refl, ap, ◌∙◌, true, List, [], ◌∷◌, ◌++◌, All, length, take, take_all,
  take-append_le, ◌==◌, arith,
}
use ouge_net_lib.StringPiece.{
  strlen, from_c_string, from_string, is_empty, as_string, equals, memcmp, same,
}

strlen-append :
    (text rest : List ℕ) → All (λ (c : ℕ). 1 ≤ c) text → strlen (text ++ 0 ∷ rest) ≡ length text
strlen-append [] rest h = refl
strlen-append (c ∷ cs) rest h = ground (arith, strlen-append cs rest h.1, h.0)

take_front : (text rest : List ℕ) → take (length text) (text ++ rest) ≡ text
take_front text rest =
    take-append_le (length text) text rest (omega arith) ∙ take_all (length text) text (omega arith)

memcmp_front : (text rest : List ℕ) → memcmp text (text ++ rest) (length text) ≡ same
unfolding memcmp
memcmp_front [] rest = refl
memcmp_front (c ∷ cs) rest = ground (arith, memcmp_front cs rest)

-- A text of fewer than 2 ^ 31 bytes, none of them 0: the piece made of the string and the one made of
-- the C string, whatever memory follows its end, both read as the text, and they are equal.
pub from_string-from_c_string :
    (text rest : List ℕ)
    → length text < 2 ^ 31
    → All (λ (c : ℕ). 1 ≤ c) text
    → (as_string (from_string text) ≡ text)
      × (as_string (from_c_string (text ++ 0 ∷ rest)) ≡ text)
      × (equals (from_string text) (from_c_string (text ++ 0 ∷ rest)) ≡ true)
      × (is_empty (from_c_string (text ++ 0 ∷ rest)) ≡ length text == 0)
unfolding as_string from_string from_c_string equals is_empty
from_string-from_c_string text rest short set =
    let small : length text % 2 ^ 32 ≡ length text = omega arith in
    (
      ap (λ n. take n text) small ∙ take_all (length text) text (omega arith),
      rw (strlen-append text rest set, small) (take_front text (0 ∷ rest)),
      rw (strlen-append text rest set, small, memcmp_front text (0 ∷ rest)) (ground arith),
      rw (strlen-append text rest set, small) refl,
    )
