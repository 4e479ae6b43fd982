-- ===== src/StringPiece/Examples.antt =====
-- "ab" and "abc".
use ouge_net_lib.Common.{◌≡◌, true, false, [], ◌∷◌, arith}
use ouge_net_lib.StringPiece.{StringPiece, compare, less, less_eq, equals, as_string}
use ouge_net_lib.StringPiece.Order.{IsValid, dictionary, compare-dictionary}

abbrev two_letters : StringPiece
two_letters = record { ptr = 97 ∷ 98 ∷ 0 ∷ []; length_pattern = 2 }

abbrev three_letters : StringPiece
three_letters = record { ptr = 97 ∷ 98 ∷ 99 ∷ []; length_pattern = 3 }

two_letters-IsValid : IsValid two_letters
two_letters-IsValid = omega arith

three_letters-IsValid : IsValid three_letters
three_letters-IsValid = omega arith

compare-dictionary_example :
    (compare two_letters three_letters
      ≡ dictionary (as_string two_letters) (as_string three_letters))
    × (less two_letters three_letters ≡ true)
    × (less_eq two_letters three_letters ≡ true)
    × (equals two_letters three_letters ≡ false)
unfolding as_string
compare-dictionary_example =
    compare-dictionary two_letters three_letters two_letters-IsValid three_letters-IsValid
