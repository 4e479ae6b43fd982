-- ===== src/Timestamp/Examples.antt =====
-- The first of January of 2009, and a microsecond more than a second.
use ouge_net_lib.Common.{ℕ, ◌/◌, ◌≡◌, refl, true, List, [], ◌∷◌, ◌++◌, length, arith}
use ouge_net_lib.Common.Decimal.{decimal}
use ouge_net_lib.Timestamp.{Tm, micro_seconds_per_second, to_string, to_formatted_string}
use ouge_net_lib.Timestamp.Texts.{read, to_string-read}

-- "1.000001"
one_second : to_string 1000001 ≡ 49 ∷ 46 ∷ 48 ∷ 48 ∷ 48 ∷ 48 ∷ 48 ∷ 49 ∷ []
unfolding to_string
one_second = refl

to_string-read_example :
    (micros : List ℕ) × (to_string 1000001
      ≡ decimal 18 (1000001 / micro_seconds_per_second) ++ 46 ∷ micros)
    × (length micros ≡ 6)
    × (read 0 (to_string 1000001) ≡ 1000001)
to_string-read_example = to_string-read 1000001 (omega arith)

abbrev new_year : Tm
new_year = record { tm_year = 109; tm_mon = 0; tm_mday = 1; tm_hour = 12; tm_min = 30; tm_sec = 5 }

-- "20090101 12:30:05.000042"
formatted :
    to_formatted_string (λ s. new_year) true 1230813005000042
    ≡ 50 ∷ 48 ∷ 48 ∷ 57 ∷ 48 ∷ 49 ∷ 48 ∷ 49 ∷ 32 ∷ 49 ∷ 50 ∷ 58 ∷ 51 ∷ 48 ∷ 58 ∷ 48 ∷ 53 ∷ 46 ∷ 48
      ∷ 48 ∷ 48 ∷ 48 ∷ 52 ∷ 50 ∷ []
unfolding to_formatted_string
formatted = refl
