-- ===== src/Timestamp/Texts.antt =====
-- What the texts of a time hold.
use ouge_net_lib.Common.{
  ℕ, zero, suc, ◌+◌, ◌-◌, ◌*◌, ◌/◌, ◌%◌, ◌^◌, ◌≤◌, ◌<◌, ◌≡◌, refl, sym, ap, ◌∙◌, true, false,
  Bool-cases, inl, inr, List, [], ◌∷◌, ◌++◌, append_assoc, ltb, ◌==◌, if◌then◌else◌, length,
  length-append, length-replicate, take_all, append-nil, lt→ltb, replicate, take, arith,
}
use ouge_net_lib.Common.Decimal.{
  decimal, int_digits, value, value-append, value-decimal, length-decimal,
}
use ouge_net_lib.Timestamp.{
  micro_seconds_per_second, padded, spaced, to_string, Tm, day_time, date, to_formatted_string,
}

-- The number whose digits a text has; its points do not count.
abbrev pub read : ℕ → List ℕ → ℕ
read acc [] = acc
read acc (c ∷ cs) =
    let point = read acc cs in
    let digit = read (acc * 10 + (c - 48)) cs in if c == 46 then point else digit

read_digit : (acc d : ℕ) (rest : List ℕ) → read acc ((48 + d) ∷ rest) ≡ read (acc * 10 + d) rest
read_digit acc d rest = ground arith

read-decimal :
    (k n acc : ℕ) (rest : List ℕ)
    → read acc (decimal k n ++ rest) ≡ read (value acc (decimal k n)) rest
read-decimal zero n acc rest = ground arith
read-decimal (suc k) n acc rest = elim (Bool-cases (ltb n 10)) [
  | inl b ↦ rw b (ground arith)
  | inr nb ↦
      rw
        (
          nb,
          append_assoc (decimal k (n / 10)) ((48 + n % 10) ∷ []) rest,
          value-append acc (48 + n % 10) (decimal k (n / 10)),
        )
        (read-decimal k (n / 10) acc ((48 + n % 10) ∷ rest) ∙ ground arith)
]

length-padded : (w n : ℕ) → length (padded w n) ≡ w
length-padded zero n = refl
length-padded (suc w) n =
    length-append (padded w (n / 10)) _ ∙ omega (arith, length-padded w (n / 10))

read-padded :
    (w n acc : ℕ) (rest : List ℕ)
    → read acc (padded w n ++ rest) ≡ read (value acc (padded w n)) rest
read-padded zero n acc rest = refl
read-padded (suc w) n acc rest =
    rw
      (
        append_assoc (padded w (n / 10)) ((48 + n % 10) ∷ []) rest,
        value-append acc (48 + n % 10) (padded w (n / 10)),
      )
      (read-padded w (n / 10) acc ((48 + n % 10) ∷ rest) ∙ ground arith)

-- Six digits are a number below a million.
value-padded :
    (acc n : ℕ)
    → n < micro_seconds_per_second
    → value acc (padded 6 n) ≡ acc * micro_seconds_per_second + n
value-padded acc n small = omega arith

length-decimal_small : (k j n : ℕ) → n < 10 ^ suc j → length (decimal k n) ≤ suc j
length-decimal_small zero j n small = omega arith
length-decimal_small (suc k) zero n small = rw (lt→ltb n 10 (omega arith)) (omega arith)
length-decimal_small (suc k) (suc j) n small = elim (Bool-cases (ltb n 10)) [
  | inl b ↦ rw b (omega arith)
  | inr nb ↦ rw nb (
      omega (
        arith,
        length-append (decimal k (n / 10)) ((48 + n % 10) ∷ []),
        length-decimal_small k j (n / 10) (fits j n small),
      ))
]
  where
    fits : (j n : ℕ) → n < 10 ^ suc (suc j) → n / 10 < 10 ^ suc j
    fits j n h = omega arith

-- The text of a time that is not negative is its seconds, a point and six digits, none cut off, and read
-- as a number without the point it is the time.
pub to_string-read :
    (t : ℕ)
    → t < 2 ^ 63
    → (micros : List ℕ) × (to_string t ≡ decimal 18 (t / micro_seconds_per_second) ++ 46 ∷ micros)
      × (length micros ≡ 6)
      × (read 0 (to_string t) ≡ t)
unfolding to_string
to_string-read t small =
    let s = t / micro_seconds_per_second in
    let m = padded 6 (t % micro_seconds_per_second) in
    let whole : take 30 (decimal 18 s ++ 46 ∷ m) ≡ decimal 18 s ++ 46 ∷ m =
      take_all 30 (decimal 18 s ++ 46 ∷ m) (
        omega (
          arith,
          length-append (decimal 18 s) (46 ∷ m),
          length-decimal 18 s,
          length-padded 6 (t % micro_seconds_per_second),
        )) in
    (
      m,
      whole,
      length-padded 6 (t % micro_seconds_per_second),
      ap (read 0) whole
          ∙ read-decimal 18 s 0 (46 ∷ m)
          ∙ ap (λ a. read a m) (value-decimal 18 s (omega arith))
          ∙ ap (read s) (sym (append-nil m))
          ∙ read-padded 6 (t % micro_seconds_per_second) s []
          ∙ value-padded s (t % micro_seconds_per_second) (omega arith)
          ∙ omega arith,
    )

-- Below the year one million, with the two digits that `gmtime_r` gives for the other fields.
abbrev pub IsDate : Tm → Type 0
IsDate t = t.tm_year + 1900 < 10 ^ 6

length-spaced : (xs : List ℕ) → length xs ≤ 6 → length (spaced xs) ≤ 6
length-spaced xs short = omega (
  arith,
  length-append (replicate (4 - length xs) 32) xs,
  length-replicate {A = ℕ} (4 - length xs) 32,
)

date-length : (t : Tm) → IsDate t → length (date t) ≤ 19
date-length t h =
    let year = spaced (int_digits (t.tm_year + 1900)) in
    let clock : length (date t) ≡ length year + 13 = length-append year (day_time t) in
    omega (
      arith,
      clock,
      length-spaced (int_digits (t.tm_year + 1900)) (length-decimal_small 9 5 (t.tm_year + 1900) h),
    )

-- The array of 32 bytes takes the whole text of a date before the year one million, and with the
-- microseconds the text is that of the date, a point and six digits that read as the microseconds.
pub to_formatted_string_lem :
    (gmtime : ℕ → Tm) (t : ℕ)
    → IsDate (gmtime (t / micro_seconds_per_second))
    → (micros : List ℕ) × (to_formatted_string gmtime false t
        ≡ date (gmtime (t / micro_seconds_per_second)))
      × (to_formatted_string gmtime true t ≡ to_formatted_string gmtime false t ++ 46 ∷ micros)
      × (length micros ≡ 6)
      × (read 0 micros ≡ t % micro_seconds_per_second)
unfolding to_formatted_string
to_formatted_string_lem gmtime t h =
    let d = date (gmtime (t / micro_seconds_per_second)) in
    let m = padded 6 (t % micro_seconds_per_second) in
    let fits = date-length (gmtime (t / micro_seconds_per_second)) h in
    let short : take 31 d ≡ d = take_all 31 d (omega (arith, fits)) in
    let long : take 31 (d ++ 46 ∷ m) ≡ d ++ 46 ∷ m =
      take_all 31 (d ++ 46 ∷ m) (omega (arith, fits, length-append d (46 ∷ m))) in
    (
      m,
      short,
      long ∙ ap (λ x. x ++ 46 ∷ m) (sym short),
      length-padded 6 (t % micro_seconds_per_second),
      ap (read 0) (sym (append-nil m))
          ∙ read-padded 6 (t % micro_seconds_per_second) 0 []
          ∙ value-padded 0 (t % micro_seconds_per_second) (omega arith)
          ∙ omega arith,
    )
