-- ===== src/Timestamp.antt =====
-- base/Timestamp.h and base/Timestamp.cc: microseconds since the epoch, an `int64_t` that is not
-- negative, and its texts.
pub mod Texts
mod Examples
use ouge_net_lib.Common.{
  ℕ, zero, suc, ◌+◌, ◌-◌, ◌*◌, ◌/◌, ◌%◌, Bool, ltb, List, [], ◌∷◌, ◌++◌, if◌then◌else◌, length,
  replicate,
}
use ouge_net_lib.Common.Decimal.{decimal, int_digits, print_into}

abbrev pub micro_seconds_per_second : ℕ
micro_seconds_per_second = 1000 * 1000

unfoldable pub is_valid : ℕ → Bool
is_valid t = ltb 0 t

abbrev pub invalid : ℕ
invalid = 0

unfoldable pub seconds_since_epoch : ℕ → ℕ
seconds_since_epoch t = t / micro_seconds_per_second

unfoldable pub from_unix_time : ℕ → ℕ → ℕ
from_unix_time t microseconds = t * micro_seconds_per_second + microseconds

-- `delta` is `seconds * kMicroSecondsPerSecond` as an integer.
unfoldable pub add_time : ℕ → ℕ → ℕ
add_time t delta = t + delta

-- `gettimeofday` is an argument.
unfoldable pub now : ℕ → ℕ → ℕ
now tv_sec tv_usec = tv_sec * micro_seconds_per_second + tv_usec

-- `%0wd` of a number that has at most `w` digits.
abbrev pub padded : ℕ → ℕ → List ℕ
padded zero n = []
padded (suc w) n = padded w (n / 10) ++ (48 + n % 10) ∷ []

-- `%4d`
abbrev pub spaced : List ℕ → List ℕ
spaced digits = replicate (4 - length digits) 32 ++ digits

unfoldable pub to_string : ℕ → List ℕ
to_string t =
    print_into (32 - 1)
      (decimal 18 (t / micro_seconds_per_second) ++ 46 ∷ padded 6 (t % micro_seconds_per_second))

-- `struct tm`
pub record Tm : Type 0 where
  pub tm_year : ℕ
  pub tm_mon : ℕ
  pub tm_mday : ℕ
  pub tm_hour : ℕ
  pub tm_min : ℕ
  pub tm_sec : ℕ

-- "%02d%02d %02d:%02d:%02d"
abbrev pub day_time : Tm → List ℕ
day_time t =
    padded 2 (t.tm_mon + 1)
    ++ padded 2 t.tm_mday
    ++ 32 ∷ padded 2 t.tm_hour
    ++ 58 ∷ padded 2 t.tm_min
    ++ 58 ∷ padded 2 t.tm_sec

-- "%4d%02d%02d %02d:%02d:%02d"
abbrev pub date : Tm → List ℕ
date t = spaced (int_digits (t.tm_year + 1900)) ++ day_time t

-- `gmtime_r` is an argument.
unfoldable pub to_formatted_string : (ℕ → Tm) → Bool → ℕ → List ℕ
to_formatted_string gmtime show_microseconds t =
    let tm_time = gmtime (t / micro_seconds_per_second) in
    if show_microseconds
    then print_into 32 (date tm_time ++ 46 ∷ padded 6 (t % micro_seconds_per_second))
    else print_into 32 (date tm_time)
