-- ===== src/Common/Memory.antt =====
-- Arrays of bytes as lists: `std::copy` out of and into an array, and `std::vector::resize`.
-- An access past the end, which C++ leaves undefined, is the fault `out_of_bounds`.
use Prim.Native.Nat.{ℕ, ◌+◌, ◌-◌, ◌^◌, ◌≤◌}
use mathlib.Core.Path.{◌≡◌}
use mathlib.Core.List.{List, ◌++◌}
use ouge_net_lib.Common.Tests.{leb, le→leb}
use ouge_net_lib.Common.Lists.{length, take, drop, replicate}
use ouge_net_lib.Common.Results.{Result, ok, guard, ◌>>◌, length_error, out_of_bounds}

-- `std::vector<char>::max_size ()`
abbrev pub max_size : ℕ
max_size = 2 ^ 63 - 1

unfoldable pub read_at : ℕ → ℕ → List ℕ → Result (List ℕ)
read_at i n xs = do guard (leb (i + n) (length xs)) out_of_bounds; ok (take n (drop i xs))

unfoldable pub copy_to : ℕ → List ℕ → List ℕ → Result (List ℕ)
copy_to i src dst = do
  guard (leb (i + length src) (length dst)) out_of_bounds
  ok (take i dst ++ (src ++ drop (i + length src) dst))

unfoldable pub resize : ℕ → List ℕ → Result (List ℕ)
resize n xs = do guard (leb n max_size) length_error; ok (take n xs ++ replicate (n - length xs) 0)

pub read_at_ok :
    (i n : ℕ) (xs : List ℕ) → i + n ≤ length xs → read_at i n xs ≡ ok (take n (drop i xs))
unfolding read_at
read_at_ok i n xs h = rw (le→leb _ _ h)

pub copy_to_ok :
    (i : ℕ) (src dst : List ℕ)
    → i + length src ≤ length dst
    → copy_to i src dst ≡ ok (take i dst ++ (src ++ drop (i + length src) dst))
unfolding copy_to
copy_to_ok i src dst h = rw (le→leb _ _ h)

pub resize_ok :
    (n : ℕ) (xs : List ℕ)
    → n ≤ max_size
    → resize n xs ≡ ok (take n xs ++ replicate (n - length xs) 0)
unfolding resize
resize_ok n xs h = rw (le→leb _ _ h)
