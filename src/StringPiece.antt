-- ===== src/StringPiece.antt =====
-- base/StringPiece.h: a pointer to bytes and their number.
pub mod Order
pub mod Makes
mod Examples
use ouge_net_lib.Common.{
  ℕ, zero, suc, ◌+◌, ◌-◌, ◌%◌, ◌^◌, Bool, true, false, ◌&&◌, ◌||◌, not, List, [], ◌∷◌, take, drop,
  length, ltb, leb, ◌==◌, if◌then◌else◌,
}

-- `ptr` is the memory from `ptr_` on, and `length_pattern` is `length_`, an `int`, as its bit pattern
-- below 2 ^ 32.
pub record StringPiece : Type 0 where
  pub ptr : List ℕ
  pub length_pattern : ℕ

-- `size_t` of an `int`: the sign is extended.
abbrev pub size_of_int : ℕ → ℕ
size_of_int n = if ltb n (2 ^ 31) then n else n + (2 ^ 64 - 2 ^ 32)

-- The one without an argument; `ptr_` is NULL, so it has no memory.
unfoldable pub new_piece : StringPiece
new_piece = record { ptr = []; length_pattern = 0 }

-- `strlen`; the memory has a zero.
abbrev pub strlen : List ℕ → ℕ
strlen [] = 0
strlen (c ∷ cs) = let n = strlen cs in if c == 0 then 0 else suc n

unfoldable pub from_c_string : List ℕ → StringPiece
from_c_string str = record { ptr = str; length_pattern = strlen str % 2 ^ 32 }

unfoldable pub from_string : List ℕ → StringPiece
from_string str = record { ptr = str; length_pattern = length str % 2 ^ 32 }

unfoldable pub from_offset : List ℕ → ℕ → StringPiece
from_offset offset len = record { ptr = offset; length_pattern = len }

-- The four that change the piece in place.
unfoldable pub clear : StringPiece → StringPiece
clear s = record s { ptr = []; length_pattern = 0 }

unfoldable pub set : List ℕ → ℕ → StringPiece → StringPiece
set buffer len s = record s { ptr = buffer; length_pattern = len }

unfoldable pub set_c_string : List ℕ → StringPiece → StringPiece
set_c_string str s = record s { ptr = str; length_pattern = strlen str % 2 ^ 32 }

unfoldable pub is_empty : StringPiece → Bool
is_empty s = s.length_pattern == 0

-- The sign of what a comparison returns.
pub data Sign : Type 0 where
  below same above : Sign

abbrev pub is_below : Sign → Bool
is_below below = true
is_below _ = false

abbrev pub is_same : Sign → Bool
is_same same = true
is_same _ = false

-- `memcmp` of the first `n` bytes, which both arrays have.
unfoldable pub memcmp : List ℕ → List ℕ → ℕ → Sign
memcmp xs ys zero = same
memcmp [] ys (suc n) = same
memcmp (x ∷ xs) [] (suc n) = same
memcmp (x ∷ xs) (y ∷ ys) (suc n) =
    let rest = memcmp xs ys n in if ltb x y then below else if ltb y x then above else rest

-- `length_ < x.length_ ? length_ : x.length_`, of lengths that are not negative
abbrev pub shorter : ℕ → ℕ → ℕ
shorter m n = if ltb m n then m else n

unfoldable pub equals : StringPiece → StringPiece → Bool
unfolding memcmp
equals s x = s.length_pattern == x.length_pattern && is_same (memcmp s.ptr x.ptr s.length_pattern)

unfoldable pub differs : StringPiece → StringPiece → Bool
unfolding equals
differs s x = not (equals s x)

unfoldable pub less : StringPiece → StringPiece → Bool
unfolding memcmp
less s x =
    let r = memcmp s.ptr x.ptr (shorter s.length_pattern x.length_pattern) in
    is_below r || is_same r && ltb s.length_pattern x.length_pattern

unfoldable pub less_eq : StringPiece → StringPiece → Bool
unfolding memcmp
less_eq s x =
    let r = memcmp s.ptr x.ptr (shorter s.length_pattern x.length_pattern) in
    is_below r || is_same r && leb s.length_pattern x.length_pattern

unfoldable pub greater : StringPiece → StringPiece → Bool
unfolding less_eq
greater s x = not (less_eq s x)

unfoldable pub greater_eq : StringPiece → StringPiece → Bool
unfolding less
greater_eq s x = not (less s x)

-- What `compare` makes of the sign of `memcmp`.
abbrev pub by_length : Sign → ℕ → ℕ → Sign
by_length below m n = below
by_length above m n = above
by_length same m n = if ltb m n then below else if ltb n m then above else same

unfoldable pub compare : StringPiece → StringPiece → Sign
unfolding memcmp
compare s x =
    by_length (memcmp s.ptr x.ptr (shorter s.length_pattern x.length_pattern)) s.length_pattern
      x.length_pattern

unfoldable pub starts_with : StringPiece → StringPiece → Bool
unfolding memcmp
starts_with s x =
    leb x.length_pattern s.length_pattern && is_same (memcmp s.ptr x.ptr x.length_pattern)

unfoldable pub as_string : StringPiece → List ℕ
as_string s = take s.length_pattern s.ptr

-- The length is a 32-bit `int`; `n` is not negative.
unfoldable pub remove_prefix : ℕ → StringPiece → StringPiece
remove_prefix n s = record {
  ptr = drop n s.ptr;
  length_pattern = (s.length_pattern + (2 ^ 32 - n)) % 2 ^ 32;
}

unfoldable pub remove_suffix : ℕ → StringPiece → StringPiece
remove_suffix n s = record s { length_pattern = (s.length_pattern + (2 ^ 32 - n)) % 2 ^ 32 }
