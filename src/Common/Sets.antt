-- ===== src/Common/Sets.antt =====
-- `std::set` of pairs of numbers, as the list of its elements in ascending order.
use Prim.Native.Nat.{ℕ, suc}
use mathlib.Core.Path.{◌≡◌, refl}
use mathlib.Core.Bool.{Bool, true, false, ◌&&◌, ◌||◌, not}
use mathlib.Core.Logic.{inl, inr}
use mathlib.Core.List.{List, [], ◌∷◌, ◌++◌}
use native.Mathlib.Omega.{arith}
use ouge_net_lib.Common.Tests.{ltb, ◌==◌, if◌then◌else◌, Bool-cases}
use ouge_net_lib.Common.Lists.{length, All}

-- `operator<` of `std::pair`
abbrev pub before : ℕ × ℕ → ℕ × ℕ → Bool
before x y = ltb x.0 y.0 || x.0 == y.0 && ltb x.1 y.1

abbrev pub is_pair : ℕ × ℕ → ℕ × ℕ → Bool
is_pair x y = x.0 == y.0 && x.1 == y.1

abbrev pub member : ℕ × ℕ → List (ℕ × ℕ) → Bool
member x [] = false
member x (y ∷ ys) = is_pair x y || member x ys

-- `insert`, which changes nothing where the element is there
abbrev pub insert : ℕ × ℕ → List (ℕ × ℕ) → List (ℕ × ℕ)
insert x [] = x ∷ []
insert x (y ∷ ys) =
    let rest = insert x ys in
    if before x y then x ∷ y ∷ ys else if before y x then y ∷ rest else y ∷ ys

-- `erase` of an element, which changes nothing where it is missing
abbrev pub erase : ℕ × ℕ → List (ℕ × ℕ) → List (ℕ × ℕ)
erase x [] = []
erase x (y ∷ ys) = let rest = erase x ys in if is_pair x y then ys else y ∷ rest

-- The elements in front of `lower_bound (x)`, and those from there on.
abbrev pub in_front : ℕ × ℕ → List (ℕ × ℕ) → List (ℕ × ℕ)
in_front x [] = []
in_front x (y ∷ ys) = let rest = in_front x ys in if before y x then y ∷ rest else []

abbrev pub from_bound : ℕ × ℕ → List (ℕ × ℕ) → List (ℕ × ℕ)
from_bound x [] = []
from_bound x (y ∷ ys) = let rest = from_bound x ys in if before y x then rest else y ∷ ys

abbrev pub IsAbove : ℕ × ℕ → List (ℕ × ℕ) → Type 0
IsAbove x ys = All (λ y. before x y ≡ true) ys

abbrev pub IsSorted : List (ℕ × ℕ) → Type 0
IsSorted [] = Unit {0}
IsSorted (x ∷ xs) = IsAbove x xs × IsSorted xs

pub IsAbove-trans :
    (x y : ℕ × ℕ) (zs : List (ℕ × ℕ)) → before x y ≡ true → IsAbove y zs → IsAbove x zs
IsAbove-trans x y [] b h = tt
IsAbove-trans x y (z ∷ zs) b h = (ground (arith, b, h.0), IsAbove-trans x y zs b h.1)

pub member-insert :
    (x y : ℕ × ℕ) (s : List (ℕ × ℕ)) → member x (insert y s) ≡ (is_pair x y || member x s)
member-insert x y [] = refl
member-insert x y (z ∷ s) = ground (arith, member-insert x y s)

pub length-insert :
    (x : ℕ × ℕ) (s : List (ℕ × ℕ)) → member x s ≡ false → length (insert x s) ≡ suc (length s)
length-insert x [] h = refl
length-insert x (y ∷ s) h = ground (arith, length-insert x s, h)

IsAbove-insert :
    (x y : ℕ × ℕ) (s : List (ℕ × ℕ)) → before x y ≡ true → IsAbove x s → IsAbove x (insert y s)
IsAbove-insert x y [] b h = (b, tt)
IsAbove-insert x y (z ∷ s) b h = ground (arith, IsAbove-insert x y s b h.1, b, h)

pub insert-IsSorted : (x : ℕ × ℕ) (s : List (ℕ × ℕ)) → IsSorted s → IsSorted (insert x s)
insert-IsSorted x [] h = (tt, tt)
insert-IsSorted x (y ∷ s) h = elim (Bool-cases (before x y)) [
  | inl b ↦ rw b ((b, IsAbove-trans x y s b h.0), h)
  | inr nb ↦ elim (Bool-cases (before y x)) [
    | inl b ↦ rw (nb, b) (IsAbove-insert y x s b h.0, insert-IsSorted x s h.1)
    | inr nc ↦ rw (nb, nc) h
  ]
]

-- Nothing above an element is that element.
pub IsAbove-member :
    (x y : ℕ × ℕ) (s : List (ℕ × ℕ)) → IsAbove x s → member y s ≡ true → before x y ≡ true
IsAbove-member x y [] h m = ground (arith, m)
IsAbove-member x y (z ∷ s) h m = ground (arith, IsAbove-member x y s h.1, h, m)

pub member-erase :
    (x y : ℕ × ℕ) (s : List (ℕ × ℕ))
    → IsSorted s
    → member x (erase y s) ≡ (not (is_pair x y) && member x s)
member-erase x y [] h = ground arith
member-erase x y (z ∷ s) h = ground (arith, member-erase x y s h.1, IsAbove-member z x s h.0)

pub length-erase :
    (x : ℕ × ℕ) (s : List (ℕ × ℕ)) → member x s ≡ true → suc (length (erase x s)) ≡ length s
length-erase x [] h = ground (arith, h)
length-erase x (y ∷ s) h = ground (arith, length-erase x s, h)

IsAbove-erase : (x y : ℕ × ℕ) (s : List (ℕ × ℕ)) → IsAbove x s → IsAbove x (erase y s)
IsAbove-erase x y [] h = tt
IsAbove-erase x y (z ∷ s) h = ground (arith, IsAbove-erase x y s h.1, h)

pub erase-IsSorted : (x : ℕ × ℕ) (s : List (ℕ × ℕ)) → IsSorted s → IsSorted (erase x s)
erase-IsSorted x [] h = tt
erase-IsSorted x (y ∷ s) h = ground (arith, erase-IsSorted x s h.1, IsAbove-erase y x s h.0, h)

pub in_front-append : (x : ℕ × ℕ) (s : List (ℕ × ℕ)) → in_front x s ++ from_bound x s ≡ s
in_front-append x [] = refl
in_front-append x (y ∷ s) = ground (arith, in_front-append x s)

pub in_front-before : (x : ℕ × ℕ) (s : List (ℕ × ℕ)) → All (λ y. before y x ≡ true) (in_front x s)
in_front-before x [] = tt
in_front-before x (y ∷ s) = elim (Bool-cases (before y x)) [
  | inl b ↦ rw b (b, in_front-before x s)
  | inr nb ↦ rw nb tt
]

-- The elements from the bound on are not before it.
pub from_bound-after :
    (x : ℕ × ℕ) (s : List (ℕ × ℕ)) → IsSorted s → All (λ y. before y x ≡ false) (from_bound x s)
from_bound-after x [] h = tt
from_bound-after x (y ∷ s) h = elim (Bool-cases (before y x)) [
  | inl b ↦ rw b (from_bound-after x s h.1)
  | inr nb ↦ rw nb (nb, all_after nb s h.0)
]
  where
    all_after :
        before y x ≡ false → (zs : List (ℕ × ℕ)) → IsAbove y zs → All (λ z. before z x ≡ false) zs
    all_after nb [] g = tt
    all_after nb (z ∷ zs) g = (ground (arith, g.0, nb), all_after nb zs g.1)
