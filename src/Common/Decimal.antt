-- ===== src/Common/Decimal.antt =====
-- Texts that `snprintf` writes: the decimal digits of a number, and the cut at the end of the array.
use Prim.Native.Nat.{ℕ, zero, suc, ◌+◌, ◌-◌, ◌*◌, ◌/◌, ◌%◌, ◌^◌, ◌≤◌, ◌<◌}
use mathlib.Core.Path.{◌≡◌, refl, sym, ap, ◌∙◌}
use mathlib.Core.Logic.{inl, inr}
use mathlib.Core.List.{List, [], ◌∷◌, ◌++◌}
use native.Mathlib.Omega.{arith}
use ouge_net_lib.Common.Tests.{ltb, if◌then◌else◌, Bool-cases}
use ouge_net_lib.Common.Lists.{length, take, drop, length-append}

-- `%d` of a number with at most `k + 1` digits.
abbrev pub decimal : ℕ → ℕ → List ℕ
decimal zero n = (48 + n) ∷ []
decimal (suc k) n =
    let front = decimal k (n / 10) in
    if ltb n 10 then (48 + n) ∷ [] else front ++ (48 + n % 10) ∷ []

-- An `int` has at most ten digits.
abbrev pub int_digits : ℕ → List ℕ
int_digits n = decimal 9 n

-- `snprintf (buf, size, ...)`, read back as a string.
abbrev pub print_into : ℕ → List ℕ → List ℕ
print_into size text = take (size - 1) text

abbrev pub value : ℕ → List ℕ → ℕ
value acc [] = acc
value acc (c ∷ cs) = value (acc * 10 + (c - 48)) cs

pub value-append :
    (acc d : ℕ) (cs : List ℕ) → value acc (cs ++ d ∷ []) ≡ value acc cs * 10 + (d - 48)
value-append acc d [] = refl
value-append acc d (c ∷ cs) = value-append (acc * 10 + (c - 48)) d cs

pub value-decimal : (k n : ℕ) → n < 10 ^ suc k → value 0 (decimal k n) ≡ n
value-decimal zero n h = omega arith
value-decimal (suc k) n h = elim (Bool-cases (ltb n 10)) [
  | inl b ↦ rw b (omega arith)
  | inr nb ↦
      rw
        (
          nb,
          value-append 0 (48 + n % 10) (decimal k (n / 10)),
          value-decimal k (n / 10) (fits k n h),
        )
        (omega arith)
]
  where
    fits : (k n : ℕ) → n < 10 ^ suc (suc k) → n / 10 < 10 ^ suc k
    fits k n h = omega arith

-- Different numbers print differently.
pub decimal_injective :
    (k m n : ℕ) → m < 10 ^ suc k → n < 10 ^ suc k → decimal k m ≡ decimal k n → m ≡ n
decimal_injective k m n hm hn same =
    sym (value-decimal k m hm) ∙ ap (value 0) same ∙ value-decimal k n hn

pub length-decimal : (k n : ℕ) → length (decimal k n) ≤ suc k
length-decimal zero n = omega arith
length-decimal (suc k) n = elim (Bool-cases (ltb n 10)) [
  | inl b ↦ rw b (omega arith)
  | inr nb ↦ rw nb (
      omega
        (arith, length-append (decimal k (n / 10)) ((48 + n % 10) ∷ []), length-decimal k (n / 10)))
]

pub append_cancel {ℓ} : {A : Type ℓ} (xs ys zs : List A) → xs ++ ys ≡ xs ++ zs → ys ≡ zs
append_cancel [] ys zs e = e
append_cancel (x ∷ xs) ys zs e = append_cancel xs ys zs (ap (drop 1) e)
