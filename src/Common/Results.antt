-- ===== src/Common/Results.antt =====
-- What stops the program, as a value: a failed `assert`, an exception of `std::vector`, and what C++
-- leaves undefined: an overflow of an `int`, an access outside an array or through a null or dangling
-- pointer; and `std::terminate`.
use mathlib.Core.Bool.{Bool, true, false}
use mathlib.Core.Path.{◌≡◌, refl, subst}
use mathlib.Core.Logic.{◌⊎◌, inl, inr}

pub data Fault : Type 0 where
  assert_failed length_error out_of_bounds null_dereference dangling_pointer signed_overflow
        terminated :
      Fault

pub data Result {ℓ} (A : Type ℓ) : Type ℓ where
  ok : A → Result A
  err : Fault → Result A

abbrev pub guard : Bool → Fault → Result (Unit {0})
guard false fault = err fault
guard true fault = ok tt

-- `assert (b)`
abbrev pub assert : Bool → Result (Unit {0})
assert b = guard b assert_failed

-- A fault stops what follows.
infixl 5 ◌>>=◌ ◌>>◌
abbrev pub ◌>>=◌ {ℓ κ} : {A : Type ℓ} {B : Type κ} → Result A → (A → Result B) → Result B
err fault >>= rest = err fault
ok a >>= rest = rest a

abbrev pub ◌>>◌ {ℓ κ} : {A : Type ℓ} {B : Type κ} → Result A → Result B → Result B
first >> rest = first >>= λ a. rest

-- A result that is a success has a property.
abbrev pub Ensures {ℓ} : {A : Type ℓ} → Result A → (A → Type 0) → Type 0
Ensures (ok a) P = P a
Ensures (err fault) P = Unit

pub Result-cases {ℓ} :
    {A : Type ℓ} (r : Result A) → ((a : A) × (r ≡ ok a)) ⊎ ((fault : Fault) × (r ≡ err fault))
Result-cases (ok a) = inl (a, refl)
Result-cases (err fault) = inr (fault, refl)

pub Ensures-ok {ℓ} :
    {A : Type ℓ} (r : Result A) (P : A → Type 0) (a : A) → Ensures r P → r ≡ ok a → P a
Ensures-ok r P a h e = subst (λ x. Ensures x P) e h
