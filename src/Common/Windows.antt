-- ===== src/Common/Windows.antt =====
-- A range of an array, and what `std::copy` and `resize` leave in it.
use Prim.Native.Nat.{ℕ, ◌+◌, ◌-◌, ◌≤◌}
use mathlib.Core.Path.{◌≡◌, ap, ◌∙◌, sym}
use mathlib.Core.List.{List, ◌++◌}
use native.Mathlib.Omega.{arith}
use ouge_net_lib.Common.Lists.{
  length, take, drop, length-take, length-drop, length-append, drop-take, drop-drop, take-take,
  take-append_add, drop-append_add, take-append_le, drop-append_le, take_all,
}

-- The elements from index `i` up to index `j`.
abbrev pub window {ℓ} : {A : Type ℓ} → ℕ → ℕ → List A → List A
window i j xs = take (j - i) (drop i xs)

module _ {ℓ} {A : Type ℓ} where
  pub length-window : (i j : ℕ) (xs : List A) → j ≤ length xs → length (window i j xs) ≡ j - i
  length-window i j xs h = omega (arith, length-take (j - i) (drop i xs), length-drop i xs)

  pub drop-window :
      (n i j k : ℕ) (xs : List A) → k ≡ i + n → k ≤ j → drop n (window i j xs) ≡ window k j xs
  drop-window n i j k xs e h =
      drop-take n (j - i) (j - k) (drop i xs) (omega arith)
      ∙ ap (take (j - k)) (drop-drop n i k xs e)

  pub take-window :
      (n i j k : ℕ) (xs : List A) → k ≡ i + n → k ≤ j → take n (window i j xs) ≡ window i k xs
  take-window n i j k xs e h =
      take-take n (j - i) (drop i xs) (omega arith) ∙ ap (λ m. take m (drop i xs)) (omega arith)

  -- What stands before `i`, a block at `i`, and the rest.
  abbrev pub patched : ℕ → List A → List A → List A
  patched i src dst = take i dst ++ (src ++ drop (i + length src) dst)

  pub length-patched :
      (i : ℕ) (src dst : List A)
      → i + length src ≤ length dst
      → length (patched i src dst) ≡ length dst
  length-patched i src dst h = omega (
    arith,
    length-append src (drop (i + length src) dst),
    length-append (take i dst) (src ++ drop (i + length src) dst),
    length-take i dst,
    length-drop (i + length src) dst,
  )

  -- A block written at the end of a window lengthens it.
  pub window-patched_end :
      (i j k : ℕ) (src dst : List A)
      → i ≤ j
      → k ≡ j + length src
      → k ≤ length dst
      → window i k (patched j src dst) ≡ window i j dst ++ src
  window-patched_end i j k src dst h e l =
      let rest = drop (j + length src) dst in
      let fits : i ≤ length (take j dst) = omega (arith, length-take j dst) in
      let cut : k - i ≡ length (drop i (take j dst)) + length src =
        omega (arith, length-drop i (take j dst), length-take j dst) in
      rw (drop-append_le i (take j dst) (src ++ rest) fits) (
        rw (take-append_add (k - i) (length src) (drop i (take j dst)) (src ++ rest) cut) (
          rw
            (
              take-append_le (length src) src rest (omega arith),
              take_all (length src) src (omega arith),
            )
            (ap (λ (zs : List A). zs ++ src) (drop-take i j (j - i) dst (omega arith)))))

  -- A block written just before a window lengthens it at the front.
  pub window-patched_front :
      (i j k : ℕ) (src dst : List A)
      → j ≡ i + length src
      → j ≤ k
      → k ≤ length dst
      → window i k (patched i src dst) ≡ src ++ window j k dst
  window-patched_front i j k src dst e h l =
      rw
        (drop-append_add i 0 (take i dst) (src ++ drop (i + length src) dst)
          (omega (arith, length-take i dst)))
        (rw (take-append_add (k - i) (k - j) src (drop (i + length src) dst) (omega arith))
          (ap (λ m. src ++ take (k - j) (drop m dst)) (sym e)))

  -- New elements after the end leave a window as it is.
  pub window-append :
      (i j : ℕ) (xs ys : List A) → i ≤ j → j ≤ length xs → window i j (xs ++ ys) ≡ window i j xs
  window-append i j xs ys h l =
      rw (drop-append_le i xs ys (omega arith))
        (take-append_le (j - i) (drop i xs) ys (omega (arith, length-drop i xs)))
