-- ===== src/Endian/Wire.antt =====
-- The wire format does not depend on the host: the most significant byte comes first.
use mathlib.Core.List.{reverse-reverse, reverse-cons}
use ouge_net_lib.Common.{
  ℕ, zero, suc, ◌/◌, ◌^◌, ◌<◌, ◌≡◌, refl, ap, ap₂, ◌∙◌, List, [], ◌∷◌, ◌++◌, reverse, arith, length,
  All, length-reverse,
}
use native.Mathlib.Nat.{pow-suc}
use ouge_net_lib.Endian.{
  ByteOrder, little, big, le_bytes, le_value, to_memory, of_memory, host_to_network,
  network_to_host,
}

abbrev pub IsByte : ℕ → Type 0
IsByte b = b < 256

pub length-le_bytes : (k x : ℕ) → length (le_bytes k x) ≡ k
unfolding le_bytes
length-le_bytes zero x = refl
length-le_bytes (suc k) x = ap suc (length-le_bytes k (x / 256))

pub le_bytes-bytes : (k x : ℕ) → All IsByte (le_bytes k x)
unfolding le_bytes
le_bytes-bytes zero x = tt
le_bytes-bytes (suc k) x = (omega arith, le_bytes-bytes k (x / 256))

pub le_value-le_bytes : (k x : ℕ) → x < 256 ^ k → le_value (le_bytes k x) ≡ x
unfolding le_bytes le_value
le_value-le_bytes zero x h = omega arith
le_value-le_bytes (suc k) x h =
    omega (arith, pow-suc 256 k, le_value-le_bytes k (x / 256) (omega (arith, pow-suc 256 k)))

pub le_bytes-le_value :
    (bs : List ℕ) (k : ℕ) → All IsByte bs → length bs ≡ k → le_bytes k (le_value bs) ≡ bs
unfolding le_bytes le_value
le_bytes-le_value [] zero h e = refl
le_bytes-le_value [] (suc k) h e = absurd (omega arith)
le_bytes-le_value (b ∷ bs) zero h e = absurd (omega arith)
le_bytes-le_value (b ∷ bs) (suc k) h e =
    ap₂ ◌∷◌ (omega (arith, h.0))
      (ap (le_bytes k) (omega (arith, h.0)) ∙ le_bytes-le_value bs k h.1 (omega arith))

All-append : (xs ys : List ℕ) → All IsByte xs → All IsByte ys → All IsByte (xs ++ ys)
All-append [] ys h g = g
All-append (x ∷ xs) ys h g = (h.0, All-append xs ys h.1 g)

All-reverse : (xs : List ℕ) → All IsByte xs → All IsByte (reverse xs)
All-reverse [] h = tt
All-reverse (x ∷ xs) h =
    rw (reverse-cons x xs) (All-append (reverse xs) (x ∷ []) (All-reverse xs h.1) (h.0, tt))

-- The bytes of `x` on the wire, most significant first.
abbrev pub wire : ℕ → ℕ → List ℕ
wire k x = reverse (le_bytes k x)

pub length-wire : (k x : ℕ) → length (wire k x) ≡ k
length-wire k x = length-reverse (le_bytes k x) ∙ length-le_bytes k x

-- What the host puts into memory for the network is the wire format, for either byte order.
pub to_memory-host_to_network :
    (o : ByteOrder) (k x : ℕ) → to_memory o k (host_to_network o k x) ≡ wire k x
unfolding to_memory host_to_network
to_memory-host_to_network little k x =
    le_bytes-le_value (wire k x) k (All-reverse (le_bytes k x) (le_bytes-bytes k x))
      (length-wire k x)
to_memory-host_to_network big k x = refl

-- A host reads from the wire the integer that was written.
pub network_to_host-of_memory :
    (o : ByteOrder) (k x : ℕ) → x < 256 ^ k → network_to_host o k (of_memory o (wire k x)) ≡ x
unfolding network_to_host of_memory
network_to_host-of_memory little k x h =
    rw
      (le_bytes-le_value (wire k x) k (All-reverse (le_bytes k x) (le_bytes-bytes k x))
        (length-wire k x))
      (rw reverse-reverse (le_value-le_bytes k x h))
network_to_host-of_memory big k x h = rw reverse-reverse (le_value-le_bytes k x h)
