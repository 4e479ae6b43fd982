-- ===== src/Endian.antt =====
-- net/Endian.h: `htobe16/32/64` and `be16/32/64toh` of <endian.h>, and the bytes that an integer of
-- `k` bytes has in memory, on a host of either byte order. An integer is its bit pattern.
pub mod Wire
use ouge_net_lib.Common.{ℕ, zero, suc, ◌+◌, ◌*◌, ◌/◌, ◌%◌, List, [], ◌∷◌, reverse}

pub data ByteOrder : Type 0 where
  little big : ByteOrder

-- Least significant byte first.
unfoldable pub le_bytes : ℕ → ℕ → List ℕ
le_bytes zero x = []
le_bytes (suc k) x = x % 256 ∷ le_bytes k (x / 256)

unfoldable pub le_value : List ℕ → ℕ
le_value [] = 0
le_value (b ∷ bs) = b + 256 * le_value bs

-- The memory of an integer of `k` bytes, and the integer that some memory holds.
unfoldable pub to_memory : ByteOrder → ℕ → ℕ → List ℕ
to_memory little k x = le_bytes k x
to_memory big k x = reverse (le_bytes k x)

unfoldable pub of_memory : ByteOrder → List ℕ → ℕ
of_memory little bs = le_value bs
of_memory big bs = le_value (reverse bs)

-- `htobe` and `betoh` swap the bytes on a little-endian host only.
unfoldable pub host_to_network : ByteOrder → ℕ → ℕ → ℕ
host_to_network little k x = le_value (reverse (le_bytes k x))
host_to_network big k x = x

unfoldable pub network_to_host : ByteOrder → ℕ → ℕ → ℕ
network_to_host little k x = le_value (reverse (le_bytes k x))
network_to_host big k x = x
