-- ===== src/InetAddress/Texts.antt =====
-- An address that was made from a text and a port prints as they are.
use ouge_net_lib.Common.{
  ℕ, ◌-◌, ◌≤◌, ◌<◌, ◌≡◌, refl, Option, some, List, ◌∷◌, ◌++◌, length, arith, take_all, lt→ltb, ok,
}
use ouge_net_lib.Common.Decimal.{decimal, length-decimal}
use ouge_net_lib.Endian.{
  ByteOrder, little, big, host_to_network, network_to_host, le_bytes, le_value,
}
use ouge_net_lib.InetAddress.{from_ip, to_port, to_ip, to_ip_port}

-- Two bytes swapped twice.
pub network_to_host-host_to_network :
    (o : ByteOrder) (x : ℕ) → x < 65536 → network_to_host o 2 (host_to_network o 2 x) ≡ x
unfolding network_to_host host_to_network le_bytes le_value
network_to_host-host_to_network little x h = omega arith
network_to_host-host_to_network big x h = refl

module _ (inet_pton : List ℕ → Option ℕ) (inet_ntop : ℕ → List ℕ) where
  -- Where `inet_pton` reads the text `ip` as an address, which `inet_ntop` writes as the same text of
  -- at most 15 bytes, the address made from `ip` and a 16-bit port gives them both back, on a host of
  -- either byte order, and `toIpPort` fails no `assert` and writes `ip`, a colon and the whole port.
  pub to_ip_port-from_ip :
      (o : ByteOrder) (ip : List ℕ) (port address : ℕ)
      → inet_pton ip ≡ some address
      → inet_ntop address ≡ ip
      → length ip ≤ 15
      → port < 65536
      → (to_ip inet_ntop (from_ip inet_pton o ip port) ≡ ip)
        × (to_port o (from_ip inet_pton o ip port) ≡ port)
        × (to_ip_port inet_ntop o (from_ip inet_pton o ip port) ≡ ok (ip ++ 58 ∷ decimal 4 port))
  unfolding to_ip to_port to_ip_port from_ip
  to_ip_port-from_ip o ip port address reads writes short small =
      let back = network_to_host-host_to_network o port small in
      let whole =
        take_all (64 - length ip - 1) (58 ∷ decimal 4 port)
          (omega (arith, length-decimal 4 port, short)) in
      (
        rw (reads, writes) refl,
        back,
        rw (reads, writes, back, lt→ltb (length ip) 64 (omega (arith, short)), whole) refl,
      )
