-- ===== src/InetAddress/Examples.antt =====
-- The address "10.0.0.1", port 8080, of net/InetAddress.cc.
use ouge_net_lib.Common.{
  ℕ, ◌≡◌, ◌==◌, refl, Option, none, some, List, [], ◌∷◌, ◌++◌, arith, if◌then◌else◌, ok,
}
use ouge_net_lib.Common.Decimal.{decimal}
use ouge_net_lib.Endian.{little}
use ouge_net_lib.InetAddress.{from_ip, to_ip, to_port, to_ip_port}
use ouge_net_lib.InetAddress.Texts.{to_ip_port-from_ip}

-- 10.0.0.1
abbrev ten : List ℕ
ten = 49 ∷ 48 ∷ 46 ∷ 48 ∷ 46 ∷ 48 ∷ 46 ∷ 49 ∷ []

-- As a little-endian host holds it.
abbrev ten_address : ℕ
ten_address = 0x0100000a

abbrev reads : List ℕ → Option ℕ
reads [] = none
reads (c ∷ cs) = some (if c == 49 then ten_address else 0)

abbrev writes : ℕ → List ℕ
writes a = if a == ten_address then ten else []

to_ip_port-from_ip_example :
    (to_ip writes (from_ip reads little ten 8080) ≡ ten)
    × (to_port little (from_ip reads little ten 8080) ≡ 8080)
    × (to_ip_port writes little (from_ip reads little ten 8080) ≡ ok (ten ++ 58 ∷ decimal 4 8080))
to_ip_port-from_ip_example =
    to_ip_port-from_ip reads writes little ten 8080 ten_address refl refl (omega arith)
      (omega arith)

printed : decimal 4 8080 ≡ 56 ∷ 48 ∷ 56 ∷ 48 ∷ []
printed = refl
