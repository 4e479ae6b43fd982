-- ===== src/InetAddress.antt =====
-- net/InetAddress.h, net/InetAddress.cc and the functions of net/SocketsOps.cc on addresses. A text
-- is a list of bytes. `inet_pton` and `inet_ntop` of the system are parameters, and the answer of
-- `gethostbyname_r` is an argument.
pub mod Texts
mod Examples
use ouge_net_lib.Common.{
  ℕ, ◌+◌, ◌-◌, Bool, true, false, ◌&&◌, Option, none, some, List, [], ◌∷◌, ◌++◌, length, ltb, ◌==◌,
  if◌then◌else◌, Result, ok, ◌>>=◌, ◌>>◌, assert,
}
use ouge_net_lib.Common.Decimal.{decimal, print_into}
use ouge_net_lib.Endian.{ByteOrder, host_to_network, network_to_host}
use ouge_net_lib.Sockets.{SockAddr, af_inet, zeroed}

abbrev pub inaddr_any : ℕ
inaddr_any = 0

abbrev pub inaddr_loopback : ℕ
inaddr_loopback = 0x7f000001

unfoldable pub from_port : ByteOrder → ℕ → Bool → SockAddr
from_port o port loopback_only = record zeroed {
  family = af_inet;
  address = host_to_network o 4 (if loopback_only then inaddr_loopback else inaddr_any);
  port = host_to_network o 2 port;
}

-- What `inet_pton` writes: nothing where it fails.
abbrev pub parsed : Option ℕ → ℕ → ℕ
parsed none before = before
parsed (some address) before = address

-- `sockets::fromIpPort`
unfoldable pub from_ip_port : (List ℕ → Option ℕ) → ByteOrder → List ℕ → ℕ → SockAddr → SockAddr
from_ip_port inet_pton o ip port addr = record {
  family = af_inet;
  port = host_to_network o 2 port;
  address = parsed (inet_pton ip) addr.address;
}

-- The constructor from a text and a port.
unfoldable pub from_ip : (List ℕ → Option ℕ) → ByteOrder → List ℕ → ℕ → SockAddr
unfolding from_ip_port
from_ip inet_pton o ip port = from_ip_port inet_pton o ip port zeroed

unfoldable pub to_port : ByteOrder → SockAddr → ℕ
to_port o a = network_to_host o 2 a.port

unfoldable pub ip_net_endian : SockAddr → Result ℕ
ip_net_endian a = do assert (a.family == af_inet); ok a.address

abbrev pub buffer_size : ℕ
buffer_size = 64

-- `toIp`, where the array is empty for another family.
unfoldable pub to_ip : (ℕ → List ℕ) → SockAddr → List ℕ
to_ip inet_ntop a = if a.family == af_inet then inet_ntop a.address else []

-- `toIpPort`: ":%u" behind the address.
unfoldable pub to_ip_port : (ℕ → List ℕ) → ByteOrder → SockAddr → Result (List ℕ)
unfolding to_ip to_port
to_ip_port inet_ntop o a = do
  let ip = to_ip inet_ntop a
  assert (ltb (length ip) buffer_size)
  ok (ip ++ print_into (buffer_size - length ip) (58 ∷ decimal 4 (to_port o a)))

-- The entry that `gethostbyname_r` gave.
pub record HostEntry : Type 0 where
  pub addrtype : ℕ
  pub addr_length : ℕ
  pub addr : ℕ

unfoldable pub resolve : ℕ → Option HostEntry → SockAddr → Result (Bool × SockAddr)
resolve ret none out = ok (false, out)
resolve ret (some he) out =
    if ret == 0
    then (do
      assert (he.addrtype == af_inet && he.addr_length == 4)
      ok (true, record out { address = he.addr }))
    else ok (false, out)
