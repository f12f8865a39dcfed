-- ===== src/SocketAddr.antt =====
-- ae/socket_addr.h and ae/socket_addr.cpp: an address as text. Strings are lists of bytes.
pub mod Decimal
pub mod Text
pub mod Structure
use ae_proxy.Base.{
  ℕ, ◌+◌, ◌*◌, ◌/◌, ◌%◌, ◌^◌, Bool, true, false, List, [], ◌∷◌, ◌++◌, ℤ, ◌==◌, if◌then◌else◌,
}
use Decimal.{to_string}

pub data Ipv : Type 0 where
  ipv4 ipv6 : Ipv

pub record SocketAddr : Type 0 where
  pub ip : List ℕ
  pub port : ℕ  -- unsigned short
  pub ipv : Ipv
  pub hash_code : ℕ  -- 0 until it is asked for

-- The constructor from a text; a port is converted to an unsigned short of 16 bits.
abbrev pub new_addr : List ℕ → ℕ → Ipv → SocketAddr
new_addr ip port ipv = record { ip = ip; port = port % 2 ^ 16; ipv = ipv; hash_code = 0 }

-- `htons` on a machine with the low byte first.
abbrev pub htons : ℕ → ℕ
htons n = n % 256 * 256 + n / 256

-- `get_ip_and_port`, and the constructor from a socket's address: its port stands in network order,
-- and `inet_ntop` writes its text.
abbrev pub from_sockaddr : (List ℕ → Ipv → List ℕ) → List ℕ → ℕ → Ipv → SocketAddr
from_sockaddr inet_ntop addr sin_port ipv = record {
  ip = inet_ntop addr ipv;
  port = htons sin_port;
  ipv = ipv;
  hash_code = 0;
}

-- `addr_to_str`, of the address that `uv_tcp_getpeername` gives for a client.
unfoldable pub addr_to_str : (List ℕ → Ipv → List ℕ) → List ℕ → ℕ → Ipv → List ℕ
addr_to_str inet_ntop addr sin_port ipv =
    inet_ntop addr ipv ++ (b':' ∷ to_string (ℤ.pos (htons sin_port)))

unfoldable pub addr_to_string : SocketAddr → List ℕ
addr_to_string a = a.ip ++ (b':' ∷ to_string (ℤ.pos a.port))

-- `hash_code()`, with the object it leaves.
unfoldable pub get_hash_code : (List ℕ → ℕ) → SocketAddr → SocketAddr × ℕ
get_hash_code hash a =
    if a.hash_code == 0
    then (let h = hash (addr_to_string a) in (record a { hash_code = h }, h))
    else (a, a.hash_code)
