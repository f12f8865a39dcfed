-- ===== src/SocketAddr/Structure.antt =====
-- The structures of ae/socket_addr.cpp that libuv is given: what the constructors write, and what an
-- address that came from libuv says.
use ae_proxy.Base.{
  ℕ, ◌%◌, ◌^◌, ◌≡◌, ◌⊎◌, inl, inr, arith, refl, ap, ◌∙◌, true, List, [], ◌∷◌, Option, none, some, ℤ,
  is_zero,
}
use ae_proxy.SocketAddr.{SocketAddr, Ipv, ipv4, ipv6, new_addr, htons, addr_to_string}
use ae_proxy.SocketAddr.Text.{htons-htons}

-- `sockaddr_in` or `sockaddr_in6`: the bytes of the address, and the port in network order.
pub record Sockaddr : Type 0 where
  pub sin_addr : List ℕ
  pub sin_port : ℕ

-- An address with its two structures. A constructor writes that of its version; the other, which is
-- uninitialised, is `none`.
pub record FullAddr : Type 0 where
  pub text : SocketAddr
  pub ipv4_addr : Option Sockaddr
  pub ipv6_addr : Option Sockaddr

abbrev pub write_structure : Ipv → SocketAddr → Sockaddr → FullAddr
write_structure ipv4 a s = record { text = a; ipv4_addr = some s; ipv6_addr = none }
write_structure ipv6 a s = record { text = a; ipv4_addr = none; ipv6_addr = some s }

-- What `uv_ip4_addr` or `uv_ip6_addr` leaves in the structure, and what it returns. It writes the
-- structure whether it takes the text or not.
pub record Parsed : Type 0 where
  pub written : Sockaddr
  pub status : ℤ

-- The constructors from a text, which look at no result. `uv_ip_addr` is `uv_ip4_addr` or
-- `uv_ip6_addr`, and reads the text up to its first NUL.
unfoldable pub addr_of_text : (Ipv → List ℕ → ℕ → Parsed) → List ℕ → ℕ → Ipv → FullAddr
addr_of_text uv_ip_addr ip port ipv =
    let a = new_addr ip port ipv in write_structure ipv a (uv_ip_addr ipv ip a.port).written

-- `get_ip_and_port`, where `inet_ntop` stands for `inet_ntoa` too.
unfoldable pub get_ip_and_port : (List ℕ → Ipv → List ℕ) → Sockaddr → Ipv → List ℕ × ℕ
get_ip_and_port inet_ntop addr ipv = (inet_ntop addr.sin_addr ipv, htons addr.sin_port)

-- The constructor from a socket's address.
unfoldable pub addr_of_sockaddr : (List ℕ → Ipv → List ℕ) → Sockaddr → Ipv → FullAddr
addr_of_sockaddr inet_ntop s ipv =
    let (ip, port) = get_ip_and_port inet_ntop s ipv in
    write_structure ipv (record { ip = ip; port = port; ipv = ipv; hash_code = 0 }) s

abbrev pub addr_by : Ipv → FullAddr → Option Sockaddr
addr_by ipv4 a = a.ipv4_addr
addr_by ipv6 a = a.ipv6_addr

-- `addr()`: what the pointer leads to.
unfoldable pub addr : FullAddr → Option Sockaddr
addr a = addr_by a.text.ipv a

-- The getters, and `to_string` into a string that it replaces.
abbrev pub port : FullAddr → ℕ
port a = a.text.port

abbrev pub ip : FullAddr → List ℕ
ip a = a.text.ip

abbrev pub ipv : FullAddr → Ipv
ipv a = a.text.ipv

abbrev pub to_string_into : FullAddr → List ℕ → List ℕ
to_string_into a str = addr_to_string a.text

addr-write_structure :
    (version : Ipv) (a : SocketAddr) (s : Sockaddr)
    → a.ipv ≡ version
    → addr (write_structure version a s) ≡ some s
unfolding addr
addr-write_structure ipv4 a s e = ap (λ v. addr_by v (write_structure ipv4 a s)) e
addr-write_structure ipv6 a s e = ap (λ v. addr_by v (write_structure ipv6 a s)) e

text-write_structure :
    (version : Ipv) (a : SocketAddr) (s : Sockaddr) → (write_structure version a s).text ≡ a
text-write_structure ipv4 a s = refl
text-write_structure ipv6 a s = refl

-- The address that has no bit set: 0.0.0.0 or ::.
abbrev pub no_address : Ipv → List ℕ
no_address ipv4 = 0 ∷ 0 ∷ 0 ∷ 0 ∷ []
no_address ipv6 = 0 ∷ 0 ∷ 0 ∷ 0 ∷ 0 ∷ 0 ∷ 0 ∷ 0 ∷ 0 ∷ 0 ∷ 0 ∷ 0 ∷ 0 ∷ 0 ∷ 0 ∷ 0 ∷ []

-- What libuv leaves in a structure: always the port in network order, and, when it refuses the text,
-- the address without a bit set.
abbrev pub Fills : (Ipv → List ℕ → ℕ → Parsed) → Type 0
Fills uv_ip_addr =
    (version : Ipv) (host : List ℕ) (port : ℕ)
    → ((uv_ip_addr version host port).written.sin_port ≡ htons port)
      × ((is_zero (uv_ip_addr version host port).status ≡ true)
          ⊎ ((uv_ip_addr version host port).written.sin_addr ≡ no_address version))

-- An address made from a text and given to libuv by `addr()` comes back, when it is read from that
-- structure, with the same structure and the port that was asked for, of which 16 bits are kept; and
-- its ip is the text that `inet_ntop` prints of the structure. When libuv refuses the text nothing
-- is reported: what comes back is the address without a bit set, while `ip()` is the refused text.
-- It relies on libuv to write the port in network order always, and no bit of the address when it
-- refuses the text.
pub addr-addr_of_text :
    (uv_ip_addr : Ipv → List ℕ → ℕ → Parsed) (inet_ntop : List ℕ → Ipv → List ℕ) (host : List ℕ)
    (number : ℕ) (version : Ipv)
    → Fills uv_ip_addr
    → (s : Sockaddr) × (addr (addr_of_text uv_ip_addr host number version) ≡ some s)
      × (addr (addr_of_sockaddr inet_ntop s version) ≡ some s)
      × (port (addr_of_sockaddr inet_ntop s version) ≡ number % 2 ^ 16)
      × (ip (addr_of_text uv_ip_addr host number version) ≡ host)
      × (((is_zero (uv_ip_addr version host (number % 2 ^ 16)).status ≡ true)
            × (ip (addr_of_sockaddr inet_ntop s version) ≡ inet_ntop s.sin_addr version))
          ⊎ (ip (addr_of_sockaddr inet_ntop s version) ≡ inet_ntop (no_address version) version))
unfolding addr_of_text addr_of_sockaddr get_ip_and_port
addr-addr_of_text uv_ip_addr inet_ntop host number version fills =
    let a = new_addr host number version in
    let s = (uv_ip_addr version host a.port).written in
    let back : SocketAddr = record {
      ip = inet_ntop s.sin_addr version;
      port = htons s.sin_port;
      ipv = version;
      hash_code = 0;
    } in
    let (in_order, outcome) = fills version host a.port in
    let read = text-write_structure version back s in
    (
      s,
      addr-write_structure version a s refl,
      addr-write_structure version back s refl,
      ap (λ t. t.port) read ∙ ap htons in_order ∙ htons-htons (number % 2 ^ 16) (omega arith),
      ap (λ t. t.ip) (text-write_structure version a s),
      elim outcome [
        | inl taken ↦ inl (taken, ap (λ t. t.ip) read)
        | inr refused ↦ inr (ap (λ t. t.ip) read ∙ ap (λ x. inet_ntop x version) refused)
      ],
    )
