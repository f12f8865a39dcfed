-- ===== src/Tests/Names.antt =====
-- The names of connections.
use ae_proxy.Base.{
  ℕ, ◌≡◌, ◌⊎◌, inl, inr, true, ◌∷◌, [], List, some, ℤ, is_zero, length, ◌==◌, if◌then◌else◌, refl,
  arith, Bool-cases,
}
use ae_proxy.SocketAddr.Structure.{
  Sockaddr, Parsed, Fills, no_address, addr, addr_of_text, addr_of_sockaddr, port, ip,
  addr-addr_of_text,
}
use ae_proxy.SocketAddr.{Ipv, ipv4, ipv6, htons}
use ae_proxy.SocketAddr.Text.{addr_to_str-injective}

-- Prints the bytes as they are.
abbrev print_bytes : List ℕ → Ipv → List ℕ
print_bytes addr ipv = addr

abbrev localhost : List ℕ
localhost = 127 ∷ 0 ∷ 0 ∷ 1 ∷ []

abbrev http : ℕ
http = 80

addr_to_str-injective_example : (localhost ≡ localhost) × (http ≡ http)
addr_to_str-injective_example =
    addr_to_str-injective print_bytes ipv4 localhost localhost http http (λ x y e. e) (omega arith)
      (omega arith) refl

-- A libuv for addresses of four bytes that stand for themselves.
abbrev take_four : Ipv → List ℕ → ℕ → Parsed
take_four ipv4 host port =
    if length host == 4
    then record { written = record { sin_addr = host; sin_port = htons port }; status = ℤ.pos 0 }
    else record {
      written = record { sin_addr = no_address ipv4; sin_port = htons port };
      status = ℤ.negsuc 21;
    }
take_four ipv6 host port = record {
  written = record { sin_addr = no_address ipv6; sin_port = htons port };
  status = ℤ.negsuc 21;
}

take_four-Fills : Fills take_four
take_four-Fills ipv4 host port = elim (Bool-cases (length host == 4)) [
  | inl four ↦ rw four (refl, inl refl)
  | inr other ↦ rw other (refl, inr refl)
]
take_four-Fills ipv6 host port = (refl, inr refl)

addr-addr_of_text_example :
    (s : Sockaddr) × (addr (addr_of_text take_four localhost http ipv4) ≡ some s)
    × (addr (addr_of_sockaddr print_bytes s ipv4) ≡ some s)
    × (port (addr_of_sockaddr print_bytes s ipv4) ≡ http)
    × (ip (addr_of_text take_four localhost http ipv4) ≡ localhost)
    × (((is_zero (take_four ipv4 localhost http).status ≡ true)
          × (ip (addr_of_sockaddr print_bytes s ipv4) ≡ print_bytes s.sin_addr ipv4))
        ⊎ (ip (addr_of_sockaddr print_bytes s ipv4) ≡ print_bytes (no_address ipv4) ipv4))
addr-addr_of_text_example =
    addr-addr_of_text take_four print_bytes localhost http ipv4 take_four-Fills

-- An ip that is no address: libuv is given the address without a bit set.
zeroed :
    addr (addr_of_text take_four (1 ∷ []) http ipv4)
    ≡ some (record { sin_addr = no_address ipv4; sin_port = htons http })
unfolding addr addr_of_text
zeroed = refl
