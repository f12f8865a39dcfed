-- ===== src/Tests/Proxies.antt =====
-- The addresses and the UDP proxy.
use ae_proxy.Base.{
  ℕ, ◌+◌, ◌-◌, ◌≡◌, inl, inr, refl, ap, sym, ◌∙◌, List, [], ◌∷◌, Option, some, none, ℤ, ltb, ltb→lt,
  if◌then◌else◌, Bool-cases, length, get_or, arith,
}
use mathlib.Core.Option.{none-ne-some}
use ae_proxy.SocketAddr.{SocketAddr, Ipv, ipv4, new_addr}
use ae_proxy.SocketAddr.Text.{Lacks}
use ae_proxy.Msgpack.{Object, str, integer, Unpacker}
use ae_proxy.Msgpack.Folding.{Advances}
use ae_proxy.UdpProxy.Key.{session_key-injective}

-- An unpacker of one byte for each object: a small one is an integer, a large one a letter.
abbrev pub byte_object : ℕ → Object
byte_object b = if ltb b 128 then integer b else str ((b - 128) ∷ [])

abbrev pub byte_unpacker : Unpacker
byte_unpacker buffer offset =
    if ltb offset (length buffer)
    then some (byte_object (get_or buffer offset 0), offset + 1)
    else none

abbrev next_offset : Option (Object × ℕ) → ℕ
next_offset none = 0
next_offset (some (obj, offset)) = offset

pub byte_unpacker-Advances : Advances byte_unpacker
unfolding Advances
byte_unpacker-Advances buffer offset obj offset' e =
    elim (Bool-cases (ltb offset (length buffer))) [
      | inl h ↦
          (let moved : offset + 1 ≡ offset' =
              sym (
                ap
                  (λ b.
                    next_offset
                      (if b then some (byte_object (get_or buffer offset 0), offset + 1) else none))
                  h)
              ∙ ap next_offset e in
            (omega (arith, moved), omega (arith, moved, ltb→lt offset (length buffer) h)))
      | inr h ↦ absurd (
          none-ne-some _ (
            sym (
              ap (λ b. if b then some (byte_object (get_or buffer offset 0), offset + 1) else none)
                h)
            ∙ e))
    ]

abbrev pub host : List ℕ
host = 104 ∷ []

-- The ip "h", the port 80, the message "m", and one object too many.
abbrev datagram : List ℕ
datagram = 232 ∷ 80 ∷ 237 ∷ 9 ∷ []

abbrev sender : SocketAddr
sender = new_addr (49 ∷ 46 ∷ 50 ∷ []) 4000 ipv4

Lacks-sender : Lacks b':' sender.ip
Lacks-sender = (ground arith, (ground arith, (ground arith, _)))

session_key-injective_example :
    (sender.ip ≡ sender.ip) × (ℤ.pos 1 ≡ ℤ.pos 1) × (host ≡ host) × (ℤ.negsuc 4 ≡ ℤ.negsuc 4)
session_key-injective_example =
    session_key-injective sender.ip sender.ip host host (ℤ.pos 1) (ℤ.pos 1) (ℤ.negsuc 4)
      (ℤ.negsuc 4) Lacks-sender Lacks-sender refl

-- An address that prints as two letters.
abbrev print_address : List ℕ → Ipv → List ℕ
print_address addr ipv = 97 ∷ 98 ∷ []
