-- ===== src/SocketAddr/Text.antt =====
-- The text form of an address of ae/socket_addr.cpp.
use ae_proxy.Base.{
  ℕ, ◌%◌, ◌^◌, ◌<◌, ◌≡◌, ◌≢◌, ◌⊎◌, inl, inr, refl, ap, sym, ◌∙◌, List, [], ◌∷◌, ◌++◌, ℤ, ◌==◌,
  ==_iff, arith, Bool-cases, All,
}
use mathlib.Core.Bool.{true≢false}
use mathlib.Core.List.{nil≢cons, head-eq_of_cons-eq, tail-eq_of_cons-eq}
use ae_proxy.SocketAddr.{
  SocketAddr, Ipv, new_addr, htons, from_sockaddr, addr_to_str, addr_to_string, get_hash_code,
}
use ae_proxy.SocketAddr.Decimal.{
  to_string, IsNumeral, All-map, to_string-IsNumeral, to_string-injective,
}

-- The byte does not occur.
abbrev pub Lacks : ℕ → List ℕ → Type 0
Lacks c xs = All (λ x. x ≢ c) xs

-- The text before the first separator, and the text after it, are determined.
pub split_first :
    (c : ℕ) (xs xs' : List ℕ) {ys ys' : List ℕ}
    → Lacks c xs
    → Lacks c xs'
    → xs ++ (c ∷ ys) ≡ xs' ++ (c ∷ ys')
    → (xs ≡ xs') × (ys ≡ ys')
split_first c [] [] h k e = (refl, tail-eq_of_cons-eq e)
split_first c [] (x ∷ xs') h (k, ks) e = absurd (k (sym (head-eq_of_cons-eq e)))
split_first c (x ∷ xs) [] (h, hs) k e = absurd (h (head-eq_of_cons-eq e))
split_first c (x ∷ xs) (x' ∷ xs') (h, hs) (k, ks) e =
    let (before, after) = split_first c xs xs' hs ks (tail-eq_of_cons-eq e) in
    ((λ i. head-eq_of_cons-eq e i ∷ before i), after)

Lacks-middle : (c : ℕ) (xs ys zs : List ℕ) → Lacks c zs → zs ≢ (xs ++ (c ∷ ys))
Lacks-middle c [] ys [] h e = nil≢cons e
Lacks-middle c (x ∷ xs) ys [] h e = nil≢cons e
Lacks-middle c [] ys (z ∷ zs) (h, hs) e = h (head-eq_of_cons-eq e)
Lacks-middle c (x ∷ xs) ys (z ∷ zs) (h, hs) e = Lacks-middle c xs ys zs hs (tail-eq_of_cons-eq e)

-- The same of the last separator.
pub split_last :
    (c : ℕ) (xs xs' : List ℕ) {ys ys' : List ℕ}
    → Lacks c ys
    → Lacks c ys'
    → xs ++ (c ∷ ys) ≡ xs' ++ (c ∷ ys')
    → (xs ≡ xs') × (ys ≡ ys')
split_last c [] [] h k e = (refl, tail-eq_of_cons-eq e)
split_last c [] (x ∷ xs') h k e = absurd (Lacks-middle c xs' _ _ h (tail-eq_of_cons-eq e))
split_last c (x ∷ xs) [] h k e = absurd (Lacks-middle c xs _ _ k (sym (tail-eq_of_cons-eq e)))
split_last c (x ∷ xs) (x' ∷ xs') h k e =
    let (before, after) = split_last c xs xs' h k (tail-eq_of_cons-eq e) in
    ((λ i. head-eq_of_cons-eq e i ∷ before i), after)

pub to_string-Lacks : (c : ℕ) (z : ℤ) → b'9' < c → Lacks c (to_string z)
to_string-Lacks c z h =
    All-map IsNumeral (λ x. x ≢ c) (λ x. numeral x) (to_string z) (to_string-IsNumeral z)
  where
    numeral : (x : ℕ) → IsNumeral x → x ≢ c
    numeral x (inl e) = λ e'. omega (arith, h, e, e')
    numeral x (inr (l, u)) = λ e'. omega (arith, h, u, e')

-- Two addresses with the same text have the same ip and the same port, whatever the ip's text is.
pub addr_to_string-injective :
    (a b : SocketAddr) → addr_to_string a ≡ addr_to_string b → (a.ip ≡ b.ip) × (a.port ≡ b.port)
unfolding addr_to_string
addr_to_string-injective a b e =
    let (ips, ports) =
      split_last b':' a.ip b.ip (to_string-Lacks b':' (ℤ.pos a.port) (omega arith))
        (to_string-Lacks b':' (ℤ.pos b.port) (omega arith)) e in
    (ips, pos-injective (to_string-injective (ℤ.pos a.port) (ℤ.pos b.port) ports))
  where
    value : ℤ → ℕ
    value (ℤ.pos n) = n
    value (ℤ.negsuc n) = 0

    pos-injective : {n m : ℕ} → ℤ.pos n ≡ ℤ.pos m → n ≡ m
    pos-injective e = ap value e

pub htons-htons : (n : ℕ) → n < 2 ^ 16 → htons (htons n) ≡ n
htons-htons n h = omega (arith, h)

-- The name of a connection tells its peer: where `inet_ntop` writes different texts for different
-- addresses of a version, two peers of that version whose ports fit 16 bits have the same name only
-- if their addresses and ports are the same.
pub addr_to_str-injective :
    (inet_ntop : List ℕ → Ipv → List ℕ) (ipv : Ipv) (addr other : List ℕ) (port other_port : ℕ)
    → ((x y : List ℕ) → inet_ntop x ipv ≡ inet_ntop y ipv → x ≡ y)
    → port < 2 ^ 16
    → other_port < 2 ^ 16
    → addr_to_str inet_ntop addr port ipv ≡ addr_to_str inet_ntop other other_port ipv
    → (addr ≡ other) × (port ≡ other_port)
unfolding addr_to_str addr_to_string
addr_to_str-injective inet_ntop ipv addr other port other_port injective h k e =
    let (ips, ports) =
      addr_to_string-injective (from_sockaddr inet_ntop addr port ipv)
        (from_sockaddr inet_ntop other other_port ipv) e in
    (
      injective addr other ips,
      sym (htons-htons port h) ∙ (ap htons ports ∙ htons-htons other_port k),
    )

-- An address read back from a socket's address, whose port stands in network order, prints as the
-- address that it was made from, when the ip's text is what `inet_ntop` writes.
pub from_sockaddr-new_addr :
    (inet_ntop : List ℕ → Ipv → List ℕ) (ip addr : List ℕ) (port : ℕ) (ipv : Ipv)
    → inet_ntop addr ipv ≡ ip
    → from_sockaddr inet_ntop addr (htons (new_addr ip port ipv).port) ipv ≡ new_addr ip port ipv
from_sockaddr-new_addr inet_ntop ip addr port ipv e = λ i. record {
  ip = e i;
  port = htons-htons (port % 2 ^ 16) (omega arith) i;
  ipv = ipv;
  hash_code = 0;
}

-- The cached hash is that of the text.
unfoldable pub IsHashed : (List ℕ → ℕ) → SocketAddr → Type 0
IsHashed hash a = (a.hash_code ≡ 0) ⊎ (a.hash_code ≡ hash (addr_to_string a))

-- Asking for the hash gives the hash of the address's text, and keeps the text and a right cache.
pub get_hash_code_lem :
    (hash : List ℕ → ℕ) (a : SocketAddr)
    → IsHashed hash a
    → ((get_hash_code hash a).1 ≡ hash (addr_to_string a))
      × (addr_to_string (get_hash_code hash a).0 ≡ addr_to_string a)
      × IsHashed hash (get_hash_code hash a).0
unfolding get_hash_code IsHashed addr_to_string
get_hash_code_lem hash a h = elim (Bool-cases (a.hash_code == 0)) [
  | inl zero_hash ↦ rw zero_hash (refl, refl, inr refl)
  | inr cached ↦ rw cached (
    elim h [
      | inl none_yet ↦ absurd (true≢false (sym ((==_iff a.hash_code 0).1 none_yet) ∙ cached))
      | inr right ↦ right
    ],
    refl,
    h,
  )
]
