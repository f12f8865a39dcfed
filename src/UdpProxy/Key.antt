-- ===== src/UdpProxy/Key.antt =====
-- The keys of the sessions of app/udp_proxy.cpp.
use ae_proxy.Base.{ℕ, ◌≡◌, refl, List, [], ◌∷◌, ℤ, inl, inr, ne→==, ◌==◌, Bool-cases, arith}
use ae_proxy.SocketAddr.Decimal.{to_string, to_string-injective}
use ae_proxy.SocketAddr.Text.{Lacks, split_first, split_last, to_string-Lacks}
use ae_proxy.UdpProxy.{c_str, session_key}

-- Two sessions whose clients' ips have no colon have the same key only if they are of the same client,
-- its ip and port, and the same server, its ip and port, whatever text a datagram gives as the
-- server's ip.
pub session_key-injective :
    (cip cip' sip sip' : List ℕ) (cport cport' sport sport' : ℤ)
    → Lacks b':' cip
    → Lacks b':' cip'
    → session_key cip cport sip sport ≡ session_key cip' cport' sip' sport'
    → (cip ≡ cip') × (cport ≡ cport') × (sip ≡ sip') × (sport ≡ sport')
unfolding session_key
session_key-injective cip cip' sip sip' cport cport' sport sport' h k e =
    let (cips, after) = split_first b':' cip cip' h k e in
    let (cports, servers) =
      split_first b'@' (to_string cport) (to_string cport')
        (to_string-Lacks b'@' cport (omega arith)) (to_string-Lacks b'@' cport' (omega arith))
        after in
    let (sips, sports) =
      split_last b':' sip sip' (to_string-Lacks b':' sport (omega arith))
        (to_string-Lacks b':' sport' (omega arith)) servers in
    (cips, to_string-injective cport cport' cports, sips, to_string-injective sport sport' sports)

pub c_str-Lacks : (c : ℕ) (xs : List ℕ) → Lacks c xs → Lacks c (c_str xs)
unfolding c_str
c_str-Lacks c [] h = _
c_str-Lacks c (x ∷ xs) (h, hs) = elim (Bool-cases (x == 0)) [
  | inl e ↦ rw e _
  | inr e ↦ rw e (h, c_str-Lacks c xs hs)
]

-- A text without NUL passes through a `const char*` whole.
pub c_str-whole : (xs : List ℕ) → Lacks 0 xs → c_str xs ≡ xs
unfolding c_str
c_str-whole [] h = refl
c_str-whole (x ∷ xs) (h, hs) = rw (ne→== h, c_str-whole xs hs) refl
