-- ===== src/Packet/Reader/Starving.antt =====
-- `read_from_buffer` on the first bytes of a frame of at least 65532 payload bytes.
use ae_proxy.Base.{
  ℕ, ◌*◌, ◌<◌, ◌≤◌, ◌≡◌, List, ◌++◌, length, take, drop, false, ◌==◌, failure, Option, some,
}
use ae_proxy.PacketBuffer
use ae_proxy.PacketBuffer.{PacketBuffer}
use ae_proxy.Packet.{Framing, Packet}
use ae_proxy.Packet.Reader.{Round, stop}
use ae_proxy.Packet.Reader.Framed.{header}

abbrev pub IsNoEnd : Framing → ℕ → Type 0
IsNoEnd f x = (x == f.end_byte) ≡ false

module _ {S : Type 0} (b : PacketBuffer S) (f : Framing) (c : S → List ℕ)
    (laws : PacketBuffer.Laws b c) (n : ℕ) (large : 65532 ≤ n) (small : n < 65536) where
  open laws use {read_short, clear_n_contents, read_size_lem}

  -- The loop stands at the header, which it has read or finds next.
  abbrev AtHeader : S → List ℕ → Type 0
  AtHeader t text = 4 ≤ length (c t) → (tail : List ℕ) × (text ++ take 3 (c t) ≡ header f n ++ tail)

  -- The loop eats three bytes in each round, until at most three are left.
  record Starved (t : S) (r : Option (Round S)) : Type 0 where
    rest : S
    text : List ℕ
    rounds : ℕ
    result : r ≡ some (stop failure rest text)
    eaten : c rest ≡ drop (3 * rounds) (c t)
    few : length (c rest) < 4
