-- ===== src/GlobalConfig/Receiving.antt =====
-- A receiver over ae/packet_buffer.h: it appends what arrives and reads packets until there is none.
use ae_proxy.Base.{
  ℕ, zero, suc, ◌+◌, ◌<◌, ◌≤◌, ◌≡◌, refl, sym, ap, List, [], ◌∷◌, ◌++◌, map, Option, none, some,
  is_zero, if◌then◌else◌, length, take, All, arith,
}
use mathlib.Core.Option.{bind}
use mathlib.Core.List.{nil≢cons, tail-eq_of_cons-eq, head-eq_of_cons-eq}
use ae_proxy.PacketBuffer.{PacketBuffer}
use ae_proxy.Packet.{Framing, Packet, empty_packet, pack}
use ae_proxy.Packet.Frame.{frame, pack-frame}
use ae_proxy.GlobalConfig.{Reading, GlobalConfig, read_packet}

module _ {S O : Type 0} (b : PacketBuffer S) (config : GlobalConfig S O) where
  abbrev pub read_first : Packet → Option (List Packet × S) → Option (List Packet × S)
  read_first p none = none
  read_first p (some (ps, s)) = some (p ∷ ps, s)

  abbrev pub drained :
      Option (Reading S Packet) → (S → Option (List Packet × S)) → Option (List Packet × S)
  drained none rest = none
  drained (some r) rest =
      if is_zero r.status then read_first r.out (rest r.buffer) else some ([], r.buffer)

  -- Packets are read while the status is 0. `none`: out of fuel.
  unfoldable pub drain : ℕ → S → Option (List Packet × S)
  drain zero s = none
  drain (suc fuel) s = drained (read_packet config s empty_packet) (drain fuel)

  -- Each piece that arrives is appended, and the packets are read, with fuel for each byte.
  unfoldable pub receive : S → List (List ℕ) → Option (List Packet × S)
  receive s [] = some ([], s)
  receive s (piece ∷ pieces) =
      let s1 = (b.append s piece).0 in
      bind (drain (suc (b.read_size s1)) s1)
        (λ (ps, s2). bind (receive s2 pieces) (λ (qs, s3). some (ps ++ qs, s3)))

-- The bytes of the frames that a sender writes for its payloads.
abbrev pub stream : Framing → List (List ℕ) → List ℕ
stream f [] = []
stream f (payload ∷ payloads) = frame f payload ++ stream f payloads

abbrev pub concat : List (List ℕ) → List ℕ
concat [] = []
concat (piece ∷ pieces) = piece ++ concat pieces

-- The bytes are a proper part of the next frame.
abbrev pub IsPart : List ℕ → List (List ℕ) → Type 0
IsPart xs [] = xs ≡ []
IsPart xs (payload ∷ payloads) = length xs < length payload + 4

pub empty_prefix : (xs ys : List ℕ) → xs ++ ys ≡ [] → xs ≡ []
empty_prefix [] ys e = refl
empty_prefix (x ∷ xs) ys e = absurd (nil≢cons (sym e))

pub begins :
    (xs ys us vs : List ℕ) → xs ++ ys ≡ us ++ vs → length xs < length us → xs ≡ take (length xs) us
begins [] ys us vs e h = refl
begins (x ∷ xs) ys [] vs e h = absurd (omega arith)
begins (x ∷ xs) ys (u ∷ us) vs e h =
    let later = begins xs ys us vs (tail-eq_of_cons-eq e) (omega arith) in
    let same = head-eq_of_cons-eq e in λ i. same i ∷ later i

-- A sequence that begins with two lists: the shorter one begins the longer one.
pub split_prefix :
    (xs ys us vs : List ℕ)
    → xs ++ ys ≡ us ++ vs
    → length us ≤ length xs
    → (rest : List ℕ) × (xs ≡ us ++ rest) × (rest ++ ys ≡ vs)
split_prefix xs ys [] vs e h = (xs, refl, e)
split_prefix [] ys (u ∷ us) vs e h = absurd (omega arith)
split_prefix (x ∷ xs) ys (u ∷ us) vs e h =
    let (rest, e1, e2) = split_prefix xs ys us vs (tail-eq_of_cons-eq e) (omega arith) in
    let same = head-eq_of_cons-eq e in (rest, λ i. same i ∷ e1 i, e2)

pub IsPart-nil : (xs : List ℕ) (payloads : List (List ℕ)) → xs ≡ [] → IsPart xs payloads
IsPart-nil xs [] e = e
IsPart-nil xs (payload ∷ payloads) e = omega (arith, ap length e)

pub All-suffix :
    (first others : List (List ℕ))
    → All (λ payload. length payload < 65532) (first ++ others)
    → All (λ payload. length payload < 65532) others
All-suffix [] others all = all
All-suffix (payload ∷ first) others all = All-suffix first others all.1

pub stream-pack :
    (f : Framing) (payloads : List (List ℕ))
    → concat (map (λ payload. (pack f empty_packet payload).buffer) payloads) ≡ stream f payloads
stream-pack f [] = refl
stream-pack f (payload ∷ payloads) =
    rw ((pack-frame f empty_packet payload).0, stream-pack f payloads) refl
