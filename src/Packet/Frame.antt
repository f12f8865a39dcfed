-- ===== src/Packet/Frame.antt =====
-- The wire format of ae/packet.h's header comment, and that `pack` writes it.
use ae_proxy.Base.{
  ℕ, zero, suc, ◌+◌, ◌≡◌, refl, ap, List, [], ◌∷◌, ◌++◌, length, length-append, set, drop, arith,
}
use ae_proxy.Packet.Number.{pack_num, length-pack_num}
use ae_proxy.Packet.{
  Framing, Packet, packet_min_size, resize, write_at, pack, get_data, packet_size,
}

-- | head | size | data | end |, of 1, 2, N and 1 bytes.
abbrev pub frame : Framing → List ℕ → List ℕ
frame f payload = f.head_byte ∷ pack_num f.mode 2 (length payload) ++ (payload ++ f.end_byte ∷ [])

length-resize : (n : ℕ) (xs : List ℕ) → length (resize n xs) ≡ n
unfolding resize
length-resize zero xs = refl
length-resize (suc n) [] = ap suc (length-resize n [])
length-resize (suc n) (x ∷ xs) = ap suc (length-resize n xs)

overwrite :
    (xs payload : List ℕ) (e : ℕ)
    → length xs ≡ suc (length payload)
    → set (write_at 0 payload xs) (length payload) e ≡ payload ++ e ∷ []
unfolding write_at
overwrite [] payload e h = absurd (omega arith)
overwrite (x ∷ []) [] e h = refl
overwrite (x ∷ y ∷ xs) [] e h = absurd (omega arith)
overwrite (x ∷ xs) (b ∷ payload) e h = ap (◌∷◌ b) (overwrite xs payload e (omega arith))

fill :
    (old sized payload : List ℕ) (head e : ℕ)
    → length sized ≡ 2
    → length old ≡ length payload + 4
    → set (write_at 3 payload (write_at 1 sized (set old 0 head))) (length payload + 3) e
      ≡ head ∷ sized ++ (payload ++ e ∷ [])
unfolding write_at
fill (o ∷ p ∷ q ∷ old) (a ∷ b ∷ []) payload head e hs ho =
    let at : length payload + 3 ≡ suc (suc (suc (length payload))) = omega arith in
    rw at (ap (λ rest. head ∷ a ∷ b ∷ rest) (overwrite old payload e (omega arith)))
fill _ _ payload head e hs ho = absurd (omega arith)

pub length-frame : (f : Framing) (payload : List ℕ) → length (frame f payload) ≡ length payload + 4
length-frame f payload = omega (
  arith,
  length-pack_num f.mode 2 (length payload),
  length-append (pack_num f.mode 2 (length payload)) (payload ++ f.end_byte ∷ []),
  length-append payload (f.end_byte ∷ []),
)

drop_two : (sized rest : List ℕ) → length sized ≡ 2 → drop 2 (sized ++ rest) ≡ rest
drop_two [] rest h = absurd (omega arith)
drop_two (a ∷ []) rest h = absurd (omega arith)
drop_two (a ∷ b ∷ []) rest h = refl
drop_two (a ∷ b ∷ c ∷ sized) rest h = absurd (omega arith)

drop-frame :
    (f : Framing) (payload : List ℕ) → drop 3 (frame f payload) ≡ payload ++ f.end_byte ∷ []
drop-frame f payload =
    drop_two (pack_num f.mode 2 (length payload)) (payload ++ f.end_byte ∷ [])
      (length-pack_num f.mode 2 (length payload))

-- `pack` overwrites every byte of what the packet held: its buffer is the frame of the payload,
-- its size fields are the payload's, and `get_data` points at the payload and the end byte.
pub pack-frame :
    (f : Framing) (p : Packet) (payload : List ℕ)
    → ((pack f p payload).buffer ≡ frame f payload)
      × ((pack f p payload).data_size ≡ length payload)
      × (packet_size (pack f p payload) ≡ length payload + packet_min_size)
      × (get_data (pack f p payload) ≡ payload ++ f.end_byte ∷ [])
unfolding pack get_data packet_size
pack-frame f p payload = rw whole (refl, refl, size, drop-frame f payload)
  where
    whole : (pack f p payload).buffer ≡ frame f payload
    whole =
        fill (resize (length payload + packet_min_size) p.buffer)
          (pack_num f.mode 2 (length payload)) payload f.head_byte f.end_byte
          (length-pack_num f.mode 2 (length payload))
          (length-resize (length payload + packet_min_size) p.buffer)

    size : length (frame f payload) ≡ length payload + packet_min_size
    size = length-frame f payload
