-- ===== src/Packet/Reader/Fragments.antt =====
-- `read_from_buffer` on the first bytes of a frame, the rest of which has not arrived.
use ae_proxy.Base.{
  ℕ, zero, suc, ◌+◌, ◌%◌, ◌<◌, ◌≤◌, ◌≡◌, refl, sym, ap, ◌∙◌, inl, inr, List, [], ◌∷◌, ◌++◌, length,
  length-take, take_of_length, Bool-cases, ltb→lt, ltb→le, append-nil, take, some, failure, ltb,
  lt→ltb, arith,
}
use ae_proxy.PacketBuffer
use ae_proxy.PacketBuffer.{PacketBuffer}
use ae_proxy.Packet.{Framing, Packet}
use ae_proxy.Packet.Frame.{frame, length-frame}
use ae_proxy.Packet.Reader.{stop, round, read_loop, conclude, read_from_buffer}
use ae_proxy.Packet.Reader.Rounds.{round_short}
use ae_proxy.Packet.Reader.Framed.{header, length-header, round-header}

take-take : (n m : ℕ) (xs : List ℕ) → n ≤ m → take n (take m xs) ≡ take n xs
take-take zero m xs h = refl
take-take (suc n) zero xs h = absurd (omega arith)
take-take (suc n) (suc m) [] h = refl
take-take (suc n) (suc m) (x ∷ xs) h = ap (◌∷◌ x) (take-take n m xs (omega arith))

module _ {S : Type 0} (b : PacketBuffer S) (f : Framing) (c : S → List ℕ)
    (laws : PacketBuffer.Laws b c) (s : S) (payload : List ℕ) (k : ℕ)
    (part : k < length payload + 4) (e : c s ≡ take k (frame f payload)) where
  open laws use {read_ok, read_short, clear_n_contents, read_size_lem}

  size : length (c s) ≡ k
  size = omega (arith, ap length e, length-take k (frame f payload), length-frame f payload)

  pub header_of_part : 4 ≤ k → take 3 (c s) ≡ header f (length payload) ++ []
  header_of_part h = rw e (
      take-take 3 k (frame f payload) (omega arith)
      ∙ take_of_length 3 (header f (length payload)) (payload ++ f.end_byte ∷ [])
          (length-header f (length payload))
      ∙ sym (append-nil (header f (length payload))))

  round_part : length payload < 65532 → (text : List ℕ) × (round b f s [] ≡ stop failure s text)
  round_part small = elim (Bool-cases (ltb k 4)) [
    | inl short ↦ ([], round_short b f c laws s [] (omega (arith, size, ltb→lt _ _ short)))
    | inr long ↦ (
      header f (length payload) ++ [],
      rw (
        round-header b f c laws s [] [] (length payload) (omega arith)
            (omega (arith, size, ltb→le _ _ long)) (header_of_part (ltb→le _ _ long)),
        lt→ltb (length (c s)) ((length payload + 4) % 65536) (omega (arith, size)),
      ),
    )
  ]

  -- Of a frame whose payload is below 65532 bytes, any proper part is left in the buffer: the
  -- reader returns -1, with the buffer and the caller's packet as they were.
  pub read_from_buffer-part :
      (out : Packet)
      → length payload < 65532
      → read_from_buffer b f s out ≡ some (record { status = failure; buffer = s; packet = out })
  unfolding read_from_buffer read_loop conclude
  read_from_buffer-part out small = let (text, stops) = round_part small in rw (stops, read_loop)
