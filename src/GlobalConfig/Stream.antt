-- ===== src/GlobalConfig/Stream.antt =====
-- What a receiver over ae/packet_buffer.h makes of a stream of frames.
use ae_proxy.Base.{
  ℕ, zero, suc, ◌+◌, ◌<◌, ◌≡◌, inl, inr, refl, sym, ap, subst, ◌∙◌, List, [], ◌∷◌, ◌++◌, map,
  Option, some, success, is_zero, if◌then◌else◌, length, take, length-append, All, arith,
  append_assoc, append-nil, Bool-cases, ltb, ltb→lt, ltb→le,
}
use mathlib.Core.Option.{bind}
use mathlib.Core.List.{map-append}
use ae_proxy.PacketBuffer
use ae_proxy.PacketBuffer.{PacketBuffer}
use ae_proxy.Packet.{Framing, Packet, empty_packet, pack}
use ae_proxy.Packet.Frame.{frame, pack-frame, length-frame}
use ae_proxy.Packet.Reader.{Outcome, read_from_buffer}
use ae_proxy.Packet.Reader.Framed.{read_from_buffer-pack}
use ae_proxy.Packet.Reader.Fragments.{read_from_buffer-part}
use ae_proxy.GlobalConfig.{GlobalConfig, default_config, reading, read_packet}
use ae_proxy.GlobalConfig.Receiving.{
  read_first, drained, drain, receive, stream, concat, IsPart, empty_prefix, begins, split_prefix,
  IsPart-nil, All-suffix, stream-pack,
}

module _ {S : Type 0} (f : Framing) (c : S → List ℕ) where
  -- The packets are those of the first payloads, and the buffer holds a proper part of the stream of
  -- the others.
  record Drains (payloads : List (List ℕ)) (later : List ℕ) (r : Option (List Packet × S))
      : Type 0 where
    pub first : List (List ℕ)
    pub others : List (List ℕ)
    pub left : S
    pub result : r ≡ some (map (pack f empty_packet) first, left)
    pub all : payloads ≡ first ++ others
    pub rest : c left ++ later ≡ stream f others
    pub part : IsPart (c left) others

module _ {S : Type 0} (O : Type 0) (b : PacketBuffer S) (f : Framing) (c : S → List ℕ)
    (laws : PacketBuffer.Laws b c) where
  open laws use {append_contents, read_size_lem}

  abbrev config : GlobalConfig S O
  config = default_config b f

  reads :
      (s left : S) (o : Outcome S) (packets : List Packet) (fuel : ℕ)
      → read_from_buffer b f s empty_packet ≡ some o
      → o.status ≡ success
      → drain b config fuel o.buffer ≡ some (packets, left)
      → drain b config (suc fuel) s ≡ some (o.packet ∷ packets, left)
  unfolding drain read_packet
  reads s left o packets fuel run ok d =
      ap (λ x. drained b config (reading x) (drain b config fuel)) run
      ∙ (ap
            (λ status.
              if is_zero status
              then read_first b config o.packet (drain b config fuel o.buffer)
              else some ([], o.buffer))
            ok
          ∙ ap (read_first b config o.packet) d)

  -- A part of a frame stays.
  drain_part :
      (payload : List ℕ) (payloads : List (List ℕ)) (later : List ℕ) (fuel : ℕ) (s : S)
      → length payload < 65532
      → c s ++ later ≡ stream f (payload ∷ payloads)
      → length (c s) < length payload + 4
      → Drains f c (payload ∷ payloads) later (drain b config (suc fuel) s)
  unfolding drain read_packet
  drain_part payload payloads later fuel s small e less =
      let front : c s ≡ take (length (c s)) (frame f payload) =
        begins (c s) later (frame f payload) (stream f payloads) e
          (omega (arith, length-frame f payload)) in
      record {
        first = [];
        others = payload ∷ payloads;
        left = s;
        result =
            rw
              (read_from_buffer-part b f c laws s payload (length (c s)) less front empty_packet
                small)
              refl;
        all = refl;
        rest = e;
        part = less;
      }

  drain-stream :
      (payloads : List (List ℕ)) (later : List ℕ) (fuel : ℕ) (s : S)
      → All (λ payload. length payload < 65532) payloads
      → c s ++ later ≡ stream f payloads
      → length (c s) < fuel
      → Drains f c payloads later (drain b config fuel s)
  unfolding drain read_packet
  drain-stream payloads later zero s small e h = absurd (omega arith)
  drain-stream [] later (suc fuel) s small e h =
      let none_left = empty_prefix (c s) later e in
      record {
        first = [];
        others = [];
        left = s;
        result =
            rw
              (read_from_buffer-part b f c laws s [] 0 (omega arith) none_left empty_packet
                (omega arith))
              refl;
        all = refl;
        rest = e;
        part = none_left;
      }
  drain-stream (payload ∷ payloads) later (suc fuel) s small e h =
      elim (Bool-cases (ltb (length (c s)) (length payload + 4))) [
        | inl less ↦ drain_part payload payloads later fuel s small.0 e (ltb→lt _ _ less)
        | inr enough ↦
            let (behind, e1, e2) =
              split_prefix (c s) later (frame f payload) (stream f payloads) e
                (omega (arith, length-frame f payload, ltb→le _ _ enough)) in
            let (o, run, ok, packet, kept) =
              read_from_buffer-pack b f c laws s empty_packet empty_packet [] payload behind _
                (omega (arith, small.0))
                (e1 ∙ ap (λ bytes. bytes ++ behind) (sym (pack-frame f empty_packet payload).0)) in
            let fewer : length (c o.buffer) < fuel = omega (
              arith,
              ap length kept,
              ap length e1,
              length-append (frame f payload) behind,
              length-frame f payload,
            ) in
            let d =
              drain-stream payloads later fuel o.buffer small.1 (ap (λ xs. xs ++ later) kept ∙ e2)
                fewer in
            record {
              first = payload ∷ d.first;
              others = d.others;
              left = d.left;
              result =
                  reads s d.left o (map (pack f empty_packet) d.first) fuel run ok d.result
                  ∙ ap (λ p. some (p ∷ map (pack f empty_packet) d.first, d.left)) packet;
              all = ap (λ xs. payload ∷ xs) d.all;
              rest = d.rest;
              part = d.part;
            }
      ]

  drain_part-part :
      (payload : List ℕ) (payloads : List (List ℕ)) (s : S)
      → IsPart (c s) (payload ∷ payloads)
      → c s ≡ stream f (payload ∷ payloads)
      → ⊥
  drain_part-part payload payloads s part e = omega (
    arith,
    ap length e,
    length-append (frame f payload) (stream f payloads),
    length-frame f payload,
  )

  abbrev Receives : List (List ℕ) → Option (List Packet × S) → Type 0
  Receives payloads r =
      (left : S) × (r ≡ some (map (pack f empty_packet) payloads, left)) × (c left ≡ [])

  receive_part :
      (pieces payloads : List (List ℕ)) (s : S)
      → All (λ payload. length payload < 65532) payloads
      → IsPart (c s) payloads
      → c s ++ concat pieces ≡ stream f payloads
      → Receives payloads (receive b config s pieces)
  unfolding receive bind
  receive_part [] [] s small part e = (s, refl, part)
  receive_part [] (payload ∷ payloads) s small part e =
      absurd (drain_part-part payload payloads s part (sym (append-nil (c s)) ∙ e))
  receive_part (piece ∷ pieces) payloads s small part e =
      let s1 = (b.append s piece).0 in
      let d =
        drain-stream payloads (concat pieces) (suc (b.read_size s1)) s1 small
          (ap (λ xs. xs ++ concat pieces) (append_contents s piece)
            ∙ (append_assoc (c s) piece (concat pieces) ∙ e))
          (omega (arith, read_size_lem s1)) in
      let (left, run, empty) =
        receive_part pieces d.others d.left
          (All-suffix d.first d.others
            (subst (All (λ payload. length payload < 65532)) d.all small))
          d.part d.rest in
      (
        left,
        ap
              (λ o.
                bind o
                  (λ (ps, s2). bind (receive b config s2 pieces) (λ (qs, s3). some (ps ++ qs, s3))))
              d.result
            ∙ (ap (λ o. bind o (λ (qs, s3). some (map (pack f empty_packet) d.first ++ qs, s3))) run
                ∙ ap (λ ps. some (ps, left))
                    (sym (map-append (pack f empty_packet) d.first d.others)
                      ∙ ap (map (pack f empty_packet)) (sym d.all))),
        empty,
      )

  -- The byte stream carries the packets. Frames that `pack` made of payloads below 65532 bytes, sent
  -- one after the other and cut into pieces of any sizes, are appended to an empty buffer piece by
  -- piece, and after each piece `read_packet` is called, as the program starts with it, until it does
  -- not return 0: this ends, and the packets read are the ones packed, in their order, each once, and
  -- the buffer is empty.
  pub receive-pack :
      (pieces payloads : List (List ℕ)) (s : S)
      → All (λ payload. length payload < 65532) payloads
      → c s ≡ []
      → concat pieces ≡ concat (map (λ payload. (pack f empty_packet payload).buffer) payloads)
      → (left : S) × (receive b config s pieces ≡ some (map (pack f empty_packet) payloads, left))
        × (c left ≡ [])
  receive-pack pieces payloads s small empty e =
      receive_part pieces payloads s small (IsPart-nil (c s) payloads empty)
        (ap (λ xs. xs ++ concat pieces) empty ∙ (e ∙ stream-pack f payloads))
