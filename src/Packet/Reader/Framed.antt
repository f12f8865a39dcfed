-- ===== src/Packet/Reader/Framed.antt =====
-- `read_from_buffer` on what a sender wrote: whole frames, noise before them, parts of them.
use ae_proxy.Base.{
  ℕ, zero, suc, ◌+◌, ◌%◌, ◌<◌, ◌≤◌, ◌≡◌, refl, ap, ◌≢◌, ◌∙◌, List, [], ◌∷◌, ◌++◌, length,
  length-append, take_of_length, drop_of_length, drop-drop, ne→==, ==_self, All, append-nil,
  append_assoc, take, drop, last_or, last_or-append, some, success, failure, ltb, ◌==◌,
  if◌then◌else◌, le→ltb, arith,
}
use ae_proxy.PacketBuffer
use ae_proxy.PacketBuffer.{PacketBuffer}
use ae_proxy.Packet.Number.{pack_num, length-pack_num, unpack_num-pack_num}
use ae_proxy.Packet.{Framing, Packet, pack, swap}
use ae_proxy.Packet.Frame.{frame, pack-frame, length-frame}
use ae_proxy.Packet.Reader.{
  stop, again, Outcome, decoded_size, finish, round, read_loop, conclude, read_from_buffer,
}
use ae_proxy.Packet.Reader.Rounds.{round_lem}

-- The header of a frame, of three bytes.
abbrev pub header : Framing → ℕ → List ℕ
header f size = f.head_byte ∷ pack_num f.mode 2 size

pub length-header : (f : Framing) (size : ℕ) → length (header f size) ≡ 3
length-header f size = ap suc (length-pack_num f.mode 2 size)

-- A header decodes to the size that it was made from, whatever stands behind it.
pub decoded_size-header :
    {S : Type 0} (b : PacketBuffer S) (f : Framing) (size : ℕ) (more : List ℕ)
    → size < 65536
    → decoded_size b f (header f size ++ more) ≡ size
unfolding decoded_size
decoded_size-header b f size more h =
    rw (take_of_length 2 (pack_num f.mode 2 size) more (length-pack_num f.mode 2 size))
      (unpack_num-pack_num f.mode 2 size h)

module _ {S : Type 0} (b : PacketBuffer S) (f : Framing) (c : S → List ℕ)
    (laws : PacketBuffer.Laws b c) where
  open laws use {read_ok, read_short, clear_n_contents, read_size_lem}

  -- A round that finds a header at the front of the string.
  pub round-header :
      (s : S) (text tail : List ℕ) (size : ℕ)
      → size < 65536
      → 4 ≤ length (c s)
      → text ++ take 3 (c s) ≡ header f size ++ tail
      → round b f s text ≡ (
          if ltb (length (c s)) ((size + 4) % 65536)
          then stop failure s (header f size ++ tail)
          else finish b f (b.clear_buffer_n s 3).0 (header f size ++ tail) size)
  round-header s text tail size small enough e = rw (
    round_lem b f c laws s text enough,
    e,
    decoded_size-header b f size tail small,
    ==_self f.head_byte,
  )

  -- The rest of the round where the payload and a last byte are there.
  pub finish_frame :
      (s : S) (text payload rest : List ℕ) (last : ℕ)
      → c s ≡ payload ++ last ∷ rest
      → finish b f s text (length payload) ≡ (
          let whole = text ++ (payload ++ last ∷ []) in
          if last == f.end_byte
          then stop success (b.clear_buffer_n s (length payload + 1)).0 whole
          else again s whole)
  unfolding finish
  finish_frame s text payload rest last e =
      rw (read_ok s text (length payload + 1) there, taken, ends)
    where
      ends : last_or 0 (text ++ (payload ++ last ∷ [])) ≡ last
      ends = rw (← append_assoc text payload (last ∷ [])) (last_or-append 0 (text ++ payload) last)

      there : length payload + 1 ≤ length (c s)
      there = omega (arith, ap length e, length-append payload (last ∷ rest))

      taken : take (length payload + 1) (c s) ≡ payload ++ last ∷ []
      taken =
          rw (e, ← append_assoc payload (last ∷ []) rest)
            (take_of_length (length payload + 1) (payload ++ last ∷ []) rest
              (length-append payload (last ∷ [])))

  round-frame :
      (s : S) (payload rest : List ℕ)
      → length payload < 65536
      → c s ≡ frame f payload ++ rest
      → round b f s []
        ≡ stop success
            (b.clear_buffer_n (b.clear_buffer_n s 3).0 (length payload + 1)).0
            (frame f payload)
  round-frame s payload rest small e = rw (
    round-header s [] [] (length payload) small (omega (arith, size)) head,
    append-nil,
    le→ltb (length (c s)) ((length payload + 4) % 65536) (omega (arith, size)),
    finish_frame (b.clear_buffer_n s 3).0 (header f (length payload)) payload rest f.end_byte tail,
    ==_self f.end_byte,
  )
    where
      split : c s ≡ header f (length payload) ++ ((payload ++ f.end_byte ∷ []) ++ rest)
      split = e ∙ append_assoc (header f (length payload)) (payload ++ f.end_byte ∷ []) rest

      size : length (c s) ≡ length payload + 4 + length rest
      size =
          omega (arith, ap length e, length-append (frame f payload) rest, length-frame f payload)

      head : take 3 (c s) ≡ header f (length payload) ++ []
      head =
          rw (split, append-nil)
            (take_of_length 3 (header f (length payload)) ((payload ++ f.end_byte ∷ []) ++ rest)
              (length-header f (length payload)))

      tail : c (b.clear_buffer_n s 3).0 ≡ payload ++ f.end_byte ∷ rest
      tail =
          rw (clear_n_contents s 3, split)
            (drop_of_length 3 (header f (length payload)) ((payload ++ f.end_byte ∷ []) ++ rest)
                (length-header f (length payload))
              ∙ append_assoc payload (f.end_byte ∷ []) rest)

  after_frame :
      (s : S) (payload rest : List ℕ)
      → c s ≡ frame f payload ++ rest
      → c (b.clear_buffer_n (b.clear_buffer_n s 3).0 (length payload + 1)).0 ≡ rest
  after_frame s payload rest e =
      rw (clear_n_contents (b.clear_buffer_n s 3).0 (length payload + 1), clear_n_contents s 3)
        (drop-drop (length payload + 1) 3 (c s)
          ∙ ap (drop (3 + (length payload + 1))) e
          ∙ drop_of_length (3 + (length payload + 1)) (frame f payload) rest
              (omega (arith, length-frame f payload)))

  skip_round :
      (s : S) (x : ℕ) (more : List ℕ)
      → x ≢ f.head_byte
      → 4 ≤ length (c s)
      → c s ≡ x ∷ more
      → round b f s [] ≡ again (b.clear_buffer_n s 1).0 []
  skip_round s x more ne enough e = rw (round_lem b f c laws s [] enough, e, ne→== ne)

  -- The loop passes over bytes that are no head byte, to the frame behind them.
  frame_loop :
      (noise : List ℕ) (fuel : ℕ) (s : S) (payload rest : List ℕ)
      → All (λ x. x ≢ f.head_byte) noise
      → length payload < 65536
      → c s ≡ noise ++ (frame f payload ++ rest)
      → length noise < fuel
      → (t : S) × (read_loop b f fuel s [] ≡ some (stop success t (frame f payload))) × (c t ≡ rest)
  unfolding read_loop
  frame_loop noise zero s payload rest quiet small e h = absurd (omega arith)
  frame_loop [] (suc fuel) s payload rest quiet small e h = (
    (b.clear_buffer_n (b.clear_buffer_n s 3).0 (length payload + 1)).0,
    rw (round-frame s payload rest small e, read_loop),
    after_frame s payload rest e,
  )
  frame_loop (x ∷ noise) (suc fuel) s payload rest quiet small e h =
      let (t, run, left) =
        frame_loop noise fuel (b.clear_buffer_n s 1).0 payload rest quiet.1 small
          (rw (clear_n_contents s 1, e)) (omega arith) in
      (
        t,
        rw (skip_round s x (noise ++ (frame f payload ++ rest)) quiet.0 enough e, read_loop) run,
        left,
      )
    where
      enough : 4 ≤ length (c s)
      enough = omega (
        arith,
        ap length e,
        length-append noise (frame f payload ++ rest),
        length-append (frame f payload) rest,
        length-frame f payload,
      )

  swap-frame :
      (p : Packet) (payload : List ℕ)
      → length payload < 65536
      → swap (frame f payload) ≡ pack f p payload
  unfolding swap
  swap-frame p payload small =
      let (bytes, size, whole, body) = pack-frame f p payload in
      ground (arith, bytes, size, length-frame f payload)

  -- A buffer that holds a frame, behind any bytes other than the head byte and before any bytes at
  -- all, yields with status 0 the packet that `pack` made, and keeps the bytes behind the frame.
  -- The payload may be any that the 16-bit size can describe.
  pub read_from_buffer-pack :
      (s : S) (out p : Packet) (noise payload rest : List ℕ)
      → All (λ x. x ≢ f.head_byte) noise
      → length payload < 65536
      → c s ≡ noise ++ ((pack f p payload).buffer ++ rest)
      → (o : Outcome S) × (read_from_buffer b f s out ≡ some o)
        × (o.status ≡ success)
        × (o.packet ≡ pack f p payload)
        × (c o.buffer ≡ rest)
  unfolding read_from_buffer conclude
  read_from_buffer-pack s out p noise payload rest quiet small e =
      let e' : c s ≡ noise ++ (frame f payload ++ rest) =
        e ∙ ap (λ bytes. noise ++ (bytes ++ rest)) (pack-frame f p payload).0 in
      let (t, run, left) = frame_loop noise (suc (b.read_size s)) s payload rest quiet small e' (
        omega
          (arith, read_size_lem s, ap length e', length-append noise (frame f payload ++ rest))) in
      (
        record { status = success; buffer = t; packet = swap (frame f payload) },
        rw run,
        refl,
        swap-frame p payload small,
        left,
      )
