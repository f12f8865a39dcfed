-- ===== src/Packet/Reader/Resync.antt =====
-- `read_from_buffer` behind a frame with a wrong end byte: the local string is not cleared.
use ae_proxy.Base.{
  ℕ, zero, suc, ◌+◌, ◌%◌, ◌<◌, ◌≤◌, ◌≡◌, ◌≢◌, refl, sym, ap, ◌∙◌, ◌⊎◌, inl, inr, List, [], ◌∷◌,
  ◌++◌, length, length-append, length-take, take_of_length, drop_of_length, append-nil,
  append_assoc, take, Option, some, ℤ, success, failure, Bool-cases, ltb, ltb→lt, ltb→le, le→ltb,
  ne→==, ◌==◌, last_or, arith,
}
use ae_proxy.PacketBuffer
use ae_proxy.PacketBuffer.{PacketBuffer}
use ae_proxy.Packet.{Framing, Packet, swap}
use ae_proxy.Packet.Frame.{frame, length-frame}
use ae_proxy.Packet.Reader.{
  Round, stop, again, Outcome, decoded_size, finish, round, read_loop, conclude, read_from_buffer,
}
use ae_proxy.Packet.Reader.Rounds.{round_short, length-clear, read_extends}
use ae_proxy.Packet.Reader.Framed.{
  header, length-header, decoded_size-header, round-header, finish_frame,
}

module _ {S : Type 0} (b : PacketBuffer S) (f : Framing) (c : S → List ℕ)
    (laws : PacketBuffer.Laws b c) (size : ℕ) (small : size < 65536) (sent : List ℕ)
    (fits : length sent < 65536) where
  open laws use {clear_n_contents, read_size_lem}

  -- The string begins with the old header, and has more behind it than that header announces.
  abbrev Stale : ℕ → List ℕ → Type 0
  Stale n text = (more : List ℕ) × (text ≡ header f size ++ more) × (n ≤ length more)

  abbrev StaleRound : S → Round S → Type 0
  StaleRound s (stop status t text) =
      (status ≡ failure) ⊎ ((status ≡ success) × Stale (size + 2) text)
  StaleRound s (again t text) = Stale (size + 1) text × (length (c t) < length (c s))

  finish-Stale :
      (s t : S) (more : List ℕ)
      → size + 2 ≤ length more
      → length (c t) < length (c s)
      → StaleRound s (finish b f t (header f size ++ more) size)
  unfolding finish
  finish-Stale s t more long less =
      let (extra, e) = read_extends b f c laws t (header f size ++ more) (size + 1) in
      let e' = e ∙ append_assoc (header f size) more extra in
      let text' = (b.read_buffer_n t (header f size ++ more) (size + 1)).0 in
      elim (Bool-cases (last_or 0 text' == f.end_byte)) [
        | inl ok ↦ rw ok (inr (refl, (more ++ extra, e', omega (arith, length-append more extra))))
        | inr bad ↦ rw bad ((more ++ extra, e', omega (arith, length-append more extra)), less)
      ]

  round-Stale : (s : S) (text : List ℕ) → Stale (size + 1) text → StaleRound s (round b f s text)
  round-Stale s text (more, e, long) = elim (Bool-cases (ltb (length (c s)) 4)) [
    | inl short ↦ rw (round_short b f c laws s text (ltb→lt _ _ short)) (inl refl)
    | inr enough ↦ header_read (ltb→le _ _ enough)
  ]
    where
      more' : List ℕ
      more' = more ++ take 3 (c s)

      header_read : 4 ≤ length (c s) → StaleRound s (round b f s text)
      header_read enough =
          rw
            (round-header b f c laws s text more' size small enough (
              ap (λ front. front ++ take 3 (c s)) e
              ∙ append_assoc (header f size) more (take 3 (c s))))
            (elim (Bool-cases (ltb (length (c s)) ((size + 4) % 65536))) [
              | inl short ↦ rw short (inl refl)
              | inr there ↦ rw there (
                  finish-Stale s (b.clear_buffer_n s 3).0 more'
                    (omega (arith, length-append more (take 3 (c s)), length-take 3 (c s)))
                    (omega (arith, length-clear b f c laws s 3)))
            ])

  -- What a reader in this state returns is -1 or a string that is no frame.
  abbrev Garbled : Option (Outcome S) → Type 0
  Garbled r =
      (o : Outcome S) × (r ≡ some o) × ((o.status ≡ failure) ⊎ (o.packet.buffer ≢ frame f sent))

  not-frame : (text : List ℕ) → Stale (size + 2) text → text ≢ frame f sent
  not-frame text (more, e, long) h =
      let whole = sent ++ f.end_byte ∷ [] in
      let same : length sent ≡ size =
        sym (decoded_size-header b f (length sent) whole fits)
        ∙ ap (decoded_size b f) (sym h ∙ e)
        ∙ decoded_size-header b f size more small in
      omega (
        arith,
        same,
        ap length (sym e ∙ h),
        length-append (header f size) more,
        length-header f size,
        length-frame f sent,
      )

  conclude-Garbled :
      (out : Packet) (s t : S) (status : ℤ) (text : List ℕ)
      → StaleRound s (stop status t text)
      → Garbled (conclude b f out (some (stop status t text)))
  unfolding conclude swap
  conclude-Garbled out s t status text (inl e) =
      rw e (record { status = failure; buffer = t; packet = out }, refl, inl refl)
  conclude-Garbled out s t status text (inr (e, stale)) = rw e (
    record { status = success; buffer = t; packet = swap text },
    refl,
    inr (not-frame text stale),
  )

  step-Garbled :
      (out : Packet) (fuel : ℕ) (s : S) (text : List ℕ) (r : Round S)
      → ((t : S) (text' : List ℕ)
          → Stale (size + 1) text'
          → length (c t) < fuel
          → Garbled (conclude b f out (read_loop b f fuel t text')))
      → length (c s) < suc fuel
      → round b f s text ≡ r
      → StaleRound s r
      → Garbled (conclude b f out (read_loop b f (suc fuel) s text))
  unfolding read_loop
  step-Garbled out fuel s text (stop status t text') rec h e ok =
      rw (e, read_loop) (conclude-Garbled out s t status text' ok)
  step-Garbled out fuel s text (again t text') rec h e ok =
      rw (e, read_loop) (rec t text' ok.0 (omega arith))

  loop-Garbled :
      (out : Packet) (fuel : ℕ) (s : S) (text : List ℕ)
      → Stale (size + 1) text
      → length (c s) < fuel
      → Garbled (conclude b f out (read_loop b f fuel s text))
  loop-Garbled out zero s text stale h = absurd (omega arith)
  loop-Garbled out (suc fuel) s text stale h =
      step-Garbled out fuel s text (round b f s text) (loop-Garbled out fuel) h refl
        (round-Stale s text stale)

module _ {S : Type 0} (b : PacketBuffer S) (f : Framing) (c : S → List ℕ)
    (laws : PacketBuffer.Laws b c) where
  open laws use {clear_n_contents, read_size_lem}

  -- A complete frame whose last byte is not the end byte spoils the call that meets it, whatever
  -- follows: the reader returns -1, or a packet that is not the frame of any payload `sent`, so in
  -- particular not the frame that a sender put behind the damaged one.
  pub read_from_buffer-damaged :
      (s : S) (out : Packet) (payload rest sent : List ℕ) (last : ℕ)
      → length payload < 65536
      → length sent < 65536
      → last ≢ f.end_byte
      → c s ≡ header f (length payload) ++ (payload ++ last ∷ rest)
      → (o : Outcome S) × (read_from_buffer b f s out ≡ some o)
        × ((o.status ≡ failure) ⊎ (o.packet.buffer ≢ frame f sent))
  unfolding read_from_buffer read_loop
  read_from_buffer-damaged s out payload rest sent last small fits wrong e =
      rw (first, read_loop)
        (loop-Garbled b f c laws (length payload) small sent fits out (b.read_size s)
          (b.clear_buffer_n s 3).0 (header f (length payload) ++ (payload ++ last ∷ []))
          (payload ++ last ∷ [], refl, omega (arith, length-append payload (last ∷ [])))
          (omega (arith, length-clear b f c laws s 3, read_size_lem s, size)))
    where
      size : length (c s) ≡ length payload + 4 + length rest
      size = omega (
        arith,
        ap length e,
        length-append (header f (length payload)) (payload ++ last ∷ rest),
        length-append payload (last ∷ rest),
        length-header f (length payload),
      )

      front : take 3 (c s) ≡ header f (length payload) ++ []
      front =
          rw (e, append-nil)
            (take_of_length 3 (header f (length payload)) (payload ++ last ∷ rest)
              (length-header f (length payload)))

      tail : c (b.clear_buffer_n s 3).0 ≡ payload ++ last ∷ rest
      tail =
          rw (clear_n_contents s 3, e)
            (drop_of_length 3 (header f (length payload)) (payload ++ last ∷ rest)
              (length-header f (length payload)))

      first :
          round b f s []
          ≡ again (b.clear_buffer_n s 3).0 (header f (length payload) ++ (payload ++ last ∷ []))
      first = rw (
        round-header b f c laws s [] [] (length payload) small (omega (arith, size)) front,
        append-nil,
        le→ltb (length (c s)) ((length payload + 4) % 65536) (omega (arith, size)),
        finish_frame b f c laws (b.clear_buffer_n s 3).0 (header f (length payload)) payload rest
            last tail,
        ne→== wrong,
      )
