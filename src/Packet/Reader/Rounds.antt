-- ===== src/Packet/Reader/Rounds.antt =====
-- One round of the loop of `read_from_buffer`, over the bytes that the buffer holds.
use ae_proxy.Base.{
  ℕ, ◌+◌, ◌-◌, ◌%◌, ◌<◌, ◌≤◌, ◌≡◌, refl, ◌⊎◌, inl, inr, List, [], ◌∷◌, ◌++◌, append-nil, length,
  length-append, length-drop, length-take, get_or, take, drop, drop-drop, last_or, success, failure,
  ltb, ◌==◌, if◌then◌else◌, Bool-cases, lt→ltb, le→ltb, ltb→le, ltb→lt, ==_iff, arith,
}
use ae_proxy.PacketBuffer
use ae_proxy.PacketBuffer.{PacketBuffer}
use ae_proxy.Packet.{Framing}
use ae_proxy.Packet.Reader.{Round, stop, again, decoded_size, finish, round}

module _ {S : Type 0} (b : PacketBuffer S) (f : Framing) (c : S → List ℕ)
    (laws : PacketBuffer.Laws b c) where
  open laws use {read_ok, read_short, clear_n_contents, read_size_lem}

  pub round_short :
      (s : S) (text : List ℕ) → length (c s) < 4 → round b f s text ≡ stop failure s text
  unfolding round
  round_short s text h = rw (read_size_lem s, lt→ltb (length (c s)) 4 h)

  -- The header is read behind what `data` holds already.
  pub round_lem :
      (s : S) (text : List ℕ)
      → 4 ≤ length (c s)
      → let text' = text ++ take 3 (c s) in
        round b f s text ≡ (
          if get_or text' 0 0 == f.head_byte
          then if ltb (length (c s)) ((decoded_size b f text' + 4) % 65536)
            then stop failure s text'
            else finish b f (b.clear_buffer_n s 3).0 text' (decoded_size b f text')
          else again (b.clear_buffer_n s 1).0 [])
  unfolding round
  round_lem s text h =
      rw (read_size_lem s, le→ltb (length (c s)) 4 h, read_ok s text 3 (omega arith))

  -- A read appends some bytes or none.
  pub read_extends :
      (s : S) (text : List ℕ) (n : ℕ)
      → (more : List ℕ) × ((b.read_buffer_n s text n).0 ≡ text ++ more)
  read_extends s text n = elim (Bool-cases (ltb (length (c s)) n)) [
    | inl short ↦ ([], rw (read_short s text n (ltb→lt _ _ short), append-nil))
    | inr enough ↦ (take n (c s), rw (read_ok s text n (ltb→le _ _ enough)))
  ]

  -- The buffer has lost bytes at its front, and no other.
  abbrev pub Consumed : S → S → Type 0
  Consumed s t = (n : ℕ) × (c t ≡ drop n (c s))

  abbrev pub HasHead : List ℕ → Type 0
  HasHead text = (0 < length text) × (get_or text 0 0 ≡ f.head_byte)

  -- The string between two rounds: empty, or begun with a head byte.
  abbrev pub IsPartial : List ℕ → Type 0
  IsPartial text = (text ≡ []) ⊎ HasHead text

  -- What a round that starts in `s` may end with.
  abbrev pub Allowed : S → Round S → Type 0
  Allowed s (stop status t text) =
      (((status ≡ success) × HasHead text × (last_or 0 text ≡ f.end_byte)) ⊎ (status ≡ failure))
      × Consumed s t
  Allowed s (again t text) = IsPartial text × (length (c t) < length (c s)) × Consumed s t

  head-append : (text more : List ℕ) → HasHead text → HasHead (text ++ more)
  head-append [] more h = absurd (omega arith)
  head-append (x ∷ text) more h = (omega arith, h.1)

  pub read_HasHead :
      (s : S) (text : List ℕ) (n : ℕ) → HasHead text → HasHead (b.read_buffer_n s text n).0
  read_HasHead s text n h = let (more, e) = read_extends s text n in rw e (head-append text more h)

  pub Consumed-trans : (s t u : S) → Consumed s t → Consumed t u → Consumed s u
  Consumed-trans s t u (m, e) (n, e') = (m + n, rw (e', e) (drop-drop n m (c s)))

  clear_Consumed : (s t : S) (n : ℕ) → Consumed s t → Consumed s (b.clear_buffer_n t n).0
  clear_Consumed s t n (m, e) = (m + n, rw (clear_n_contents t n, e) (drop-drop n m (c s)))

  pub length-clear : (s : S) (n : ℕ) → length (c (b.clear_buffer_n s n).0) ≡ length (c s) - n
  length-clear s n = rw (clear_n_contents s n) (length-drop n (c s))

  finish-Allowed :
      (s t : S) (text : List ℕ) (size : ℕ)
      → HasHead text
      → length (c t) < length (c s)
      → Consumed s t
      → Allowed s (finish b f t text size)
  unfolding finish
  finish-Allowed s t text size h less used =
      let text' = (b.read_buffer_n t text (size + 1)).0 in
      let h' : HasHead text' = read_HasHead t text (size + 1) h in
      elim (Bool-cases (last_or 0 text' == f.end_byte)) [
        | inl ok ↦ rw ok (inl (refl, h', (==_iff _ _).0 ok), clear_Consumed s t (size + 1) used)
        | inr bad ↦ rw bad (inr h', less, used)
      ]

  -- A round stops with a checked string or with -1, or has consumed a byte.
  pub round-Allowed : (s : S) (text : List ℕ) → IsPartial text → Allowed s (round b f s text)
  round-Allowed s text p = elim (Bool-cases (ltb (length (c s)) 4)) [
    | inl short ↦ rw (round_short s text (ltb→lt _ _ short)) (inr refl, (0, refl))
    | inr enough ↦ rw (round_lem s text (ltb→le _ _ enough)) (header (ltb→le _ _ enough))
  ]
    where
      text' : List ℕ
      text' = text ++ take 3 (c s)

      filled : 4 ≤ length (c s) → 0 < length text'
      filled h = omega (arith, length-append text (take 3 (c s)), length-take 3 (c s))

      header :
          4 ≤ length (c s)
          → Allowed s (
              if get_or text' 0 0 == f.head_byte
              then if ltb (length (c s)) ((decoded_size b f text' + 4) % 65536)
                then stop failure s text'
                else finish b f (b.clear_buffer_n s 3).0 text' (decoded_size b f text')
              else again (b.clear_buffer_n s 1).0 [])
      header h = elim (Bool-cases (get_or text' 0 0 == f.head_byte)) [
        | inr miss ↦
            rw miss (inl refl, omega (arith, length-clear s 1), clear_Consumed s s 1 (0, refl))
        | inl hit ↦ elim (Bool-cases (ltb (length (c s)) ((decoded_size b f text' + 4) % 65536))) [
          | inl short ↦ rw (hit, short) (inr refl, (0, refl))
          | inr enough ↦
              rw (hit, enough)
                (finish-Allowed s (b.clear_buffer_n s 3).0 text' (decoded_size b f text')
                  (filled h, (==_iff _ _).0 hit) (omega (arith, length-clear s 3))
                  (clear_Consumed s s 3 (0, refl)))
        ]
      ]
