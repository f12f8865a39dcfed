-- ===== src/Packet/Reader/Total.antt =====
-- `read_from_buffer` returns on every buffer, and what it may return.
use ae_proxy.Base.{
  ℕ, zero, suc, ◌<◌, ◌≡◌, refl, ◌⊎◌, inl, inr, List, [], length, drop, get_or, last_or, Option,
  some, ℤ, success, failure, arith,
}
use ae_proxy.PacketBuffer
use ae_proxy.PacketBuffer.{PacketBuffer}
use ae_proxy.Packet.{Framing, Packet, swap}
use ae_proxy.Packet.Reader.{
  Round, stop, again, Outcome, round, read_loop, conclude, read_from_buffer,
}
use ae_proxy.Packet.Reader.Rounds.{Consumed, IsPartial, Allowed, round-Allowed, Consumed-trans}

module _ {S : Type 0} (b : PacketBuffer S) (f : Framing) (c : S → List ℕ)
    (laws : PacketBuffer.Laws b c) where
  -- The loop has stopped, in a way that a round which starts in `s` allows.
  pub record Stopped (s : S) (r : Option (Round S)) : Type 0 where
    pub status : ℤ
    pub buffer : S
    pub text : List ℕ
    pub result : r ≡ some (stop status buffer text)
    pub allowed : Allowed b f c laws s (stop status buffer text)

  Stopped-trans :
      (s t : S) (r : Option (Round S)) → Consumed b f c laws s t → Stopped t r → Stopped s r
  Stopped-trans s t r used h = record {
    status = h.status;
    buffer = h.buffer;
    text = h.text;
    result = h.result;
    allowed = (h.allowed.0, Consumed-trans b f c laws s t h.buffer used h.allowed.1);
  }

  loop_round :
      (fuel : ℕ) (s : S) (text : List ℕ) (r : Round S)
      → ((t : S) (text' : List ℕ)
          → IsPartial b f c laws text'
          → length (c t) < fuel
          → Stopped t (read_loop b f fuel t text'))
      → length (c s) < suc fuel
      → round b f s text ≡ r
      → Allowed b f c laws s r
      → Stopped s (read_loop b f (suc fuel) s text)
  unfolding read_loop
  loop_round fuel s text (stop status t text') rec h e ok = record {
    status = status;
    buffer = t;
    text = text';
    result = rw (e, read_loop);
    allowed = ok;
  }
  loop_round fuel s text (again t text') rec h e ok =
      rw (e, read_loop) (Stopped-trans s t _ ok.2 (rec t text' ok.0 (omega arith)))

  pub loop-Stopped :
      (fuel : ℕ) (s : S) (text : List ℕ)
      → IsPartial b f c laws text
      → length (c s) < fuel
      → Stopped s (read_loop b f fuel s text)
  loop-Stopped zero s text p h = absurd (omega arith)
  loop-Stopped (suc fuel) s text p h =
      loop_round fuel s text (round b f s text) (loop-Stopped fuel) h refl
        (round-Allowed b f c laws s text p)

  abbrev Answer : S → Packet → Option (Outcome S) → Type 0
  Answer s out r =
      (o : Outcome S) × (r ≡ some o)
      × ((n : ℕ) × (c o.buffer ≡ drop n (c s)))
      × (((o.status ≡ success)
            × (get_or o.packet.buffer 0 0 ≡ f.head_byte)
            × (last_or 0 o.packet.buffer ≡ f.end_byte))
          ⊎ ((o.status ≡ failure) × (o.packet ≡ out)))

  conclude-Answer :
      (s t : S) (out : Packet) (status : ℤ) (text : List ℕ)
      → Allowed b f c laws s (stop status t text)
      → Answer s out (conclude b f out (some (stop status t text)))
  unfolding conclude swap
  conclude-Answer s t out status text (inl (e, h, l), used) =
      rw e (
        record { status = success; buffer = t; packet = swap text },
        refl,
        used,
        inl (refl, h.1, l),
      )
  conclude-Answer s t out status text (inr e, used) =
      rw e (record { status = failure; buffer = t; packet = out }, refl, used, inr (refl, refl))

  -- On every buffer the reader returns: 0 with a string that begins with the head byte and ends
  -- with the end byte, or -1 with the caller's packet as it was. Either way the buffer has lost
  -- nothing but bytes at its front.
  pub read_from_buffer_total :
      (s : S) (out : Packet)
      → (o : Outcome S) × (read_from_buffer b f s out ≡ some o)
        × ((n : ℕ) × (c o.buffer ≡ drop n (c s)))
        × (((o.status ≡ success)
              × (get_or o.packet.buffer 0 0 ≡ f.head_byte)
              × (last_or 0 o.packet.buffer ≡ f.end_byte))
            ⊎ ((o.status ≡ failure) × (o.packet ≡ out)))
  unfolding read_from_buffer
  read_from_buffer_total s out =
      let stopped : Stopped s (read_loop b f (suc (b.read_size s)) s []) =
        loop-Stopped (suc (b.read_size s)) s [] (inl refl) (omega (arith, laws.read_size_lem s)) in
      rw stopped.result
        (conclude-Answer s stopped.buffer out stopped.status stopped.text stopped.allowed)
