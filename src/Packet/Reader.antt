-- ===== src/Packet/Reader.antt =====
-- ae/packet.cpp: `read_from_buffer`, over any packet buffer.
pub mod Rounds
pub mod Total
pub mod Framed
pub mod Fragments
pub mod Starving
pub mod Resync
use ae_proxy.Base.{
  ℕ, zero, suc, ◌+◌, ◌%◌, List, [], ◌∷◌, get_or, take, drop, last_or, Option, some, none, ℤ,
  success, failure, is_zero, ltb, ◌==◌, if◌then◌else◌,
}
use ae_proxy.PacketBuffer.{PacketBuffer}
use ae_proxy.Packet.Number.{unpack_num}
use ae_proxy.Packet.{Framing, Packet, packet_min_size, swap}

-- How a round of `while (true)` ends: by `return` or `break` with a status, or in another round,
-- with the buffer and the local string `data`.
pub data Round (S : Type 0) : Type 0 where
  stop : ℤ → S → List ℕ → Round S
  again : S → List ℕ → Round S

pub record Outcome (S : Type 0) : Type 0 where
  pub status : ℤ
  pub buffer : S
  pub packet : Packet

module _ {S : Type 0} (b : PacketBuffer S) (f : Framing) where
  -- `unpack_num((uint8_t*)data.c_str()+1, dataSize)`
  unfoldable pub decoded_size : List ℕ → ℕ
  decoded_size text = unpack_num f.mode 2 (take 2 (drop 1 text))

  -- The read of the payload and the end byte, behind a header that is consumed.
  unfoldable pub finish : S → List ℕ → ℕ → Round S
  finish s text size =
      let text' = (b.read_buffer_n s text (size + 1)).0 in
      if last_or 0 text' == f.end_byte
      then stop success (b.clear_buffer_n s (size + 1)).0 text'
      else again s text'

  -- The body of the loop. `data` is not cleared when the end byte is wrong.
  unfoldable pub round : S → List ℕ → Round S
  unfolding decoded_size finish
  round s text =
      let available = b.read_size s in
      let text' = (b.read_buffer_n s text 3).0 in
      let size = decoded_size text' in
      if ltb available packet_min_size
      then stop failure s text
      else if get_or text' 0 0 == f.head_byte
      then if ltb available ((size + packet_min_size) % 65536)
        then stop failure s text'
        else finish (b.clear_buffer_n s 3).0 text' size
      else again (b.clear_buffer_n s 1).0 []

  -- `none`: out of fuel.
  unfoldable pub read_loop : ℕ → S → List ℕ → Option (Round S)
  read_loop zero s text = none
  read_loop (suc fuel) s text = elim (round s text) [
    | stop status s' text' ↦ some (stop status s' text')
    | again s' text' ↦ read_loop fuel s' text'
  ]

  -- `out` is swapped with the string on success, and left alone otherwise.
  unfoldable pub conclude : Packet → Option (Round S) → Option (Outcome S)
  conclude out none = none
  conclude out (some (again s text)) = none
  conclude out (some (stop status s text)) =
      some
        (record { status = status; buffer = s; packet = if is_zero status then swap text else out })

  -- Each further round has consumed a byte, so a round for each byte and one more are enough.
  unfoldable pub read_from_buffer : S → Packet → Option (Outcome S)
  unfolding conclude
  read_from_buffer s out = conclude out (read_loop (suc (b.read_size s)) s [])
