-- ===== src/Tests/Packets.antt =====
-- Frames and the list buffer.
use ae_proxy.Base.{
  ℕ, ◌≡◌, ◌≢◌, ◌⊎◌, refl, List, [], ◌∷◌, Option, some, success, failure, replicate, take, drop,
  get_or, last_or, arith,
}
use ae_proxy.ListBuffer.{
  ListBuffer, list_buffer, list_buffer-Laws, read_buffer_n, clear_buffer_n, read_size,
}
use ae_proxy.Packet.Number.{big_endian, pack_num, unpack_num}
use ae_proxy.Packet.{default_framing, Packet, empty_packet, pack, swap}
use ae_proxy.Packet.Frame.{frame}
use ae_proxy.Packet.Reader.{Outcome, round, read_loop, read_from_buffer}
use ae_proxy.Packet.Reader.Total.{read_from_buffer_total}
use ae_proxy.Packet.Reader.Framed.{read_from_buffer-pack}
use ae_proxy.Packet.Reader.Fragments.{read_from_buffer-part}
use ae_proxy.Packet.Reader.Resync.{read_from_buffer-damaged}

abbrev contents : ListBuffer → List ℕ
contents b = b.buffer

abbrev holding : List ℕ → ListBuffer
holding bytes = record { buffer = bytes }

abbrev hello : List ℕ
hello = 104 ∷ 105 ∷ []

abbrev read : ListBuffer → Packet → Option (Outcome ListBuffer)
read = read_from_buffer list_buffer default_framing

pack-hello : (pack default_framing empty_packet hello).buffer ≡ 0x7e ∷ 2 ∷ 0 ∷ 104 ∷ 105 ∷ 0xe7 ∷ []
unfolding pack pack_num
pack-hello = refl

pack_big_endian : pack_num big_endian 2 0x1234 ≡ 0x12 ∷ 0x34 ∷ []
unfolding pack_num
pack_big_endian = refl

read_from_buffer_total_example :
    (o : Outcome ListBuffer) × (read (holding hello) empty_packet ≡ some o)
    × ((n : ℕ) × (contents o.buffer ≡ drop n hello))
    × (((o.status ≡ success)
          × (get_or o.packet.buffer 0 0 ≡ 0x7e)
          × (last_or 0 o.packet.buffer ≡ 0xe7))
        ⊎ ((o.status ≡ failure) × (o.packet ≡ empty_packet)))
read_from_buffer_total_example =
    read_from_buffer_total list_buffer default_framing contents list_buffer-Laws (holding hello)
      empty_packet

-- Two bytes of noise, a frame and the start of another.
abbrev noisy : List ℕ
noisy = 1 ∷ 2 ∷ 0x7e ∷ 2 ∷ 0 ∷ 104 ∷ 105 ∷ 0xe7 ∷ 0x7e ∷ 9 ∷ []

noisy_run :
    read (holding noisy) empty_packet
    ≡ some (record {
      status = success;
      buffer = holding (0x7e ∷ 9 ∷ []);
      packet = record { buffer = 0x7e ∷ 2 ∷ 0 ∷ 104 ∷ 105 ∷ 0xe7 ∷ []; data_size = 2 };
    })
unfolding read_from_buffer read_loop round list_buffer read_buffer_n clear_buffer_n read_size swap
    unpack_num
noisy_run = refl

read_from_buffer-pack_example :
    (o : Outcome ListBuffer) × (read (holding noisy) empty_packet ≡ some o)
    × (o.status ≡ success)
    × (o.packet ≡ pack default_framing empty_packet hello)
    × (contents o.buffer ≡ 0x7e ∷ 9 ∷ [])
unfolding pack pack_num
read_from_buffer-pack_example =
    read_from_buffer-pack list_buffer default_framing contents list_buffer-Laws (holding noisy)
      empty_packet empty_packet (1 ∷ 2 ∷ []) hello (0x7e ∷ 9 ∷ []) (omega arith) (omega arith) refl

read_from_buffer-part_example :
    read (holding (take 5 (frame default_framing hello))) empty_packet
    ≡ some (record {
      status = failure;
      buffer = holding (take 5 (frame default_framing hello));
      packet = empty_packet;
    })
read_from_buffer-part_example =
    read_from_buffer-part list_buffer default_framing contents list_buffer-Laws
      (holding (take 5 (frame default_framing hello))) hello 5 (omega arith) refl empty_packet
      (omega arith)

abbrev large : List ℕ
large = replicate 65532 0

abbrev large_part : List ℕ
large_part = take 9 (frame default_framing large)

-- A frame whose end byte was damaged, and a good frame of the same size behind it.
abbrev damaged : List ℕ
damaged = 0x7e ∷ 1 ∷ 0 ∷ 55 ∷ 99 ∷ 0x7e ∷ 1 ∷ 0 ∷ 66 ∷ 0xe7 ∷ []

damaged_run :
    read (holding damaged) empty_packet
    ≡ some (record {
      status = failure;
      buffer = holding (1 ∷ 0 ∷ 66 ∷ 0xe7 ∷ []);
      packet = empty_packet;
    })
unfolding read_from_buffer read_loop round list_buffer read_buffer_n clear_buffer_n read_size swap
    unpack_num
damaged_run = refl

read_from_buffer-damaged_example :
    (o : Outcome ListBuffer) × (read (holding damaged) empty_packet ≡ some o)
    × ((o.status ≡ failure) ⊎ (o.packet.buffer ≢ frame default_framing (66 ∷ [])))
unfolding pack_num
read_from_buffer-damaged_example =
    read_from_buffer-damaged list_buffer default_framing contents list_buffer-Laws (holding damaged)
      empty_packet (55 ∷ []) (0x7e ∷ 1 ∷ 0 ∷ 66 ∷ 0xe7 ∷ []) (66 ∷ []) 99 (omega arith)
      (omega arith) (omega arith) refl
