-- ===== src/Packet.antt =====
-- ae/packet.h and ae/packet.cpp: frames of a head byte, a 16-bit size, the payload and an end
-- byte. Bytes are numbers below 256. `read_from_buffer` is in Packet/Reader.antt.
pub mod Number
pub mod Frame
pub mod Reader
use ae_proxy.Base.{ℕ, zero, suc, ◌+◌, ◌%◌, List, [], ◌∷◌, length, set, drop, take}
use Number.{DataMode, little_endian, pack_num}

-- The static members `HeadByte`, `EndByte` and `Mode`, which a program may set.
pub record Framing : Type 0 where
  pub head_byte : ℕ
  pub end_byte : ℕ
  pub mode : DataMode

abbrev pub default_framing : Framing
default_framing = record { head_byte = 0x7e; end_byte = 0xe7; mode = little_endian }

pub record Packet : Type 0 where
  pub buffer : List ℕ
  pub data_size : ℕ

-- The constructor's packet: no bytes and size 0.
abbrev pub empty_packet : Packet
empty_packet = record { buffer = []; data_size = 0 }

abbrev pub packet_min_size : ℕ
packet_min_size = 4

-- `std::string::resize`: the first `n` bytes, filled up with 0.
resize : ℕ → List ℕ → List ℕ
resize zero xs = []
resize (suc n) [] = 0 ∷ resize n []
resize (suc n) (x ∷ xs) = x ∷ resize n xs

-- Bytes copied over the string from an index on.
write_at : ℕ → List ℕ → List ℕ → List ℕ
write_at zero [] xs = xs
write_at zero (b ∷ bs) [] = []
write_at zero (b ∷ bs) (x ∷ xs) = b ∷ write_at zero bs xs
write_at (suc i) bs [] = []
write_at (suc i) bs (x ∷ xs) = x ∷ write_at i bs xs

-- `pack`, into a packet that may hold an earlier frame. `size` is the length of the payload.
unfoldable pub pack : Framing → Packet → List ℕ → Packet
unfolding resize write_at
pack f p payload =
    let size = length payload in
    let resized = resize (size + packet_min_size) p.buffer in
    let headed = set resized 0 f.head_byte in
    let sized = write_at 1 (pack_num f.mode 2 size) headed in
    let filled = write_at 3 payload sized in
    record { buffer = set filled (size + 3) f.end_byte; data_size = size }

-- `get_data`: the bytes from the payload's first on.
unfoldable pub get_data : Packet → List ℕ
get_data p = drop 3 p.buffer

unfoldable pub packet_size : Packet → ℕ
packet_size p = length p.buffer

-- The packet's side of `swap`: `(uint16_t)(buffer_.size() - 4)` wraps below 4.
unfoldable pub swap : List ℕ → Packet
swap text = record { buffer = text; data_size = (length text + 65532) % 65536 }
