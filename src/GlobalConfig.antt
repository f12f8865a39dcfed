-- ===== src/GlobalConfig.antt =====
-- ae/global_config.h and ae/global_config.cpp, and the methods of ae/packet_buffer.h that call the
-- functions set there. A null function is `none`; a function that reads answers its status, the buffer
-- and what it was to fill.
pub mod Receiving
pub mod Stream
use ae_proxy.Base.{ℕ, ◌*◌, List, Option, none, some, ℤ, failure}
use ae_proxy.ListBuffer.{ListBuffer, empty_buffer}
use ae_proxy.PacketBuffer.{PacketBuffer}
use ae_proxy.Packet.{Framing, Packet}
use ae_proxy.Packet.Reader.{Outcome, read_from_buffer}

pub data BufferMode : Type 0 where
  no_buffer cycle_buffer list_buffer : BufferMode

-- The buffer of a new connection; there is no class for the circular one.
abbrev pub new_packet_buffer : BufferMode → Option ListBuffer
new_packet_buffer list_buffer = some empty_buffer
new_packet_buffer cycle_buffer = none
new_packet_buffer no_buffer = none

pub record Reading (S O : Type 0) : Type 0 where
  pub status : ℤ
  pub buffer : S
  pub out : O

-- `none`: the function does not return.
abbrev pub ReadFunc : Type 0 → Type 0 → Type 0
ReadFunc S O = S → O → Option (Reading S O)

-- O is what the `void*` leads to.
pub record GlobalConfig (S O : Type 0) : Type 0 where
  pub buffer_mode_status : BufferMode
  pub cycle_buffer_size : ℕ
  pub read_buffer_string : Option (ReadFunc S (List ℕ))
  pub read_buffer_packet : Option (ReadFunc S Packet)
  pub read_buffer_void : Option (ReadFunc S O)

module _ {S : Type 0} where
  abbrev pub reading : Option (Outcome S) → Option (Reading S Packet)
  reading none = none
  reading (some o) = some (record { status = o.status; buffer = o.buffer; out = o.packet })

  -- What the program starts with.
  abbrev pub default_config : {O : Type 0} → PacketBuffer S → Framing → GlobalConfig S O
  default_config b f = record {
    buffer_mode_status = no_buffer;
    cycle_buffer_size = 1024 * 32;
    read_buffer_string = none;
    read_buffer_packet = some (λ s out. reading (read_from_buffer b f s out));
    read_buffer_void = none;
  }

  -- `TcpServer::set_buffer_mode`
  abbrev pub set_buffer_mode : {O : Type 0} → BufferMode → GlobalConfig S O → GlobalConfig S O
  set_buffer_mode mode config = record config { buffer_mode_status = mode }

  -- A function that is null is reported, and nothing is read.
  abbrev pub read_with : {O : Type 0} → Option (ReadFunc S O) → S → O → Option (Reading S O)
  read_with none s out = some (record { status = failure; buffer = s; out = out })
  read_with (some read) s out = read s out

  unfoldable pub read_string :
      {O : Type 0} → GlobalConfig S O → S → List ℕ → Option (Reading S (List ℕ))
  read_string config s out = read_with config.read_buffer_string s out

  unfoldable pub read_packet :
      {O : Type 0} → GlobalConfig S O → S → Packet → Option (Reading S Packet)
  read_packet config s out = read_with config.read_buffer_packet s out

  unfoldable pub read_generic : {O : Type 0} → GlobalConfig S O → S → O → Option (Reading S O)
  read_generic config s out = read_with config.read_buffer_void s out
