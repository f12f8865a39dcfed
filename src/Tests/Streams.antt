-- ===== src/Tests/Streams.antt =====
-- A stream of frames that arrives in pieces.
use ae_proxy.Base.{ℕ, ◌≡◌, refl, List, [], ◌∷◌, none, some, failure, arith}
use ae_proxy.ListBuffer.{ListBuffer, list_buffer, list_buffer-Laws}
use ae_proxy.Packet.Number.{pack_num}
use ae_proxy.Packet.{default_framing, empty_packet, pack}
use ae_proxy.GlobalConfig.{
  no_buffer, GlobalConfig, default_config, read_string, read_generic, new_packet_buffer,
}
use ae_proxy.GlobalConfig.Receiving.{receive}
use ae_proxy.GlobalConfig.Stream.{receive-pack}

abbrev contents : ListBuffer → List ℕ
contents b = b.buffer

abbrev holding : List ℕ → ListBuffer
holding bytes = record { buffer = bytes }

-- The payloads "hi" and "A", whose frames are cut inside the first header and inside the second frame.
abbrev payloads : List (List ℕ)
payloads = (104 ∷ 105 ∷ []) ∷ (65 ∷ []) ∷ []

abbrev pieces : List (List ℕ)
pieces = (0x7e ∷ 2 ∷ []) ∷ (0 ∷ 104 ∷ 105 ∷ 0xe7 ∷ 0x7e ∷ 1 ∷ 0 ∷ []) ∷ (65 ∷ 0xe7 ∷ []) ∷ []

abbrev config : GlobalConfig ListBuffer ℕ
config = default_config list_buffer default_framing

receive-pack_example :
    (left : ListBuffer) × (receive list_buffer config (holding []) pieces
      ≡ some (
        pack default_framing empty_packet (104 ∷ 105 ∷ [])
            ∷ pack default_framing empty_packet (65 ∷ [])
            ∷ [],
        left,
      ))
    × (contents left ≡ [])
unfolding pack pack_num
receive-pack_example =
    receive-pack ℕ list_buffer default_framing contents list_buffer-Laws pieces payloads
      (holding []) (omega arith, (omega arith, _)) refl refl

-- Nothing reads strings or other values until the program sets a function.
no_strings :
    read_string config (holding (1 ∷ [])) []
    ≡ some (record { status = failure; buffer = holding (1 ∷ []); out = [] })
unfolding read_string
no_strings = refl

no_values :
    read_generic config (holding (1 ∷ [])) 7
    ≡ some (record { status = failure; buffer = holding (1 ∷ []); out = 7 })
unfolding read_generic
no_values = refl

-- A connection has a buffer only if the program asked for one.
no_packet_buffer : new_packet_buffer no_buffer ≡ none
no_packet_buffer = refl
