-- ===== src/Tests/Reads.antt =====
-- A connection that reads two frames from its socket.
use ae_proxy.Base.{ℕ, ◌≡◌, refl, ap, Bool, true, false, List, [], ◌∷◌, Option, some, none, ℤ, arith}
use mathlib.Core.Option
use mathlib.Core.Option.{bind}
use ae_proxy.ListBuffer.{list_buffer, empty_buffer}
use ae_proxy.Packet.Number.{pack_num}
use ae_proxy.Packet.{default_framing, empty_packet, pack}
use ae_proxy.GlobalConfig.{default_config, no_buffer}
use ae_proxy.TcpConnection.{set_message_callback, on_mesage_receive}
use ae_proxy.TcpConnection.Reading.{serve, new_reader, read_event, resize, Copies, messages}
use ae_proxy.TcpConnection.Reading.Served.{shown}
use ae_proxy.TcpConnection.Reading.Framed.{listening_reader, serve-pack}

-- A copy that refuses a buffer that is too small.
unfoldable copy_in : List ℕ → List ℕ → Option (List ℕ)
copy_in [] text = some text
copy_in (b ∷ bytes) [] = none
copy_in (b ∷ bytes) (x ∷ text) = Option.map (λ rest. b ∷ rest) (copy_in bytes text)

copy_in-Copies : Copies copy_in
unfolding copy_in
copy_in-Copies [] text h = (text, refl, refl)
copy_in-Copies (b ∷ bytes) [] h = absurd (omega arith)
copy_in-Copies (b ∷ bytes) (x ∷ text) h =
    let (d, e, same) = copy_in-Copies bytes text (omega arith) in
    (b ∷ d, ap (Option.map (λ rest. b ∷ rest)) e, ap (λ xs. b ∷ xs) same)

abbrev never : ℤ → Bool
never z = false

abbrev payloads : List (List ℕ)
payloads = (104 ∷ 105 ∷ []) ∷ (65 ∷ []) ∷ []

-- The sizes that libuv suggests, and what arrives; nothing, once.
abbrev reads : List (ℕ × List ℕ)
reads =
    (2, 0x7e ∷ 2 ∷ [])
    ∷ (64, [])
    ∷ (8, 0 ∷ 104 ∷ 105 ∷ 0xe7 ∷ 0x7e ∷ 1 ∷ 0 ∷ [])
    ∷ (64, 65 ∷ 0xe7 ∷ [])
    ∷ []

serve-pack_example :
    Option.map shown (
      serve
        (default_config {O = ℕ} list_buffer default_framing)
        copy_in
        never
        (listening_reader (112 ∷ []))
        reads)
    ≡ some (
      pack default_framing empty_packet (104 ∷ 105 ∷ [])
          ∷ pack default_framing empty_packet (65 ∷ [])
          ∷ [],
      (listening_reader (112 ∷ [])).connection,
      some empty_buffer,
    )
unfolding pack pack_num
serve-pack_example =
    serve-pack ℕ default_framing copy_in never (112 ∷ []) reads payloads copy_in-Copies
      (omega arith, (omega arith, (omega arith, (omega arith, _)))) (omega arith, (omega arith, _))
      refl

-- Without a buffer, which is what a program starts with, such a callback has nowhere to write.
no_buffer_to_append :
    (let r = new_reader no_buffer (112 ∷ []) true in
      serve
        (default_config {O = ℕ} list_buffer default_framing)
        copy_in
        never
        (record r { connection = set_message_callback r.connection true })
        ((2, 1 ∷ []) ∷ []))
    ≡ none
unfolding serve read_event resize copy_in messages on_mesage_receive bind
no_buffer_to_append = refl
