-- ===== src/TcpConnection/Reading/Framed.antt =====
-- Frames that a peer sends, as ae/tcp_connection.cpp and ae/packet.cpp receive them.
use ae_proxy.Base.{
  ℕ, ◌≡◌, ◌<◌, refl, ap, ◌∙◌, Bool, true, List, [], ◌∷◌, ◌++◌, Option, some, ℤ, length, All, map,
}
use mathlib.Core.Option
use mathlib.Core.Option.{bind}
use ae_proxy.ListBuffer.{list_buffer, empty_buffer, list_buffer-Laws}
use ae_proxy.Packet.{Framing, pack, empty_packet}
use ae_proxy.GlobalConfig.{BufferMode, default_config}
use ae_proxy.GlobalConfig.Receiving.{concat}
use ae_proxy.GlobalConfig.Stream.{receive-pack}
use ae_proxy.TcpConnection.{set_message_callback}
use ae_proxy.TcpConnection.Reading.{Reader, new_reader, Copies, serve}
use ae_proxy.TcpConnection.Reading.Served.{arrived, Fits, shown, holds, serve-receive}

concat-arrived :
    (reads : List (ℕ × List ℕ)) → concat (arrived reads) ≡ concat (map (λ r. r.1) reads)
concat-arrived [] = refl
concat-arrived ((n, []) ∷ reads) = concat-arrived reads
concat-arrived ((n, b ∷ bytes) ∷ reads) = ap (λ xs. b ∷ bytes ++ xs) (concat-arrived reads)

-- A new connection whose program has set the message callback.
abbrev pub listening_reader : List ℕ → Reader
listening_reader name =
    let r = new_reader BufferMode.list_buffer name true in
    record r { connection = set_message_callback r.connection true }

-- From the socket to the packets. A peer sends frames that `pack` made of payloads below 65532 bytes,
-- one after the other; libuv, which copies what arrives to the front of a buffer that is large enough,
-- reads them from a new connection in portions of any sizes, empty ones
-- too, each no larger than the size it suggested for it; the connection has a list buffer, and its
-- program a message callback that appends to that buffer and reads packets, as the program starts
-- with it. Then no portion is written outside the connection's string, the packets read are the ones
-- packed, in their order, each once, the connection is as it was, and its buffer is empty.
pub serve-pack :
    (O : Type 0) (f : Framing) (copy : List ℕ → List ℕ → Option (List ℕ)) (is_eof : ℤ → Bool)
    (name : List ℕ) (reads : List (ℕ × List ℕ)) (payloads : List (List ℕ))
    → Copies copy
    → All Fits reads
    → All (λ payload. length payload < 65532) payloads
    → concat (map (λ r. r.1) reads)
      ≡ concat (map (λ payload. (pack f empty_packet payload).buffer) payloads)
    → Option.map shown
        (serve (default_config {O = O} list_buffer f) copy is_eof (listening_reader name) reads)
      ≡ some (
        map (pack f empty_packet) payloads,
        (listening_reader name).connection,
        some empty_buffer,
      )
serve-pack O f copy is_eof name reads payloads copies fits small sent =
    let (left, run, empty) =
      receive-pack O list_buffer f (λ b. b.buffer) list_buffer-Laws (arrived reads) payloads
        empty_buffer small refl (concat-arrived reads ∙ sent) in
    serve-receive (default_config list_buffer f) copy copies is_eof (listening_reader name)
      empty_buffer reads refl refl fits
    ∙ (ap (Option.map (holds (listening_reader name).connection)) run
        ∙ ap
            (λ bytes. some (
              map (pack f empty_packet) payloads,
              (listening_reader name).connection,
              some (record { buffer = bytes }),
            ))
            empty)
