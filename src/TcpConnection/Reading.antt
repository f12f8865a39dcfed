-- ===== src/TcpConnection/Reading.antt =====
-- The reading side of ae/tcp_connection.cpp: the string that libuv reads into, the packet buffer of
-- the connection, and a program whose message callback appends to that buffer and reads packets.
pub mod Served
pub mod Framed
use ae_proxy.Base.{
  ℕ, zero, suc, List, [], ◌∷◌, ◌++◌, ◌≡◌, ◌≤◌, Bool, Option, none, some, ℤ, length, take,
  if◌then◌else◌,
}
use mathlib.Core.Option.{bind, map}
use ae_proxy.ListBuffer.{ListBuffer, list_buffer}
use ae_proxy.Packet.{Packet}
use ae_proxy.GlobalConfig.{BufferMode, GlobalConfig, new_packet_buffer}
use ae_proxy.GlobalConfig.Receiving.{receive}
use ae_proxy.TcpConnection.{
  TcpConnection, new_connection, Effect, calls_message, on_mesage_receive, set_message_callback,
}

-- A connection with the fields that reading uses.
pub record Reader : Type 0 where
  pub connection : TcpConnection
  pub read_data : List ℕ
  pub buffer : Option ListBuffer

-- The constructor.
abbrev pub new_reader : BufferMode → List ℕ → Bool → Reader
new_reader mode name is_connected = record {
  connection = new_connection name is_connected;
  read_data = [];
  buffer = new_packet_buffer mode;
}

-- `std::string::resize`, which adds zeros.
unfoldable pub resize : ℕ → List ℕ → List ℕ
resize zero text = []
resize (suc n) [] = 0 ∷ resize n []
resize (suc n) (x ∷ text) = x ∷ resize n text

abbrev pub resize_data : ℕ → Reader → Reader
resize_data size r = record r { read_data = resize size r.read_data }

abbrev pub get_packet_buffer : Reader → Option ListBuffer
get_packet_buffer r = r.buffer

-- `TcpClient::get_current_buf`, of the client's connection if there is one.
abbrev pub get_current_buf : Option Reader → Option ListBuffer
get_current_buf none = none
get_current_buf (some r) = get_packet_buffer r

-- libuv copies what has arrived to the front of a buffer that is large enough.
abbrev pub Copies : (List ℕ → List ℕ → Option (List ℕ)) → Type 0
Copies copy =
    (bytes text : List ℕ)
    → length bytes ≤ length text
    → (filled : List ℕ) × (copy bytes text ≡ some filled) × (take (length bytes) filled ≡ bytes)

module _ (copy : List ℕ → List ℕ → Option (List ℕ)) (is_eof : ℤ → Bool) where
  -- The two callbacks of `uv_read_start`, one after the other: the string gets the size that libuv
  -- suggests, and the connection is told what libuv answers.
  abbrev pub answered : Reader → ℤ → ℕ → Option (List ℕ) → Option (Reader × List Effect)
  answered r nread n none = none
  answered r nread n (some text) =
      let (c, effects) = on_mesage_receive is_eof r.connection nread (take n text) in
      some (record r { connection = c; read_data = text }, effects)

  unfoldable pub read_event : Reader → ℕ → ℤ → List ℕ → Option (Reader × List Effect)
  read_event r suggested_size nread bytes =
      let r' = resize_data suggested_size r in
      answered r' nread (length bytes) (copy bytes r'.read_data)

-- The buffers that a message callback was called with.
unfoldable pub messages : List Effect → List (List ℕ)
messages [] = []
messages (calls_message buf ∷ effects) = buf ∷ messages effects
messages (_ ∷ effects) = messages effects

module _ {O : Type 0} (config : GlobalConfig ListBuffer O) where
  abbrev pub kept : Reader → Option (List Packet × ListBuffer) → Option (List Packet × Reader)
  kept r none = none
  kept r (some (packets, b)) = some (packets, record r { buffer = some b })

  -- A callback that appends to the connection's buffer and reads packets; without a buffer it would
  -- call a method of a null pointer.
  abbrev pub callback : Option ListBuffer → Reader → List (List ℕ) → Option (List Packet × Reader)
  callback none r [] = some ([], r)
  callback none r (_ ∷ _) = none
  callback (some b) r pieces = kept r (receive list_buffer config b pieces)

  -- Reads of a connection, each with the size that libuv suggests and the bytes that arrive.
  unfoldable pub serve :
      (List ℕ → List ℕ → Option (List ℕ))
      → (ℤ → Bool)
      → Reader
      → List (ℕ × List ℕ)
      → Option (List Packet × Reader)
  serve copy is_eof r [] = some ([], r)
  serve copy is_eof r ((size, bytes) ∷ reads) =
      bind (read_event copy is_eof r size (ℤ.pos (length bytes)) bytes) (λ (r1, effects).
        bind (callback (get_packet_buffer r1) r1 (messages effects))
          (λ (ps, r2). bind (serve copy is_eof r2 reads) (λ (qs, r3). some (ps ++ qs, r3))))
