-- ===== src/UdpProxy/Running.antt =====
-- A UDP proxy of app/udp_proxy.cpp that runs: its socket, its sessions and the sockets of its agents.
use ae_proxy.Base.{ℕ, Bool, true, false, List, [], ◌∷◌, ◌++◌, Option, none, some, ℤ, success}
use mathlib.Core.Option.{bind}
use ae_proxy.SocketAddr.{Ipv, ipv4}
use ae_proxy.Msgpack.{Unpacker}
use ae_proxy.TcpConnection.{opened}
use ae_proxy.UdpSocket.{
  UdpSocket, UdpEffect, calls_on_message, calls_on_close, logs_read_error, try_bind_and_read,
  try_read, on_udp_receive,
}
use ae_proxy.UdpProxy.{Sessions, Sent, UdpAgent, send_to_client, forward}

pub record UdpProxy : Type 0 where
  pub server : UdpSocket
  pub sessions : Sessions

abbrev pub new_udp_socket : UdpSocket
new_udp_socket = record {
  handle = opened;
  reading = false;
  ipv = none;
  on_close_set = false;
  on_message_set = false;
}

-- `set_message_callback`
abbrev pub set_udp_message_callback : Bool → UdpSocket → UdpSocket
set_udp_message_callback present s = record s { on_message_set = present }

-- `start`, by what the bind returns and what the start of reading returns, which it both drops.
unfoldable pub start : ℤ → ℤ → UdpProxy × ℤ
unfolding try_bind_and_read
start bound rst = (
  record {
    server = (try_bind_and_read (set_udp_message_callback true new_udp_socket) ipv4 bound rst).0;
    sessions = [];
  },
  success,
)

abbrev pub sent_more : List Sent → Option (Sessions × List Sent) → Option (Sessions × List Sent)
sent_more earlier none = none
sent_more earlier (some (sessions, later)) = some (sessions, earlier ++ later)

-- The callback of the proxy's socket, for what the socket calls.
unfoldable pub serve : Unpacker → List UdpEffect → Sessions → Option (Sessions × List Sent)
serve next [] sessions = some (sessions, [])
serve next (calls_on_message from buf ∷ effects) sessions =
    bind (forward next from buf sessions)
      (λ (sessions', sent). sent_more (sent ∷ []) (serve next effects sessions'))
serve next (calls_on_close ∷ effects) sessions = serve next effects sessions
serve next (logs_read_error status ∷ effects) sessions = serve next effects sessions

-- Bytes arrive at the proxy's socket.
unfoldable pub on_server_receive :
    Unpacker
    → (List ℕ → Ipv → List ℕ)
    → UdpProxy
    → ℤ
    → List ℕ
    → ℕ
    → List ℕ
    → Option (Sessions × List Sent)
unfolding serve
on_server_receive next inet_ntop p nread addr port buf =
    bind (on_udp_receive inet_ntop p.server nread addr port buf)
      (λ effects. serve next effects p.sessions)

-- The socket of an agent that `get_agent` makes.
unfoldable pub agent_socket : ℤ → UdpSocket
unfolding try_read
agent_socket rst = (try_read (set_udp_message_callback true new_udp_socket) rst).0

-- The callback of an agent's socket sends what comes to the client.
unfoldable pub answer : UdpAgent → List UdpEffect → List Sent
answer agent [] = []
answer agent (calls_on_message from buf ∷ effects) = send_to_client agent buf ∷ answer agent effects
answer agent (calls_on_close ∷ effects) = answer agent effects
answer agent (logs_read_error status ∷ effects) = answer agent effects

unfoldable pub on_agent_receive :
    (List ℕ → Ipv → List ℕ) → UdpAgent → UdpSocket → ℤ → List ℕ → ℕ → List ℕ → Option (List Sent)
unfolding answer
on_agent_receive inet_ntop agent s nread addr port buf =
    bind (on_udp_receive inet_ntop s nread addr port buf) (λ effects. some (answer agent effects))
