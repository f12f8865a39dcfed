-- ===== src/Tests/Servers.antt =====
-- The TCP connections and the server.
use ae_proxy.Base.{
  ℕ, ◌≡◌, inl, refl, true, false, List, [], ◌∷◌, some, none, ℤ, erase, lookup, same_text,
}
use ae_proxy.TcpConnection.{
  TcpConnection, closing, closed, requests_write, logs_error, write, write_in_loop,
  on_mesage_receive, on_socket_close,
}
use ae_proxy.TcpServer.{TcpServer, get_connection, accepted, finishes, step, accepts}
use ae_proxy.TcpServer.Table.{AreAlive}
use ae_proxy.TcpClient.{connect_fail, connect_success}
use ae_proxy.TcpProxy.{TcpProxy, on_connect_status, set_session}
use ae_proxy.TcpProxy.Failing.{abandoned, on_connect_status-fail}

abbrev peer : List ℕ
peer = 112 ∷ []

abbrev connection : TcpConnection
connection = accepted peer

abbrev server : TcpServer
server = record {
  connections = (peer, connection) ∷ [];
  on_message_set = true;
  on_connect_close_set = true;
  on_new_connect_set = false;
  announced = [];
  notified = [];
}

server-AreAlive : AreAlive server.connections
unfolding AreAlive
server-AreAlive = (inl (refl, refl), _)

server_peer : get_connection peer server ≡ some connection
unfolding get_connection lookup same_text
server_peer = refl

-- A write to a connection that is gone, without a callback, calls a null function.
write_gone : write_in_loop none (ℤ.pos 0) peer false ≡ none
unfolding write_in_loop
write_gone = refl

-- A read error, which is no end of file, closes the socket at once.
read_failed :
    (on_mesage_receive (λ n. false) connection (ℤ.negsuc 103) []).1
    ≡ logs_error (ℤ.negsuc 103) ∷ on_socket_close connection
unfolding on_mesage_receive
read_failed = refl

abbrev proxy : TcpProxy
proxy = record { sessions = []; server = server }

on_connect_status-fail_example :
    (p : TcpProxy) × (s : TcpServer) × (on_connect_status connect_fail peer
        (113 ∷ [])
        (104 ∷ [])
        (ℤ.pos 0)
        proxy
      ≡ some (p, []))
    × (get_connection peer p.server ≡ some (abandoned closing connection))
    × (step p.server (finishes peer) ≡ some s)
    × (get_connection peer s ≡ some (abandoned closed connection))
    × (s.notified ≡ proxy.server.notified)
    × (step s (accepts peer) ≡ none)
on_connect_status-fail_example =
    on_connect_status-fail peer (113 ∷ []) (104 ∷ []) (ℤ.pos 0) proxy connection server_peer refl

-- The message for the real server is written to the client, when the agent has connected.
echoed :
    on_connect_status connect_success peer (113 ∷ []) (104 ∷ []) (ℤ.pos 0) proxy
    ≡ some (record proxy { sessions = (peer, 113 ∷ []) ∷ [] }, requests_write (104 ∷ []) ∷ [])
unfolding on_connect_status set_session get_connection lookup same_text erase write
echoed = refl
