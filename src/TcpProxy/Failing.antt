-- ===== src/TcpProxy/Failing.antt =====
-- What is left of a client of app/tcp_proxy.cpp whose real server cannot be reached.
use ae_proxy.Base.{ℕ, ◌≡◌, refl, ap, false, List, [], none, some, ℤ, update}
use ae_proxy.TcpConnection.{TcpConnection, Handle, opened, closing, closed, close, close_handle}
use ae_proxy.TcpClient.{connect_fail}
use ae_proxy.TcpServer.{TcpServer, get_connection, settle, step, accepts, finishes}
use ae_proxy.TcpServer.Table.{lookup-update}
use ae_proxy.TcpProxy.{connect_fail, TcpProxy, drop_client, with_server, on_connect_status}

-- The connection after `close(nullptr)`, and after libuv has closed its handle.
abbrev pub abandoned : Handle → TcpConnection → TcpConnection
abandoned handle c = record c {
  handle = handle;
  reading = false;
  on_message_set = false;
  on_connect_close_set = false;
  close_complete_set = false;
}

abbrev abandoned_server : Handle → List ℕ → TcpConnection → TcpServer → TcpServer
abandoned_server handle client c s = record s {
  connections = update client (abandoned handle c) s.connections;
}

drop_client-opened :
    (client : List ℕ) (c : TcpConnection) (p : TcpProxy)
    → c.handle ≡ opened
    → drop_client (some c) client p ≡ some (abandoned_server closing client c p.server)
unfolding close
drop_client-opened client c p h =
    ap (λ handle. settle client (close_handle handle (abandoned handle c)) p.server) h

-- When the real server cannot be reached, an open client is closed without a callback: its handle is
-- closing, and no callback is left in it. After libuv has closed the handle, the connection is still
-- in the server's map with a closed handle, the program is not told, and a new connection from the
-- same address cannot be kept.
pub on_connect_status-fail :
    (client target message : List ℕ) (rst : ℤ) (p : TcpProxy) (c : TcpConnection)
    → get_connection client p.server ≡ some c
    → c.handle ≡ opened
    → (p' : TcpProxy) × (s : TcpServer) × (on_connect_status connect_fail client target message rst
          p
        ≡ some (p', []))
      × (get_connection client p'.server ≡ some (abandoned closing c))
      × (step p'.server (finishes client) ≡ some s)
      × (get_connection client s ≡ some (abandoned closed c))
      × (s.notified ≡ p.server.notified)
      × (step s (accepts client) ≡ none)
unfolding on_connect_status step get_connection
on_connect_status-fail client target message rst p c e h =
    let p' = record p { server = abandoned_server closing client c p.server } in
    let kept = lookup-update client (abandoned closing c) c p.server.connections e in
    let s = record p'.server {
      connections = update client (abandoned closed c) p'.server.connections;
    } in
    let stays =
      lookup-update client (abandoned closed c) (abandoned closing c) p'.server.connections kept in
    (
      p',
      s,
      rw e (ap (with_server p) (drop_client-opened client c p h)),
      kept,
      rw kept refl,
      stays,
      refl,
      rw stays refl,
    )
