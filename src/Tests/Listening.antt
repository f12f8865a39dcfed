-- ===== src/Tests/Listening.antt =====
-- Servers that begin and end to listen.
use ae_proxy.Base.{◌≡◌, inl, refl, true, [], ◌∷◌, ◌++◌, some, ℤ, success}
use ae_proxy.TcpAcceptor.{
  TcpAcceptor, new_acceptor, on_connection, inits_client, sets_no_delay, calls_new_connection,
  closes_client, set_new_connection_callback,
}
use ae_proxy.TcpServer.{accepted}
use ae_proxy.TcpServer.Table.{AreAlive}
use ae_proxy.TcpServer.Listening.{Listener, new_server, close_server, server_finishes}
use ae_proxy.TcpServer.Listening.Shutdown.{
  AllClosing, server_finishes-close_server, close_server-close_server,
}

-- uv_tcp_bind's EADDRINUSE.
abbrev in_use : ℤ
in_use = ℤ.negsuc 97

abbrev server : Listener
server = new_server true

abbrev acceptor : TcpAcceptor
acceptor = set_new_connection_callback true (new_acceptor true)

abbrev busy : Listener
busy = record server {
  acceptor = some acceptor;
  timed = record server.timed {
    server = record server.timed.server { connections = (1 ∷ [], accepted (1 ∷ [])) ∷ [] };
  };
}

busy-AreAlive : AreAlive busy.timed.server.connections
unfolding AreAlive
busy-AreAlive = (inl (refl, refl), _)

server_finishes-close_server_example :
    (waits l' : Listener) × (close_server 5 busy ≡ some waits)
    × (waits.timed ≡ busy.timed)
    × (waits.close_calls ≡ busy.close_calls)
    × (server_finishes waits ≡ some l')
    × (l'.close_calls ≡ busy.close_calls ++ 5 ∷ [])
    × AllClosing l'.timed.server
    × AreAlive l'.timed.server.connections
server_finishes-close_server_example =
    server_finishes-close_server busy acceptor refl refl busy-AreAlive 5

close_server-close_server_example :
    (waits again l' : Listener) × (close_server 5 busy ≡ some waits)
    × (close_server 6 waits ≡ some again)
    × (again.close_calls ≡ busy.close_calls ++ 6 ∷ [])
    × (server_finishes again ≡ some l')
    × (l'.close_calls ≡ busy.close_calls ++ 6 ∷ 6 ∷ [])
close_server-close_server_example =
    close_server-close_server busy acceptor refl refl busy-AreAlive 5 6

-- A client that comes is handed over, and one that cannot be accepted is closed.
hands_over :
    on_connection success success acceptor
    ≡ inits_client ∷ sets_no_delay ∷ calls_new_connection ∷ []
unfolding on_connection
hands_over = refl

not_accepted :
    on_connection success in_use acceptor ≡ inits_client ∷ sets_no_delay ∷ closes_client ∷ []
unfolding on_connection
not_accepted = refl

-- Without a call of `listen`, `close` never calls back.
never_closed : close_server 5 server ≡ some server
unfolding close_server
never_closed = refl
