-- ===== src/Tests/Bindings.antt =====
-- The messages of the TCP proxy's clients.
use ae_proxy.Base.{
  ℕ, ◌≡◌, ◌↔◌, refl, true, false, List, [], ◌∷◌, ◌++◌, some, ℤ, is_zero, if◌then◌else◌, lookup,
  same_text,
}
use ae_proxy.SocketAddr.{new_addr, addr_to_string, ipv4}
use ae_proxy.SocketAddr.Decimal.{to_string}
use ae_proxy.Msgpack.{str, integer, to_int}
use ae_proxy.Msgpack.Folding.{Yields, as_unpacked, assign_all, unpack_objects-assign_all}
use ae_proxy.Msgpack.{unpack_objects}
use ae_proxy.UdpProxy.{c_str, to_ushort}
use ae_proxy.TcpConnection.{write}
use ae_proxy.TcpClient.{connect_success}
use ae_proxy.TcpServer.{accepted, get_connection}
use ae_proxy.TcpProxy.{TcpProxy, Request, assign, no_fields, on_proxy_message, on_connect_status}
use ae_proxy.TcpProxy.Binding.{on_proxy_message-on_connect_status}
use ae_proxy.Tests.Proxies.{byte_unpacker, byte_unpacker-Advances, host}

abbrev pub peer : List ℕ
peer = 112 ∷ []

abbrev proxy : TcpProxy
proxy = record {
  sessions = [];
  server = record {
    connections = (peer, accepted peer) ∷ [];
    on_message_set = true;
    on_connect_close_set = false;
    on_new_connect_set = false;
    announced = [];
    notified = [];
  };
}

-- The command 0, the ip "h", the port 80 and the message "m".
abbrev pub request : List ℕ
request = 0 ∷ 232 ∷ 80 ∷ 237 ∷ []

request-Yields :
    Yields byte_unpacker request
      (byte_unpacker request 0)
      (integer 0 ∷ str host ∷ integer 80 ∷ str (109 ∷ []) ∷ [])
unfolding Yields
request-Yields = (1, refl, (2, refl, (3, refl, (4, refl, refl))))

proxy_peer : get_connection peer proxy.server ≡ some (accepted peer)
unfolding get_connection lookup same_text
proxy_peer = refl

on_proxy_message-on_connect_status_example :
    (r : Request) × (p : TcpProxy) × (on_proxy_message byte_unpacker peer request
      ≡ some (if is_zero (to_int 0) then r ∷ [] else []))
    × (r.connects_to ≡ new_addr (c_str host) (to_ushort (to_int 80)) ipv4)
    × ((r.agent.server_address ≡ addr_to_string r.connects_to)
        ↔ (to_int 80 ≡ ℤ.pos (to_ushort (to_int 80))))
    × (on_connect_status connect_success peer r.agent.server_address r.message (ℤ.pos 0) proxy
        ≡ some (p, (write (accepted peer) (ℤ.pos 0) (109 ∷ []) false).1))
    × (lookup peer p.sessions ≡ some (c_str host ++ (b':' ∷ to_string (to_int 80))))
on_proxy_message-on_connect_status_example =
    on_proxy_message-on_connect_status byte_unpacker request peer 0 host 80 (109 ∷ []) [] proxy
      (accepted peer) (ℤ.pos 0) byte_unpacker-Advances request-Yields proxy_peer

unpack_objects-assign_all_example :
    unpack_objects assign byte_unpacker request no_fields
    ≡ as_unpacked
        (assign_all assign 0 (integer 0 ∷ str host ∷ integer 80 ∷ str (109 ∷ []) ∷ []) no_fields)
unpack_objects-assign_all_example =
    unpack_objects-assign_all assign byte_unpacker request
      (integer 0 ∷ str host ∷ integer 80 ∷ str (109 ∷ []) ∷ []) no_fields byte_unpacker-Advances
      request-Yields
