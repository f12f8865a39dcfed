-- ===== src/Tests/Relays.antt =====
-- A TCP proxy with one client, from its connection until everything has ended.
use ae_proxy.Base.{◌≡◌, refl, true, false, List, [], ◌∷◌, some, ℤ, lookup, same_text, update, erase}
use mathlib.Core.Option.{bind}
use ae_proxy.SocketAddr.Decimal.{to_string, digits}
use ae_proxy.Msgpack.{unpack_objects, unpack_loop}
use ae_proxy.UdpProxy.{c_str}
use ae_proxy.TcpConnection.{closed, close, write}
use ae_proxy.TcpClient.{
  new_client, client_connection, calls_on_close, on_connect, on_connect_close, client_finishes,
}
use ae_proxy.TcpServer.{accepts, ends, finishes, step, get_connection, close_connection}
use ae_proxy.TcpProxy.{
  on_proxy_message, on_connect_status, set_session, connect_real_server, unpack,
}
use ae_proxy.TcpProxy.Running.{
  Running, ProxyEvent, client_message, agent_connected, agent_ends, agent_finishes, server_event,
  proxy_run, proxy_step, report_all, report_status, statuses_of, detach,
}
use ae_proxy.TcpProxy.Running.Links.{Extends}
use ae_proxy.TcpProxy.Running.Sessions.{Remembers}
use ae_proxy.TcpProxy.Running.Kept.{IsLinked, proxy_run-IsLinked}
use ae_proxy.Tests.Proxies.{byte_unpacker}
use ae_proxy.Tests.Bindings.{peer, request}

abbrev idle : Running
idle = record {
  proxy = record {
    sessions = [];
    server = record {
      connections = [];
      on_message_set = true;
      on_connect_close_set = false;
      on_new_connect_set = false;
      announced = [];
      notified = [];
    };
  };
  links = [];
}

-- The client binds, the real server answers, and then the client and the agent's connection end.
abbrev visit : List ProxyEvent
visit =
    server_event (accepts peer)
    ∷ client_message peer request
    ∷ agent_connected 0 true (104 ∷ []) (ℤ.pos 0)
    ∷ server_event (ends peer)
    ∷ server_event (finishes peer)
    ∷ agent_ends 0
    ∷ agent_finishes 0
    ∷ []

-- Both connections have gone; the session and the agent are left.
abbrev after_visit : Running
after_visit = record {
  proxy = record {
    sessions = (peer, 104 ∷ 58 ∷ 56 ∷ 48 ∷ []) ∷ [];
    server = record {
      connections = [];
      on_message_set = true;
      on_connect_close_set = false;
      on_new_connect_set = false;
      announced = [];
      notified = [];
    };
  };
  links =
      record {
        name = peer;
        request = connect_real_server peer (104 ∷ []) (ℤ.pos 80) (109 ∷ []);
        client = record (new_client true) {
          connection = some (record (client_connection (104 ∷ [])) {
            handle = closed;
            reading = false;
            on_message_set = false;
            on_connect_close_set = false;
            close_complete_set = true;
          });
          close_callback = calls_on_close;
        };
        detached = true;
      }
      ∷ [];
}

visited : proxy_run byte_unpacker idle visit ≡ some after_visit
unfolding proxy_run proxy_step bind step get_connection lookup same_text on_proxy_message unpack
    unpack_objects unpack_loop connect_real_server c_str on_connect report_all report_status
    on_connect_status set_session erase write update close detach on_connect_close statuses_of
    client_finishes to_string digits close_connection
visited = refl

proxy_run-IsLinked_example :
    IsLinked after_visit
    × Remembers idle.proxy after_visit.proxy
    × Extends idle.links after_visit.links
proxy_run-IsLinked_example = proxy_run-IsLinked byte_unpacker idle after_visit visit _ visited
