-- ===== src/TcpProxy.antt =====
-- app/tcp_proxy.cpp and app/tcp_agent.cpp: a client's message names a real server, which an agent
-- connects to; and what the proxy does when that connection reports its status. What is undefined in
-- C++ is `undefined` or `none`.
pub mod Failing
pub mod Running
pub mod Binding
use ae_proxy.Base.{
  ℕ, zero, suc, ◌++◌, Bool, true, false, List, [], ◌∷◌, Option, none, some, ℤ, lookup, erase,
  is_zero, if◌then◌else◌,
}
use mathlib.Core.Option.{bind}
use ae_proxy.SocketAddr.{SocketAddr, new_addr, ipv4}
use ae_proxy.SocketAddr.Decimal.{to_string}
use ae_proxy.Msgpack.{
  Object, str, integer, other, to_int, Unpacker, Unpacked, decoded, undefined, out_of_fuel,
  unpack_objects,
}
use ae_proxy.UdpProxy.{c_str, to_ushort}
use ae_proxy.TcpConnection.{TcpConnection, Effect, write, close}
use ae_proxy.TcpClient.{ConnectStatus, connect_success, connect_fail, connect_close}
use ae_proxy.TcpServer.{TcpServer, get_connection, settle}

pub record TcpProxy : Type 0 where
  pub sessions : List (List ℕ × List ℕ)  -- the server of the agent of each client, `session_`
  pub server : TcpServer

-- `session_[name] = agent`
unfoldable pub set_session : List ℕ → List ℕ → TcpProxy → TcpProxy
set_session client target p = record p { sessions = (client, target) ∷ erase client p.sessions }

-- The client's connection after its `close(nullptr)`.
abbrev pub drop_client : Option TcpConnection → List ℕ → TcpProxy → Option TcpServer
drop_client none client p = some p.server
drop_client (some c) client p = settle client (close c false) p.server

abbrev pub with_server : TcpProxy → Option TcpServer → Option (TcpProxy × List Effect)
with_server p none = none
with_server p (some s) = some (record p { server = s }, [])

-- `client_conn_ptr->write(message.c_str(), message.size(), nullptr)`
abbrev pub client_writes : Option TcpConnection → ℤ → List ℕ → List Effect
client_writes none rst message = []
client_writes (some c) rst message = (write c rst message false).1

-- The callback that `connect_real_server` gives to the agent, for a client that the server has, and
-- the effects on that client's connection. `rst` is what `uv_write` returns.
unfoldable pub on_connect_status :
    ConnectStatus → List ℕ → List ℕ → List ℕ → ℤ → TcpProxy → Option (TcpProxy × List Effect)
on_connect_status connect_success client target message rst p =
    some (set_session client target p, client_writes (get_connection client p.server) rst message)
on_connect_status connect_fail client target message rst p =
    with_server p (drop_client (get_connection client p.server) client p)
on_connect_status connect_close client target message rst p =
    with_server p (drop_client (get_connection client p.server) client p)

-- The locals of `unpack`; the numbers are not initialised.
pub record Fields : Type 0 where
  pub command : Option ℤ
  pub ip : List ℕ
  pub port : Option ℤ
  pub message : List ℕ

abbrev pub no_fields : Fields
no_fields = record { command = none; ip = []; port = none; message = [] }

-- The `switch`, which reads a member of the union without asking for the object's type.
abbrev pub assign : ℕ → Object → Fields → Option Fields
assign zero (integer bits) f = some (record f { command = some (to_int bits) })
assign zero (str s) f = none
assign zero other f = none
assign (suc zero) (str s) f = some (record f { ip = s })
assign (suc zero) (integer bits) f = none
assign (suc zero) other f = none
assign (suc (suc zero)) (integer bits) f = some (record f { port = some (to_int bits) })
assign (suc (suc zero)) (str s) f = none
assign (suc (suc zero)) other f = none
assign (suc (suc (suc zero))) (str s) f = some (record f { message = s })
assign (suc (suc (suc zero))) (integer bits) f = none
assign (suc (suc (suc zero))) other f = none
assign (suc (suc (suc (suc i)))) o f = some f

unfoldable pub unpack : Unpacker → List ℕ → Unpacked Fields
unfolding unpack_objects
unpack next buffer = unpack_objects assign next buffer no_fields

pub record TcpAgent : Type 0 where
  pub server : SocketAddr  -- `sa_`
  pub client_address : List ℕ
  pub server_address : List ℕ

abbrev pub new_tcp_agent : List ℕ → List ℕ → ℤ → TcpAgent
new_tcp_agent client sip sport = record {
  server = new_addr sip (to_ushort sport) ipv4;
  client_address = client;
  server_address = sip ++ (b':' ∷ to_string sport);
}

-- An agent that connects, the address that it is given, and the message that its callback keeps.
pub record Request : Type 0 where
  pub agent : TcpAgent
  pub connects_to : SocketAddr  -- `real_server_addr`
  pub message : List ℕ

unfoldable pub connect_real_server : List ℕ → List ℕ → ℤ → List ℕ → Request
connect_real_server client ip port message = record {
  agent = new_tcp_agent (c_str client) (c_str ip) port;
  connects_to = new_addr (c_str ip) (to_ushort port) ipv4;
  message = message;
}

-- Both numbers are read for the debug message; only the command 0x00 is served.
abbrev pub handle_fields : List ℕ → Fields → Option (List Request)
handle_fields client f = bind f.command (λ command. bind f.port (λ port.
    some (if is_zero command then connect_real_server client f.ip port f.message ∷ [] else [])))

abbrev pub handle_unpacked : List ℕ → Unpacked Fields → Option (List Request)
handle_unpacked client (decoded f) = handle_fields client f
handle_unpacked client undefined = none
handle_unpacked client out_of_fuel = none

-- The callback that `start` gives to the server, for a client's name.
unfoldable pub on_proxy_message : Unpacker → List ℕ → List ℕ → Option (List Request)
unfolding connect_real_server
on_proxy_message next client buf = handle_unpacked client (unpack next buf)
