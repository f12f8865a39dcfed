-- ===== src/UdpProxy.antt =====
-- app/udp_proxy.cpp, app/udp_agent.cpp and the sending half of ae/udp_socket.cpp: a datagram names a
-- server and carries a message; an agent per client and server forwards it, and sends the answers
-- back. What is undefined in C++ is `undefined` or `none`.
pub mod Unpacking
pub mod Key
pub mod Session
pub mod Running
use ae_proxy.Base.{
  same_text, ℕ, zero, suc, ◌+◌, ◌-◌, ◌%◌, ◌^◌, Bool, true, false, ◌&&◌, List, [], ◌∷◌, ◌++◌, Option,
  none, some, ℤ, ltb, ◌==◌, if◌then◌else◌, length,
}
use ae_proxy.Msgpack.{
  Object, str, integer, other, to_int, Unpacker, Unpacked, decoded, undefined, out_of_fuel,
  unpack_objects,
}
use ae_proxy.SocketAddr.{SocketAddr, Ipv, ipv4, new_addr}
use ae_proxy.SocketAddr.Decimal.{to_string}

-- An int as an unsigned short.
abbrev pub to_ushort : ℤ → ℕ
to_ushort (ℤ.pos n) = n % 2 ^ 16
to_ushort (ℤ.negsuc n) = 2 ^ 16 - 1 - n % 2 ^ 16

-- The locals of `unpack`; the port is not initialised.
pub record Fields : Type 0 where
  pub ip : List ℕ
  pub port : Option ℤ
  pub message : List ℕ

abbrev pub no_fields : Fields
no_fields = record { ip = []; port = none; message = [] }

-- The `switch`, which reads a member of the union without asking for the object's type.
abbrev pub assign : ℕ → Object → Fields → Option Fields
assign zero (str s) f = some (record f { ip = s })
assign zero (integer bits) f = none
assign zero other f = none
assign (suc zero) (integer bits) f = some (record f { port = some (to_int bits) })
assign (suc zero) (str s) f = none
assign (suc zero) other f = none
assign (suc (suc zero)) (str s) f = some (record f { message = s })
assign (suc (suc zero)) (integer bits) f = none
assign (suc (suc zero)) other f = none
assign (suc (suc (suc i))) o f = some f

unfoldable pub unpack : Unpacker → List ℕ → Unpacked Fields
unfolding unpack_objects
unpack next buffer = unpack_objects assign next buffer no_fields

pub record UdpAgent : Type 0 where
  pub client : SocketAddr  -- `ca_`
  pub server : SocketAddr  -- `sa_`

abbrev pub new_agent : List ℕ → ℤ → List ℕ → ℤ → UdpAgent
new_agent cip cport sip sport = record {
  client = new_addr cip (to_ushort cport) ipv4;
  server = new_addr sip (to_ushort sport) ipv4;
}

-- What a socket is asked to send.
pub record Sent : Type 0 where
  pub agent : UdpAgent
  pub to : SocketAddr
  pub payload : List ℕ

abbrev pub send_to_server : UdpAgent → List ℕ → Sent
send_to_server agent buf = record { agent = agent; to = agent.server; payload = buf }

abbrev pub send_to_client : UdpAgent → List ℕ → Sent
send_to_client agent buf = record { agent = agent; to = agent.client; payload = buf }

-- The `std::map` of sessions.
abbrev pub Sessions : Type 0
Sessions = List (List ℕ × UdpAgent)

-- The bytes up to the first NUL, which a `const char*` carries.
unfoldable pub c_str : List ℕ → List ℕ
c_str [] = []
c_str (x ∷ xs) = let rest = c_str xs in if x == 0 then [] else x ∷ rest

unfoldable pub find : List ℕ → Sessions → Option UdpAgent
find key [] = none
find key ((k, agent) ∷ rest) =
    let later = find key rest in if same_text key k then some agent else later

unfoldable pub session_key : List ℕ → ℤ → List ℕ → ℤ → List ℕ
session_key cip cport sip sport =
    cip ++ (b':' ∷ (to_string cport ++ (b'@' ∷ (sip ++ (b':' ∷ to_string sport)))))

-- `get_agent` with what its two lookups find.
abbrev pub agent_or_new : Option UdpAgent → List ℕ → ℤ → List ℕ → ℤ → Sessions → Sessions × UdpAgent
agent_or_new none cip cport sip sport sessions =
    let agent = new_agent cip cport sip sport in
    ((session_key cip cport sip sport, agent) ∷ sessions, agent)
agent_or_new (some agent) cip cport sip sport sessions = (sessions, agent)

unfoldable pub get_agent : List ℕ → ℤ → List ℕ → ℤ → Sessions → Sessions × UdpAgent
get_agent cip cport sip sport sessions =
    agent_or_new (find (session_key cip cport sip sport) sessions) cip cport sip sport sessions

-- `forward` once its port is read.
abbrev pub forward_to : Option ℤ → Fields → SocketAddr → Sessions → Option (Sessions × Sent)
forward_to none f from sessions = none
forward_to (some port) f from sessions =
    let (sessions', agent) =
      get_agent (c_str from.ip) (ℤ.pos from.port) (c_str f.ip) port sessions in
    some (sessions', send_to_server agent f.message)

-- `forward` after `unpack`.
abbrev pub forward_unpacked : Unpacked Fields → SocketAddr → Sessions → Option (Sessions × Sent)
forward_unpacked undefined from sessions = none
forward_unpacked out_of_fuel from sessions = none
forward_unpacked (decoded f) from sessions = forward_to f.port f from sessions

unfoldable pub forward : Unpacker → SocketAddr → List ℕ → Sessions → Option (Sessions × Sent)
forward next from buf sessions = forward_unpacked (unpack next buf) from sessions
