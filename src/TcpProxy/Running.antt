-- ===== src/TcpProxy/Running.antt =====
-- app/tcp_proxy.cpp as it runs: the server, the table of sessions and the agents, each of which keeps
-- the client's connection in its callback. What libuv and the clients do is a sequence of events.
pub mod Links
pub mod Honest
pub mod Sessions
pub mod Kept
use ae_proxy.Base.{
  ℕ, ◌++◌, Bool, true, false, List, [], ◌∷◌, map, Option, none, some, ℤ, get_elem?, set,
  if◌then◌else◌,
}
use mathlib.Core.Option.{bind}
use ae_proxy.Msgpack.{Unpacker}
use ae_proxy.TcpConnection.{TcpConnection}
use ae_proxy.TcpClient.{
  TcpClient, ConnectStatus, connect_success, connect_fail, connect_close, new_client, connect,
  on_connect, after_connect_fail, on_connect_close, client_finishes, after_effects, Report,
  reports_status, calls_close, passes_message,
}
use ae_proxy.TcpServer.{TcpServer, get_connection, Event, step}
use ae_proxy.TcpProxy.{TcpProxy, Request, set_session, on_connect_status, on_proxy_message}

-- An agent, with the name of the client whose connection its callback keeps, and whether that
-- connection has left the server: a later one may have its name.
pub record Link : Type 0 where
  pub name : List ℕ
  pub request : Request
  pub client : TcpClient
  pub detached : Bool

pub record Running : Type 0 where
  pub proxy : TcpProxy
  pub links : List Link

-- `connect_real_server` makes the agent, which connects.
abbrev pub new_link : List ℕ → Request → Link
new_link name r = record {
  name = name;
  request = r;
  client = connect (new_client true);
  detached = false;
}

-- The callback of the agent. The connection of a client that has left is closed already, without
-- callbacks.
abbrev pub status_of_left : ConnectStatus → Link → TcpProxy → TcpProxy
status_of_left connect_success l p = set_session l.name l.request.agent.server_address p
status_of_left connect_fail l p = p
status_of_left connect_close l p = p

unfoldable pub report_status : Bool → ConnectStatus → Link → ℤ → TcpProxy → Option TcpProxy
report_status true status l rst p = some (status_of_left status l p)
report_status false status l rst p =
    bind (on_connect_status status l.name l.request.agent.server_address l.request.message rst p)
      (λ (p', effects). some p')

unfoldable pub report_all : List ConnectStatus → Link → ℤ → TcpProxy → Option TcpProxy
report_all [] l rst p = some p
report_all (status ∷ statuses) l rst p =
    bind (report_status l.detached status l rst p) (λ p'. report_all statuses l rst p')

-- The statuses among what a client reports.
unfoldable pub statuses_of : List Report → List ConnectStatus
statuses_of [] = []
statuses_of (reports_status status ∷ reports) = status ∷ statuses_of reports
statuses_of (calls_close ∷ reports) = statuses_of reports
statuses_of (passes_message buf ∷ reports) = statuses_of reports

pub data ProxyEvent : Type 0 where
  client_message : List ℕ → List ℕ → ProxyEvent
  agent_connected : ℕ → Bool → List ℕ → ℤ → ProxyEvent  -- what libuv answers, and the later write
  agent_failed : ℕ → ProxyEvent  -- libuv has closed the socket of a connect that failed
  agent_ends : ℕ → ProxyEvent  -- the real server's connection ends
  agent_finishes : ℕ → ProxyEvent  -- libuv has closed its handle
  server_event : Event → ProxyEvent

-- The client after the event, and the statuses that it reports.
abbrev pub of_reports : TcpClient × List Report → TcpClient × List ConnectStatus
of_reports (c, reports) = (c, statuses_of reports)

abbrev pub after_close : TcpClient → TcpClient × List ConnectStatus
after_close c = let (c', effects) = on_connect_close c in of_reports (after_effects c' effects)

abbrev pub settle_link : ℕ → Link → ℤ → TcpClient × List ConnectStatus → Running → Option Running
settle_link i l rst (client, statuses) r =
    bind (report_all statuses l rst r.proxy)
      (λ p. some (record { proxy = p; links = set r.links i (record l { client = client }) }))

abbrev pub at_link :
    Option Link → ℕ → ℤ → (TcpClient → TcpClient × List ConnectStatus) → Running → Option Running
at_link none i rst happens r = some r
at_link (some l) i rst happens r = settle_link i l rst (happens l.client) r

-- The callback that `start` gives to the server.
abbrev pub message_to : Option TcpConnection → Unpacker → List ℕ → List ℕ → Running → Option Running
message_to none next name buf r = some r
message_to (some c) next name buf r =
    if c.on_message_set
    then bind (on_proxy_message next name buf)
        (λ requests. some (record r { links = r.links ++ map (new_link name) requests }))
    else some r

-- The links to clients that are not in the server's map.
abbrev pub has_left : Option TcpConnection → Bool
has_left none = true
has_left (some c) = false

unfoldable pub detach : TcpServer → List Link → List Link
detach s [] = []
detach s (l ∷ links) =
    (if has_left (get_connection l.name s) then record l { detached = true } else l)
    ∷ detach s links

unfoldable pub proxy_step : Unpacker → Running → ProxyEvent → Option Running
proxy_step next r (client_message name buf) =
    message_to (get_connection name r.proxy.server) next name buf r
proxy_step next r (agent_connected i ok name rst) =
    at_link (get_elem? r.links i) i rst (on_connect ok name) r
proxy_step next r (agent_failed i) =
    at_link (get_elem? r.links i) i (ℤ.pos 0) (λ c. (c, after_connect_fail c)) r
proxy_step next r (agent_ends i) = at_link (get_elem? r.links i) i (ℤ.pos 0) after_close r
proxy_step next r (agent_finishes i) =
    at_link (get_elem? r.links i) i (ℤ.pos 0) (λ c. of_reports (client_finishes c)) r
proxy_step next r (server_event e) =
    bind (step r.proxy.server e)
      (λ s. some (record { proxy = record r.proxy { server = s }; links = detach s r.links }))

unfoldable pub proxy_run : Unpacker → Running → List ProxyEvent → Option Running
proxy_run next r [] = some r
proxy_run next r (e ∷ events) = bind (proxy_step next r e) (λ r'. proxy_run next r' events)
