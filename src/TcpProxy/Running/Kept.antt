-- ===== src/TcpProxy/Running/Kept.antt =====
-- Runs of app/tcp_proxy.cpp, with the table of sessions and the agents.
use ae_proxy.Base.{
  ℕ, zero, suc, ◌≡◌, ◌≢◌, inl, inr, refl, subst, List, [], ◌∷◌, ◌++◌, map, Option, none, some, ℤ,
  get_elem?, set, Bool-cases, All,
}
use mathlib.Core.Option.{bind-eq-some_iff, some-injective, none-ne-some}
use ae_proxy.Msgpack.{Unpacker}
use ae_proxy.TcpConnection.{TcpConnection}
use ae_proxy.TcpClient.{TcpClient, ConnectStatus, connect_success}
use ae_proxy.TcpServer.{TcpServer, get_connection, step}
use ae_proxy.TcpProxy.{on_proxy_message}
use ae_proxy.TcpProxy.Running.{
  Link, Running, new_link, report_all, ProxyEvent, client_message, agent_connected, agent_failed,
  agent_ends, agent_finishes, server_event, settle_link, at_link, message_to, detach, proxy_step,
  proxy_run,
}
use ae_proxy.TcpProxy.Running.Links.{
  Extends, Extends-same, Extends-trans, Extends-append, Extends-set, Extends-detach, HasAgent,
  HasAgent-Extends,
}
use ae_proxy.TcpProxy.Running.Honest.{
  IsHonest, on_connect-IsHonest, after_connect_fail-IsHonest, after_close-IsHonest,
  client_finishes-IsHonest,
}
use ae_proxy.TcpProxy.Running.Sessions.{Remembers, report_all-IsKept}

-- Each session is that of an agent whose connection to the session's server succeeded.
abbrev pub IsLinked : Running → Type 0
IsLinked r = All (HasAgent r.links) r.proxy.sessions

abbrev pub Grows : Running → Running → Type 0
Grows r r' = IsLinked r' × Remembers r.proxy r'.proxy × Extends r.links r'.links

get_elem?-set :
    (links : List Link) (i : ℕ) (l l' : Link)
    → get_elem? links i ≡ some l
    → get_elem? (set links i l') i ≡ some l'
get_elem?-set [] i l l' e = absurd (none-ne-some l e)
get_elem?-set (x ∷ links) zero l l' e = refl
get_elem?-set (x ∷ links) (suc i) l l' e = get_elem?-set links i l l' e

owners :
    (links : List Link) (i : ℕ) (l : Link) (c : TcpClient) (statuses : List ConnectStatus)
    → get_elem? links i ≡ some (record l { client = c })
    → All (λ status. status ≡ connect_success → c.connection ≢ none) statuses
    → All
        (λ status.
          status ≡ connect_success → HasAgent links (l.name, l.request.agent.server_address))
        statuses
unfolding HasAgent
owners links i l c [] e hs = _
owners links i l c (status ∷ statuses) e (h, hs) =
    (λ ok. (i, record l { client = c }, e, refl, refl, h ok), owners links i l c statuses e hs)

settle_link-Grows :
    (i : ℕ) (l : Link) (rst : ℤ) (c : TcpClient) (statuses : List ConnectStatus) (r r' : Running)
    → get_elem? r.links i ≡ some l
    → IsHonest l.client (c, statuses)
    → IsLinked r
    → settle_link i l rst (c, statuses) r ≡ some r'
    → Grows r r'
settle_link-Grows i l rst c statuses r r' found (kept, honest) linked h =
    let l' = record l { client = c } in
    let links' = set r.links i l' in
    let ext = Extends-set r.links i l l' found (refl, refl, kept) in
    let (q, e, result) = (bind-eq-some_iff (report_all statuses l rst r.proxy) _).0 h in
    let (hs, remembers) =
      report_all-IsKept links' l rst statuses r.proxy q
        (owners links' i l c statuses (get_elem?-set r.links i l l' found) honest)
        (HasAgent-Extends r.links links' r.proxy.sessions ext linked) e in
    subst (Grows r) (some-injective (record { proxy = q; links = links' }) r' result)
      (hs, remembers, ext)

at_link-Grows :
    (o : Option Link) (i : ℕ) (rst : ℤ) (happens : TcpClient → TcpClient × List ConnectStatus)
    (r r' : Running)
    → get_elem? r.links i ≡ o
    → ((c : TcpClient) → IsHonest c (happens c))
    → IsLinked r
    → at_link o i rst happens r ≡ some r'
    → Grows r r'
at_link-Grows none i rst happens r r' found honest linked h =
    subst (Grows r) (some-injective r r' h) (linked, (λ name k. k), Extends-same r.links)
at_link-Grows (some l) i rst happens r r' found honest linked h =
    settle_link-Grows i l rst (happens l.client).0 (happens l.client).1 r r' found (honest l.client)
      linked h

-- More agents, or the same.
more-Grows :
    (r : Running) (more : List Link) → IsLinked r → Grows r (record r { links = r.links ++ more })
more-Grows r more linked =
    let ext = Extends-append r.links more in
    (HasAgent-Extends r.links (r.links ++ more) r.proxy.sessions ext linked, (λ name k. k), ext)

message_to-Grows :
    (o : Option TcpConnection) (next : Unpacker) (name buf : List ℕ) (r r' : Running)
    → IsLinked r
    → message_to o next name buf r ≡ some r'
    → Grows r r'
message_to-Grows none next name buf r r' linked h =
    subst (Grows r) (some-injective r r' h) (linked, (λ key k. k), Extends-same r.links)
message_to-Grows (some c) next name buf r r' linked h = elim (Bool-cases c.on_message_set) [
  | inr unset ↦
      subst (Grows r) (some-injective r r' (rw unset at h))
        (linked, (λ key k. k), Extends-same r.links)
  | inl calls ↦
      let (requests, e, result) =
        (bind-eq-some_iff (on_proxy_message next name buf) _).0 (rw calls at h) in
      subst (Grows r) (some-injective _ r' result)
        (more-Grows r (map (new_link name) requests) linked)
]

detach-Grows :
    (r : Running) (s : TcpServer)
    → IsLinked r
    → Grows r (record { proxy = record r.proxy { server = s }; links = detach s r.links })
detach-Grows r s linked =
    let ext = Extends-detach s r.links in
    (HasAgent-Extends r.links (detach s r.links) r.proxy.sessions ext linked, (λ name k. k), ext)

proxy_step-Grows :
    (next : Unpacker) (r r' : Running) (e : ProxyEvent)
    → IsLinked r
    → proxy_step next r e ≡ some r'
    → Grows r r'
unfolding proxy_step
proxy_step-Grows next r r' (client_message name buf) linked h =
    message_to-Grows (get_connection name r.proxy.server) next name buf r r' linked h
proxy_step-Grows next r r' (agent_connected i ok name rst) linked h =
    at_link-Grows (get_elem? r.links i) i rst _ r r' refl (on_connect-IsHonest ok name) linked h
proxy_step-Grows next r r' (agent_failed i) linked h =
    at_link-Grows (get_elem? r.links i) i _ _ r r' refl after_connect_fail-IsHonest linked h
proxy_step-Grows next r r' (agent_ends i) linked h =
    at_link-Grows (get_elem? r.links i) i _ _ r r' refl after_close-IsHonest linked h
proxy_step-Grows next r r' (agent_finishes i) linked h =
    at_link-Grows (get_elem? r.links i) i _ _ r r' refl client_finishes-IsHonest linked h
proxy_step-Grows next r r' (server_event e) linked h =
    let (s, e', result) = (bind-eq-some_iff (step r.proxy.server e) _).0 h in
    subst (Grows r) (some-injective _ r' result) (detach-Grows r s linked)

-- In any run of the proxy, from one in which it holds: each session of the table is that of an agent
-- made for the session's client whose connection to the session's server succeeded. And whatever
-- ends, nothing is forgotten: a client that has a session has one for ever, and each agent stays,
-- for the client and with the request it was made for.
pub proxy_run-IsLinked :
    (next : Unpacker) (r r' : Running) (events : List ProxyEvent)
    → IsLinked r
    → proxy_run next r events ≡ some r'
    → IsLinked r' × Remembers r.proxy r'.proxy × Extends r.links r'.links
unfolding proxy_run
proxy_run-IsLinked next r r' [] linked h =
    subst (Grows r) (some-injective r r' h) (linked, (λ name k. k), Extends-same r.links)
proxy_run-IsLinked next r r' (e ∷ events) linked h =
    let (r1, happens, later) = (bind-eq-some_iff (proxy_step next r e) _).0 h in
    let (linked1, remembers1, extends1) = proxy_step-Grows next r r1 e linked happens in
    let (linked2, remembers2, extends2) = proxy_run-IsLinked next r1 r' events linked1 later in
    (
      linked2,
      (λ name k. remembers2 name (remembers1 name k)),
      Extends-trans r.links r1.links r'.links extends1 extends2,
    )
