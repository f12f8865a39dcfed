-- ===== src/TcpProxy/Running/Sessions.antt =====
-- The table of sessions of app/tcp_proxy.cpp, through its runs.
use ae_proxy.Base.{
  ℕ, ◌≡◌, ◌≢◌, ◌⊎◌, inl, inr, refl, ap, sym, ◌∙◌, subst, Bool, true, false, List, [], ◌∷◌, Option,
  none, some, ℤ, lookup, erase, same_text, lookup-erase_ne, All-erase, different_text, Bool-cases,
  All,
}
use mathlib.Core.Option.{bind, bind-eq-some_iff, some-injective, none-ne-some}
use ae_proxy.TcpClient.{ConnectStatus, connect_success, connect_fail, connect_close}
use ae_proxy.TcpServer.{TcpServer, get_connection}
use ae_proxy.TcpProxy.{TcpProxy, set_session, drop_client, with_server, on_connect_status}
use ae_proxy.TcpProxy.Running.{Link, report_status, report_all}
use ae_proxy.TcpProxy.Running.Links.{HasAgent}

-- No client of the first table is missing in the second.
abbrev pub Remembers : TcpProxy → TcpProxy → Type 0
Remembers p q = (name : List ℕ) → lookup name p.sessions ≢ none → lookup name q.sessions ≢ none

-- What a status does to the table.
abbrev Follows : ConnectStatus → Link → TcpProxy → TcpProxy → Type 0
Follows status l p q =
    (q.sessions ≡ p.sessions)
    ⊎ ((status ≡ connect_success)
        × (q.sessions ≡ (l.name, l.request.agent.server_address) ∷ erase l.name p.sessions))

with_server-sessions :
    (o : Option TcpServer) (p q : TcpProxy)
    → bind (with_server p o) (λ (p', effects). some p') ≡ some q
    → q.sessions ≡ p.sessions
unfolding bind
with_server-sessions none p q h = absurd (none-ne-some q h)
with_server-sessions (some s) p q h = sym (ap (λ r. r.sessions) (some-injective _ q h))

report_status-Follows :
    (left : Bool) (status : ConnectStatus) (l : Link) (rst : ℤ) (p q : TcpProxy)
    → report_status left status l rst p ≡ some q
    → Follows status l p q
unfolding report_status on_connect_status set_session bind
report_status-Follows true connect_success l rst p q h =
    inr (refl, sym (ap (λ r. r.sessions) (some-injective _ q h)))
report_status-Follows true connect_fail l rst p q h =
    inl (sym (ap (λ r. r.sessions) (some-injective p q h)))
report_status-Follows true connect_close l rst p q h =
    inl (sym (ap (λ r. r.sessions) (some-injective p q h)))
report_status-Follows false connect_success l rst p q h =
    inr (refl, sym (ap (λ r. r.sessions) (some-injective _ q h)))
report_status-Follows false connect_fail l rst p q h =
    inl (with_server-sessions (drop_client (get_connection l.name p.server) l.name p) p q h)
report_status-Follows false connect_close l rst p q h =
    inl (with_server-sessions (drop_client (get_connection l.name p.server) l.name p) p q h)

Remembers-set :
    (key target : List ℕ) (p q : TcpProxy)
    → q.sessions ≡ (key, target) ∷ erase key p.sessions
    → Remembers p q
unfolding lookup
Remembers-set key target p q e name h gone =
    let gone' : lookup name ((key, target) ∷ erase key p.sessions) ≡ none =
      ap (lookup name) (sym e) ∙ gone in
    elim (Bool-cases (same_text name key)) [
      | inl same ↦ none-ne-some target (sym (rw same at gone'))
      | inr apart ↦ h (
          sym (lookup-erase_ne name key p.sessions (different_text name key apart))
          ∙ (rw apart at gone'))
    ]

-- The table after some statuses, where a success is that of an agent with a connection.
module _ (links : List Link) (l : Link) (rst : ℤ) where
  abbrev IsKept : TcpProxy → TcpProxy → Type 0
  IsKept p q = All (HasAgent links) q.sessions × Remembers p q

  status-IsKept :
      (status : ConnectStatus) (p q : TcpProxy)
      → (status ≡ connect_success → HasAgent links (l.name, l.request.agent.server_address))
      → All (HasAgent links) p.sessions
      → Follows status l p q
      → IsKept p q
  status-IsKept status p q owner hs (inl e) =
      (subst (All (HasAgent links)) (sym e) hs, λ name h gone. h (ap (lookup name) (sym e) ∙ gone))
  status-IsKept status p q owner hs (inr (ok, e)) = (
    subst (All (HasAgent links)) (sym e)
        (owner ok, All-erase (HasAgent links) l.name p.sessions hs),
    Remembers-set l.name l.request.agent.server_address p q e,
  )

  pub report_all-IsKept :
      (statuses : List ConnectStatus) (p q : TcpProxy)
      → All
          (λ status.
            status ≡ connect_success → HasAgent links (l.name, l.request.agent.server_address))
          statuses
      → All (HasAgent links) p.sessions
      → report_all statuses l rst p ≡ some q
      → IsKept p q
  unfolding report_all
  report_all-IsKept [] p q owners hs h =
      let same = ap (λ r. r.sessions) (some-injective p q h) in
      (subst (All (HasAgent links)) same hs, λ name k gone. k (ap (lookup name) same ∙ gone))
  report_all-IsKept (status ∷ statuses) p q (owner, owners) hs h =
      let (p1, e, later) = (bind-eq-some_iff (report_status l.detached status l rst p) _).0 h in
      let (hs1, r1) =
        status-IsKept status p p1 owner hs (report_status-Follows l.detached status l rst p p1 e) in
      let (hs2, r2) = report_all-IsKept statuses p1 q owners hs1 later in
      (hs2, λ name k. r2 name (r1 name k))
