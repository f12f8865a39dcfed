-- ===== src/UdpProxy/Session.antt =====
-- The sessions of app/udp_proxy.cpp and their agents.
use ae_proxy.Base.{same_text_self, ℕ, ◌≡◌, inl, inr, refl, List, ℤ, All, Option-cases}
use ae_proxy.SocketAddr.{SocketAddr}
use ae_proxy.SocketAddr.Text.{Lacks}
use ae_proxy.UdpProxy.{UdpAgent, new_agent, Sessions, find, session_key, get_agent}

-- The session of a key: the agent between the client and the server that the key names.
pub record IsSession (key : List ℕ) (agent : UdpAgent) : Type 0 where
  pub cip : List ℕ
  pub cport : ℤ
  pub sip : List ℕ
  pub sport : ℤ
  pub plain : Lacks b':' cip
  pub named : key ≡ session_key cip cport sip sport
  pub made : agent ≡ new_agent cip cport sip sport

unfoldable pub AreSessions : Sessions → Type 0
AreSessions sessions = All (λ entry. IsSession entry.0 entry.1) sessions

-- A second datagram of the same client to the same server finds the agent of the first, and makes no
-- session.
get_agent-again :
    (cip : List ℕ) (cport : ℤ) (sip : List ℕ) (sport : ℤ) (sessions : Sessions)
    → get_agent cip cport sip sport (get_agent cip cport sip sport sessions).0
      ≡ get_agent cip cport sip sport sessions
unfolding get_agent find
get_agent-again cip cport sip sport sessions =
    elim (Option-cases (find (session_key cip cport sip sport) sessions)) [
      | inl e ↦ rw e (rw (same_text_self (session_key cip cport sip sport)) refl)
      | inr (agent, e) ↦ rw e (rw e refl)
    ]
