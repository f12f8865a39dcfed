-- ===== src/TcpServer/Timed/Silence.antt =====
-- What silence leaves of a server of ae/tcp_server.cpp.
use ae_proxy.Base.{
  ℕ, zero, suc, ◌<◌, ◌^◌, ◌≡◌, inl, inr, refl, sym, ◌∙◌, false, List, ◌∷◌, some, arith,
}
use mathlib.Core.Bool.{true≢false}
use ae_proxy.TcpConnection.{TcpConnection, closing}
use ae_proxy.TcpServer.{get_connection}
use ae_proxy.TcpServer.Table.{lookup-AreAlive}
use ae_proxy.TcpServer.Timed.{TimedServer, Happening, times}
use ae_proxy.TcpServer.Timed.Heard.{heard}
use ae_proxy.TcpServer.Timed.Idle.{Serves, Serves-Watched, happen-Serves, get_connection-heard}

-- So many ticks in a row, after a history.
abbrev pub silent : ℕ → List Happening → List Happening
silent zero hs = hs
silent (suc k) hs = times ∷ silent k hs

heard-silent :
    (name : List ℕ) (k age : ℕ) (hs : List Happening)
    → age < k
    → heard name age (silent k hs) ≡ false
unfolding heard
heard-silent name zero age hs h = absurd (omega arith)
heard-silent name (suc k) zero hs h = refl
heard-silent name (suc k) (suc age) hs h = heard-silent name k age hs (omega arith)

module _ (n : ℕ) (positive : 0 < n) (signed : n < 2 ^ 31) (hs : List Happening) (s : TimedServer)
    (serves : Serves n hs s) where
  ticks-Serves : (k : ℕ) → (t : TimedServer) × Serves n (silent k hs) t
  ticks-Serves zero = (s, serves)
  ticks-Serves (suc k) =
      let (t, before) = ticks-Serves k in
      let (t', happens, after) = happen-Serves n positive signed (silent k hs) t times before _ in
      (t', after)

  -- After any history of a server that listens with a timeout of n seconds, n positive and below 2^31,
  -- in which each new connection had a name of its own and the program closed no connection that was
  -- closing already, n ticks in a row are defined, and leave no connection but those that are closing.
  pub Serves-silent :
      (t : TimedServer) × Serves n (silent n hs) t
      × ((name : List ℕ) (c : TcpConnection)
          → get_connection name t.server ≡ some c
          → c.handle ≡ closing)
  unfolding get_connection
  Serves-silent =
      let (t, after) = ticks-Serves n in
      let w = Serves-Watched n positive signed (silent n hs) t after in
      (
        t,
        after,
        λ name c e. elim (lookup-AreAlive name t.server.connections c w.alive e) [
          | inr (shut, k, l) ↦ shut
          | inl (is_open, k) ↦
              let (age, below, h) =
                get_connection-heard n positive signed (silent n hs) t name c after e is_open in
              absurd (true≢false (sym h ∙ heard-silent name n age hs below))
        ],
      )
