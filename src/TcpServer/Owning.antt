-- ===== src/TcpServer/Owning.antt =====
-- When the connections of ae/tcp_server.cpp are freed.
use ae_proxy.Base.{ℕ, ◌≡◌, ◌⊎◌, inl, refl, ap, ◌∙◌, List, [], ◌∷◌, none, some}
use mathlib.Core.Option.{bind}
use Prim.{Unit}
use ae_proxy.TcpConnection.{TcpConnection, opened}
use ae_proxy.TcpServer.{
  TcpServer, get_connection, close_connection, accept_new, close_each, Event, accepts, ends,
  finishes, closes, step,
}
use ae_proxy.TcpServer.Table.{AreAlive, lookup-update}
use ae_proxy.TcpServer.Narrowing.{ends-Narrows, finishes-Narrows, closes-Narrows}
use ae_proxy.TcpServer.Closing.{
  closed_down, after_close, close_connection-opened, close_connection-closing,
}

-- What may happen to a server: a connection comes with a name that no other one has, and the program
-- does not close a connection that is closing already.
abbrev pub Allowed : TcpServer → Event → Type 0
Allowed s (accepts name) = get_connection name s ≡ none
Allowed s (closes name) =
    (get_connection name s ≡ none)
    ⊎ ((c : TcpConnection) × (get_connection name s ≡ some c) × (c.handle ≡ opened))
Allowed s (ends name) = Unit
Allowed s (finishes name) = Unit

-- As long as a new connection has a name that no other one has, and the program does not close a
-- connection that is closing already, no event frees a connection before libuv has closed its handle;
-- and after each event the connections are again open with the callback of their end, or closing with
-- the one that removes them.
pub step-AreAlive :
    (s : TcpServer) (e : Event)
    → AreAlive s.connections
    → Allowed s e
    → (s' : TcpServer) × (step s e ≡ some s') × AreAlive s'.connections
unfolding step AreAlive get_connection
step-AreAlive s (accepts name) alive fresh =
    (accept_new name s, rw fresh refl, (inl (refl, refl), alive))
step-AreAlive s (ends name) alive ok =
    let (s', e, alive', n) = ends-Narrows s name alive in (s', e, alive')
step-AreAlive s (finishes name) alive ok =
    let (s', e, alive', n) = finishes-Narrows s name alive in (s', e, alive')
step-AreAlive s (closes name) alive ok =
    let (s', e, alive', n) = closes-Narrows s name alive ok in (s', e, alive')

-- Closing an open connection twice, where the map holds the last pointer to it, frees it while libuv
-- still closes its handle.
close_connection-close_connection :
    (s : TcpServer) (name : List ℕ) (c : TcpConnection)
    → get_connection name s ≡ some c
    → c.handle ≡ opened
    → (s' : TcpServer) × (close_connection name s ≡ some s') × (close_connection name s' ≡ none)
unfolding get_connection
close_connection-close_connection s name c e h = (
  after_close name c s,
  close_connection-opened name c s e h,
  close_connection-closing name (closed_down c) (after_close name c s)
      (lookup-update name (closed_down c) c s.connections e) refl,
)

-- `TcpServer::close` frees no connection: it closes the handles of the open ones, and passes over
-- those that close already.
pub close_each-AreAlive :
    (entries : List (List ℕ × TcpConnection)) (s : TcpServer)
    → AreAlive s.connections
    → (s' : TcpServer) × (close_each entries s ≡ some s') × AreAlive s'.connections
unfolding close_each bind get_connection step
close_each-AreAlive [] s alive = (s, refl, alive)
close_each-AreAlive ((name, c) ∷ rest) s alive =
    let (s1, e1, alive1) = step-AreAlive s (ends name) alive _ in
    let (s2, e2, alive2) = close_each-AreAlive rest s1 alive1 in
    (s2, ap (λ o. bind o (close_each rest)) e1 ∙ e2, alive2)
