-- ===== src/TcpServer/Listening/Shutdown.antt =====
-- How `TcpServer::close` of ae/tcp_server.cpp ends.
use ae_proxy.Base.{
  ℕ, ◌≡◌, ◌⊎◌, inl, inr, refl, sym, ap, ◌∙◌, false, List, [], ◌∷◌, ◌++◌, some, lookup, same_text,
  same_text_eq, Bool-cases, append_assoc,
}
use mathlib.Core.Bool.{true≢false}
use mathlib.Core.Option.{bind, none-ne-some}
use ae_proxy.TcpConnection.{TcpConnection, Handle, opened, closing, closed}
use ae_proxy.TcpAcceptor.{TcpAcceptor, close_server_handle, acceptor_close, acceptor_finishes}
use ae_proxy.TcpServer.{TcpServer, get_connection, close_each, step}
use ae_proxy.TcpServer.Table.{AreAlive, lookup-AreAlive}
use ae_proxy.TcpServer.Narrowing.{Narrows, Narrows-same, Narrows-trans, ends-Narrows, ends-shut}
use ae_proxy.TcpServer.Listening.{
  Listener, sockets_closed, run_close_calls, acceptor_changed, close_acceptor, close_server,
  server_finishes,
}

-- The connections that are left close.
pub AllClosing : TcpServer → Type 0
AllClosing s =
    (name : List ℕ) (c : TcpConnection) → get_connection name s ≡ some c → c.handle ≡ closing

lookup-head :
    (name key : List ℕ) (a : TcpConnection) (rest : List (List ℕ × TcpConnection))
    → (key ≡ name) ⊎ (lookup name ((key, a) ∷ rest) ≡ lookup name rest)
unfolding lookup
lookup-head name key a rest = elim (Bool-cases (same_text name key)) [
  | inl e ↦ inl (sym (same_text_eq name key e))
  | inr e ↦ inr (rw e refl)
]

-- The loop defines a server, in which the connections that it passed do not call back again.
close_each-shut :
    (entries : List (List ℕ × TcpConnection)) (s : TcpServer)
    → AreAlive s.connections
    → (s' : TcpServer) × (close_each entries s ≡ some s')
      × AreAlive s'.connections
      × Narrows s s'
      × ((name : List ℕ) (a c : TcpConnection)
          → lookup name entries ≡ some a
          → lookup name s'.connections ≡ some c
          → c.on_connect_close_set ≡ false)
unfolding close_each step get_connection bind Narrows lookup
close_each-shut [] s alive =
    (s, refl, alive, Narrows-same s, λ name a c found e. absurd (none-ne-some _ found))
close_each-shut ((key, b) ∷ rest) s alive =
    let (s1, e1, alive1, n1) = ends-Narrows s key alive in
    let (s2, e2, alive2, n2, shut2) = close_each-shut rest s1 alive1 in
    (
      s2,
      ap (λ o. bind o (close_each rest)) e1 ∙ e2,
      alive2,
      Narrows-trans s s1 s2 n1 n2,
      λ name a c found e. elim (lookup-head name key b rest) [
        | inr further ↦ shut2 name a c (sym further ∙ found) e
        | inl same ↦
            let (c1, found1, wraps, kept) = n2 name c e in
            let shut1 =
              ends-shut s key alive s1 c1 e1 (ap (λ k. lookup k s1.connections) same ∙ found1) in
            elim kept [
              | inl shut ↦ shut
              | inr same' ↦ ap (λ x. x.on_connect_close_set) same' ∙ shut1
            ]
      ],
    )

close_each-AllClosing :
    (s : TcpServer)
    → AreAlive s.connections
    → (s' : TcpServer) × (close_each s.connections s ≡ some s')
      × AreAlive s'.connections
      × AllClosing s'
unfolding Narrows AllClosing get_connection
close_each-AllClosing s alive =
    let (s', e, alive', n, shut) = close_each-shut s.connections s alive in
    (
      s',
      e,
      alive',
      λ name c found.
          let (a, before, wraps, kept) = n name c found in
          elim (lookup-AreAlive name s'.connections c alive' found) [
            | inl (h, k) ↦ absurd (true≢false (sym k ∙ shut name a c before found))
            | inr (h, k, l) ↦ h
          ],
    )

module _ (l : Listener) (a : TcpAcceptor) (listens : l.acceptor ≡ some a)
    (is_open : a.server ≡ opened) (alive : AreAlive l.timed.server.connections) where
  -- The listener whose socket `close` has begun to close.
  abbrev waiting : ℕ → Listener
  waiting callback = record l {
    acceptor = some (record a { close_complete = some callback; server = closing });
  }

  close_server-waiting : (callback : ℕ) → close_server callback l ≡ some (waiting callback)
  unfolding close_server acceptor_close
  close_server-waiting callback =
      ap (λ o. close_acceptor o callback l) listens
      ∙ ap
          (λ handle.
            acceptor_changed l
              (close_server_handle handle (record a { close_complete = some callback })))
          is_open

  -- The listener whose callback has run, with the connections that this leaves.
  abbrev answered : Handle → ℕ → TcpServer → Listener
  answered handle callback s = record l {
    acceptor = some (record a { close_complete = some callback; server = handle });
    timed = record l.timed { server = s };
    close_calls = l.close_calls ++ callback ∷ [];
  }

  -- Where the acceptor's socket is open and each connection is open with its callbacks or closing, `close`
  -- calls nothing and closes no connection until libuv has closed that socket. Then every connection is
  -- closing, and the callback is called, once.
  pub server_finishes-close_server :
      (callback : ℕ)
      → (waits l' : Listener) × (close_server callback l ≡ some waits)
        × (waits.timed ≡ l.timed)
        × (waits.close_calls ≡ l.close_calls)
        × (server_finishes waits ≡ some l')
        × (l'.close_calls ≡ l.close_calls ++ callback ∷ [])
        × AllClosing l'.timed.server
        × AreAlive l'.timed.server.connections
  unfolding server_finishes acceptor_finishes bind
  server_finishes-close_server callback =
      let (s, e, alive', all) = close_each-AllClosing l.timed.server alive in
      (
        waiting callback,
        answered closed callback s,
        close_server-waiting callback,
        refl,
        refl,
        ap
            (λ o.
              bind
                (sockets_closed
                  (record (waiting callback) {
                    acceptor = some (record a { close_complete = some callback; server = closed });
                  })
                  callback o)
                (run_close_calls []))
            e,
        refl,
        all,
        alive',
      )

  -- Where the acceptor's socket is open and each connection is open with its callbacks or closing, `close`
  -- and again `close` before libuv has answered: the first callback is not called, and the second one
  -- twice, at once and when libuv has answered.
  pub close_server-close_server :
      (callback other : ℕ)
      → (waits again l' : Listener) × (close_server callback l ≡ some waits)
        × (close_server other waits ≡ some again)
        × (again.close_calls ≡ l.close_calls ++ other ∷ [])
        × (server_finishes again ≡ some l')
        × (l'.close_calls ≡ l.close_calls ++ other ∷ other ∷ [])
  unfolding close_server acceptor_close server_finishes acceptor_finishes bind
  close_server-close_server callback other =
      let (s, e, alive1, all1) = close_each-AllClosing l.timed.server alive in
      let (s2, e2, alive2, all2) = close_each-AllClosing s alive1 in
      let again = answered closing other s in
      (
        waiting callback,
        again,
        record (answered closed other s2) {
          close_calls = (l.close_calls ++ other ∷ []) ++ other ∷ [];
        },
        close_server-waiting callback,
        ap
            (λ o.
              bind
                (sockets_closed
                  (record (waiting callback) {
                    acceptor = some (record a { close_complete = some other; server = closing });
                  })
                  other o)
                (run_close_calls []))
            e,
        refl,
        ap
            (λ o.
              bind
                (sockets_closed
                  (record again {
                    acceptor = some (record a { close_complete = some other; server = closed });
                  })
                  other o)
                (run_close_calls []))
            e2,
        append_assoc l.close_calls (other ∷ []) (other ∷ []),
      )
