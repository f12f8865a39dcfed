-- ===== src/TcpServer/Closing.antt =====
-- How a connection of ae/tcp_server.cpp is closed, step by step.
use ae_proxy.Base.{
  ℕ, ◌≡◌, inr, refl, ap, ◌∙◌, true, false, List, [], ◌∷◌, none, some, if◌then◌else◌, lookup, update,
  erase, is_nil,
}
use ae_proxy.TcpConnection.{
  TcpConnection, calls_close_complete, calls_connect_close, opened, closing, closed, close,
  close_handle,
}
use ae_proxy.TcpServer.{
  TcpServer, get_connection, free, notify, finish, settle, close_found, close_connection,
  socket_closed, handle_finished, finishes, step,
}
use ae_proxy.TcpServer.Table.{AreAlive, update-AreAlive, erase-update, lookup-update}

-- A connection whose handle `close` has just closed.
abbrev pub closed_down : TcpConnection → TcpConnection
closed_down c = record c {
  handle = closing;
  reading = false;
  on_message_set = false;
  on_connect_close_set = false;
  close_complete_set = true;
}

abbrev pub after_close : List ℕ → TcpConnection → TcpServer → TcpServer
after_close name c s = record s { connections = update name (closed_down c) s.connections }

module _ (name : List ℕ) (c : TcpConnection) (s : TcpServer)
    (found : lookup name s.connections ≡ some c) where
  pub close_connection-opened :
      c.handle ≡ opened → close_connection name s ≡ some (after_close name c s)
  unfolding close_connection get_connection close
  close_connection-opened h = rw (found) (
      ap
        (λ handle.
          settle name
            (close_handle handle (record c {
              reading = false;
              on_message_set = false;
              on_connect_close_set = false;
              close_complete_set = true;
            }))
            s)
        h)

  pub close_connection-closing : c.handle ≡ closing → close_connection name s ≡ none
  unfolding close_connection get_connection close
  close_connection-closing h =
      let c0 = record c {
        reading = false;
        on_message_set = false;
        on_connect_close_set = false;
        close_complete_set = true;
      } in
      let s' = record s { connections = update name c0 s.connections } in
      rw found (
        ap (λ handle. settle name (close_handle handle c0) s) h
        ∙ (ap (λ o. finish o name s') (lookup-update name c0 c s.connections found)
            ∙ ap
                (λ handle.
                  free handle name
                    (record s' { notified = notify s.on_connect_close_set name s.notified }))
                h))

  pub finishes-closing :
      c.handle ≡ closing
      → c.close_complete_set ≡ true
      → step s (finishes name)
        ≡ some (record s {
          connections = erase name s.connections;
          notified = notify s.on_connect_close_set name s.notified;
        })
  unfolding step get_connection
  finishes-closing h k =
      let c0 = record c { handle = closed } in
      let s' = record s { connections = update name c0 s.connections } in
      rw found (
        ap (λ handle. handle_finished handle c name s) h
        ∙ (ap
              (λ b.
                if is_nil (if b then calls_close_complete c.name ∷ [] else [])
                then some s'
                else finish (lookup name s'.connections) name s')
              k
            ∙ (ap (λ o. finish o name s') (lookup-update name c0 c s.connections found)
                ∙ ap
                    (λ es. some (record s {
                      connections = es;
                      notified = notify s.on_connect_close_set name s.notified;
                    }))
                    (erase-update name c0 s.connections))))

  pub socket_closed-opened :
      c.handle ≡ opened
      → c.on_connect_close_set ≡ true
      → socket_closed (some c) name s ≡ some (after_close name c s)
  socket_closed-opened h k =
      ap
        (λ b.
          if is_nil (if b then calls_connect_close c.name ∷ [] else [])
          then some s
          else close_connection name s)
        k
      ∙ close_connection-opened h

pub socket_closed-quiet :
    (name : List ℕ) (c : TcpConnection) (s : TcpServer)
    → c.on_connect_close_set ≡ false
    → socket_closed (some c) name s ≡ some s
socket_closed-quiet name c s k =
    ap
      (λ b.
        if is_nil (if b then calls_connect_close c.name ∷ [] else [])
        then some s
        else close_connection name s)
      k

pub after_close-AreAlive :
    (name : List ℕ) (c : TcpConnection) (s : TcpServer)
    → AreAlive s.connections
    → AreAlive (after_close name c s).connections
after_close-AreAlive name c s alive =
    update-AreAlive name (closed_down c) s.connections (inr (refl, refl, refl)) alive

pub close_connection-none :
    (name : List ℕ) (s : TcpServer)
    → get_connection name s ≡ none
    → close_connection name s ≡ some s
unfolding close_connection
close_connection-none name s e = ap (λ o. close_found o name s) e
