-- ===== src/TcpAcceptor.antt =====
-- ae/tcp_acceptor.h and ae/tcp_acceptor.cpp: the listening socket. What libuv answers is an argument,
-- what the acceptor does to others an effect; a callback of the program is a number.
use ae_proxy.Base.{
  ℕ, Bool, true, false, List, [], ◌∷◌, ◌++◌, Option, none, some, ℤ, is_zero, is_negative,
  if◌then◌else◌,
}
use ae_proxy.TcpConnection.{Handle, opened, closing, closed}

pub record TcpAcceptor : Type 0 where
  pub listened : Bool
  pub tcp_no_delay : Bool
  pub callback_set : Bool  -- `callback_`
  pub close_complete : Option ℕ  -- `onCloseCompletCallback_`
  pub server : Handle

abbrev pub new_acceptor : Bool → TcpAcceptor
new_acceptor no_delay = record {
  listened = false;
  tcp_no_delay = no_delay;
  callback_set = false;
  close_complete = none;
  server = opened;
}

pub data AcceptorEffect : Type 0 where
  logs_status : ℤ → AcceptorEffect
  inits_client : AcceptorEffect
  sets_no_delay : AcceptorEffect
  calls_new_connection : AcceptorEffect
  closes_client : AcceptorEffect

abbrev pub on_new_connect : TcpAcceptor → List AcceptorEffect
on_new_connect a = if a.callback_set then calls_new_connection ∷ [] else []

-- The callbacks that `on_close_complete` calls.
abbrev pub on_close_complete : TcpAcceptor → List ℕ
on_close_complete a = elim a.close_complete [ none ↦ [] | some callback ↦ callback ∷ [] ]

-- The callback of `uv_listen`; `rst` is what `uv_accept` answers.
unfoldable pub on_connection : ℤ → ℤ → TcpAcceptor → List AcceptorEffect
on_connection status rst a =
    if is_negative status
    then logs_status status ∷ []
    else inits_client
      ∷ ((if a.tcp_no_delay then sets_no_delay ∷ [] else [])
          ++ (if is_zero rst then on_new_connect a else closes_client ∷ []))

-- `listen`; `rst` is what `uv_listen` answers.
unfoldable pub acceptor_listen : ℤ → TcpAcceptor → TcpAcceptor × ℤ
acceptor_listen rst a = (if is_zero rst then record a { listened = true } else a, rst)

abbrev pub is_listen : TcpAcceptor → Bool
is_listen a = a.listened

abbrev pub set_new_connection_callback : Bool → TcpAcceptor → TcpAcceptor
set_new_connection_callback present a = record a { callback_set = present }

-- `close` by what `uv_is_closing` finds, with the callbacks called at once.
abbrev pub close_server_handle : Handle → TcpAcceptor → TcpAcceptor × List ℕ
close_server_handle opened a = (record a { server = closing }, [])
close_server_handle closing a = (a, on_close_complete a)
close_server_handle closed a = (a, on_close_complete a)

unfoldable pub acceptor_close : ℕ → TcpAcceptor → TcpAcceptor × List ℕ
acceptor_close callback a =
    close_server_handle a.server (record a { close_complete = some callback })

-- libuv has closed the socket, if it was closing it.
abbrev pub finish_handle : Handle → TcpAcceptor → TcpAcceptor × List ℕ
finish_handle opened a = (a, [])
finish_handle closing a = (record a { server = closed }, on_close_complete a)
finish_handle closed a = (a, [])

unfoldable pub acceptor_finishes : TcpAcceptor → TcpAcceptor × List ℕ
acceptor_finishes a = finish_handle a.server a
