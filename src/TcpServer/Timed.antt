-- ===== src/TcpServer/Timed.antt =====
-- The idle timeout of ae/tcp_server.cpp: a `ConnectionWrapper` for each connection, which only the
-- timer wheel holds. The wheel drops it when nothing came for `timeout` ticks, and its destructor ends
-- the connection. A wrapper is the number of its making.
pub mod Expiry
pub mod Ticks
pub mod Heard
pub mod Watched
pub mod Given
pub mod Accepted
pub mod Ticked
pub mod Steps
pub mod Idle
pub mod Silence
use ae_proxy.Base.{
  ℕ, Bool, true, false, not, ◌&&◌, List, [], ◌∷◌, ◌++◌, Option, none, some, ◌==◌, if◌then◌else◌,
  is_positive, length, get_elem?, get_or, lookup, update, ℤ, is_zero,
}
use mathlib.Core.Option.{bind}
use ae_proxy.TimerWheel.{TimerWheel, get_timeout, insert, wheel_callback, start}
use ae_proxy.TimerWheel.Window.{holds}
use ae_proxy.TcpConnection.{TcpConnection, set_wrapper, get_wrapper}
use ae_proxy.TcpServer.{
  TcpServer, Event, ends, finishes, closes, get_connection, accept, socket_closed, step,
}

pub record TimedServer : Type 0 where
  pub server : TcpServer
  pub wheel : TimerWheel  -- `timerWheel_`
  pub wrappers : List (List ℕ)  -- the connection of each wrapper made, by its name

-- `connection->set_wrapper(wrapper)` on the connection that the map has.
abbrev pub wrap : Option TcpConnection → List ℕ → ℕ → TcpServer → TcpServer
wrap none name v s = s
wrap (some c) name v s = record s { connections = update name (set_wrapper c v) s.connections }

abbrev pub wrapped : List ℕ → TimedServer → Option TimerWheel → Option TimedServer
wrapped name t none = none
wrapped name t (some w) = some (record {
  server = wrap (get_connection name t.server) name (length t.wrappers) t.server;
  wheel = w;
  wrappers = t.wrappers ++ (name ∷ []);
})

-- The part of `on_accept` behind `add_connection`.
abbrev pub watch : List ℕ → TimedServer → Option TimedServer
watch name t =
    if is_positive (get_timeout t.wheel)
    then wrapped name t (insert t.wheel (some (length t.wrappers)))
    else some t

unfoldable pub on_accept : List ℕ → TimedServer → Option TimedServer
unfolding get_connection insert get_timeout
on_accept name t =
    bind (accept (get_connection name t.server) name t.server)
      (λ s. watch name (record t { server = s }))

abbrev pub with_wheel : TimedServer → Option TimerWheel → Option TimedServer
with_wheel t none = none
with_wheel t (some w) = some (record t { wheel = w })

-- `TcpServer::on_message`, which an open connection calls.
abbrev pub touch : Option TcpConnection → TimedServer → Option TimedServer
touch none t = some t
touch (some c) t =
    if c.on_message_set && is_positive (get_timeout t.wheel)
    then with_wheel t (insert t.wheel (get_wrapper (holds t.wheel) c))
    else some t

unfoldable pub on_server_message : List ℕ → TimedServer → Option TimedServer
unfolding get_connection insert get_timeout
on_server_message name t = touch (get_connection name t.server) t

abbrev pub is_wrapper : ℕ → Option ℕ → Bool
is_wrapper v none = false
is_wrapper v (some u) = u == v

-- `~ConnectionWrapper`: the weak pointer leads to the connection while the map has it.
abbrev pub unwrap : Option TcpConnection → ℕ → List ℕ → TcpServer → Option TcpServer
unwrap none v name s = some s
unwrap (some c) v name s = if is_wrapper v c.wrapper then socket_closed (some c) name s else some s

abbrev pub wrapper_dies : Option (List ℕ) → ℕ → TcpServer → Option TcpServer
wrapper_dies none v s = some s
wrapper_dies (some name) v s = unwrap (get_connection name s) v name s

-- What the cleared slot held, and no slot holds now.
unfoldable pub dropped : TimerWheel → List ℕ → List ℕ
dropped w [] = []
dropped w (v ∷ slot) = let rest = dropped w slot in if holds w v then rest else v ∷ rest

unfoldable pub expire : List (List ℕ) → List ℕ → TcpServer → Option TcpServer
expire wrappers [] s = some s
expire wrappers (v ∷ vs) s = bind (wrapper_dies (get_elem? wrappers v) v s) (expire wrappers vs)

abbrev pub with_server : TimedServer → Option TcpServer → Option TimedServer
with_server t none = none
with_server t (some s) = some (record t { server = s })

abbrev pub after_callback : TimedServer → Option TimerWheel → Option TimedServer
after_callback t none = none
after_callback t (some w) =
    with_server (record t { wheel = w })
      (expire t.wrappers (dropped w (get_or t.wheel.wheel w.index [])) t.server)

-- A tick of the wheel's timer, with the destructors that it sets off.
unfoldable pub tick : TimedServer → Option TimedServer
unfolding wheel_callback
tick t = after_callback t (wheel_callback t.wheel)

-- What happens to a server that listens.
pub data Happening : Type 0 where
  connects : List ℕ → Happening
  speaks : List ℕ → Happening
  times : Happening
  stream_ends : List ℕ → Happening
  handle_finishes : List ℕ → Happening
  program_closes : List ℕ → Happening

unfoldable pub happen : TimedServer → Happening → Option TimedServer
unfolding on_accept on_server_message tick step
happen t (connects name) = on_accept name t
happen t (speaks name) = on_server_message name t
happen t times = tick t
happen t (stream_ends name) = with_server t (step t.server (ends name))
happen t (handle_finishes name) = with_server t (step t.server (finishes name))
happen t (program_closes name) = with_server t (step t.server (closes name))
