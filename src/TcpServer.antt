-- ===== src/TcpServer.antt =====
-- ae/tcp_server.h and ae/tcp_server.cpp: the connections of a server, from `on_accept` to the close
-- callback of each. The map holds the last pointer to each connection, so that erasing one frees it;
-- freeing a connection whose handle libuv has not finished closing, which is undefined, is `none`. The
-- end of a `ConnectionWrapper` is an event here; Timed has the timer wheel that causes it.
pub mod Table
pub mod Closing
pub mod Narrowing
pub mod Owning
pub mod Phases
pub mod Posting
pub mod Timed
pub mod Listening
use ae_proxy.Base.{
  ℕ, Bool, true, false, List, [], ◌∷◌, ◌++◌, Option, none, some, ℤ, failure, is_negative,
  if◌then◌else◌, lookup, update, erase, is_nil,
}
use mathlib.Core.Option.{bind}
use ae_proxy.TcpConnection.{
  TcpConnection, Handle, opened, closing, closed, Effect, calls_message, new_connection, close,
  close_complete, on_socket_close, on_message, after_write, write, set_message_callback,
  set_connect_close_callback,
}

pub record TcpServer : Type 0 where
  pub connections : List (List ℕ × TcpConnection)
  pub on_message_set : Bool
  pub on_connect_close_set : Bool
  pub on_new_connect_set : Bool
  pub announced : List (List ℕ)  -- the calls of `onNewConnectCallback_`, the newest last
  pub notified : List (List ℕ)  -- the calls of `onConnectCloseCallback_`, the newest last

unfoldable pub get_connection : List ℕ → TcpServer → Option TcpConnection
get_connection name s = lookup name s.connections

-- `remove_connection`, where the map's pointer is the last one.
abbrev pub free : Handle → List ℕ → TcpServer → Option TcpServer
free closed name s = some (record s { connections = erase name s.connections })
free opened name s = none
free closing name s = none

abbrev pub notify : Bool → List ℕ → List (List ℕ) → List (List ℕ)
notify true name earlier = earlier ++ (name ∷ [])
notify false name earlier = earlier

-- The callback that `close_connection` gives to the connection.
abbrev pub finish : Option TcpConnection → List ℕ → TcpServer → Option TcpServer
finish none name s = some s
finish (some c) name s =
    free c.handle name (record s { notified = notify s.on_connect_close_set name s.notified })

-- The connection has changed, and has called back or not.
abbrev pub settle : List ℕ → TcpConnection × List Effect → TcpServer → Option TcpServer
settle name (c, effects) s =
    let s' = record s { connections = update name c s.connections } in
    if is_nil effects then some s' else finish (get_connection name s') name s'

abbrev pub close_found : Option TcpConnection → List ℕ → TcpServer → Option TcpServer
close_found none name s = some s
close_found (some c) name s = settle name (close c true) s

unfoldable pub close_connection : List ℕ → TcpServer → Option TcpServer
close_connection name s = close_found (get_connection name s) name s

-- `on_socket_close` of a connection, whose callback is `close_connection`.
abbrev pub socket_closed : Option TcpConnection → List ℕ → TcpServer → Option TcpServer
socket_closed none name s = some s
socket_closed (some c) name s =
    if is_nil (on_socket_close c) then some s else close_connection name s

-- libuv calls the close callback of the connection's handle.
abbrev pub handle_finished : Handle → TcpConnection → List ℕ → TcpServer → Option TcpServer
handle_finished closing c name s =
    let c' = record c { handle = closed } in settle name (c', close_complete c') s
handle_finished _ c name s = some s

abbrev pub handle_closed : Option TcpConnection → List ℕ → TcpServer → Option TcpServer
handle_closed none name s = some s
handle_closed (some c) name s = handle_finished c.handle c name s

-- The connection that `on_accept` makes.
abbrev pub accepted : List ℕ → TcpConnection
accepted name =
    set_connect_close_callback (set_message_callback (new_connection name true) true) true

-- `add_connection` and the report to the program.
abbrev pub accept_new : List ℕ → TcpServer → TcpServer
accept_new name s = record s {
  connections = (name, accepted name) ∷ s.connections;
  announced = notify s.on_new_connect_set name s.announced;
}

-- `on_accept`: the map keeps an entry that has the name already, and the new connection is freed with
-- its handle open.
abbrev pub accept : Option TcpConnection → List ℕ → TcpServer → Option TcpServer
accept none name s = some (accept_new name s)
accept (some c) name s = none

-- The loop over the connections in `close`.
unfoldable pub close_each : List (List ℕ × TcpConnection) → TcpServer → Option TcpServer
close_each [] s = some s
close_each ((name, c) ∷ rest) s =
    bind (socket_closed (get_connection name s) name s) (λ s'. close_each rest s')

pub data Event : Type 0 where
  accepts : List ℕ → Event
  ends : List ℕ → Event  -- a read error, the answer to a shutdown, or the end of the wrapper
  finishes : List ℕ → Event  -- libuv has closed the handle
  closes : List ℕ → Event  -- the program calls `close_connection`

unfoldable pub step : TcpServer → Event → Option TcpServer
step s (accepts name) = accept (get_connection name s) name s
step s (ends name) = socket_closed (get_connection name s) name s
step s (finishes name) = handle_closed (get_connection name s) name s
step s (closes name) = close_connection name s

-- `write` by name, with what it answers when the name leads to no connection.
unfoldable pub write_to : Option TcpConnection → ℤ → List ℕ → Bool → List Effect
write_to none rst buf has_callback = after_write has_callback failure buf
write_to (some c) rst buf has_callback = (write c rst buf has_callback).1

unfoldable pub write_by_name : List ℕ → TcpServer → ℤ → List ℕ → Bool → List Effect
write_by_name name s rst buf has_callback = write_to (get_connection name s) rst buf has_callback
