-- ===== src/TcpClient.antt =====
-- ae/tcp_client.h and ae/tcp_client.cpp: a client over one connection. What it tells the program is a
-- list of reports; libuv's answers are arguments.
pub mod Reporting
pub mod Stages
use ae_proxy.Base.{
  ℕ, Bool, true, false, List, [], ◌∷◌, map, is_nil, Option, none, some, ℤ, failure, if◌then◌else◌,
}
use ae_proxy.TcpConnection.{
  TcpConnection, Handle, opened, closing, closed, Effect, new_connection, close, write, after_write,
  set_message_callback, set_connect_close_callback, on_mesage_receive, close_complete,
  write_in_loop,
}

-- `ConnectStatus`
pub data ConnectStatus : Type 0 where
  connect_success connect_fail connect_close : ConnectStatus

-- What the connection's close calls: nothing yet, `on_close`, or what `close` makes of its callback,
-- which is set or null.
pub data CloseCallback : Type 0 where
  no_callback : CloseCallback
  calls_on_close : CloseCallback
  calls_program : Bool → CloseCallback

pub record TcpClient : Type 0 where
  pub connection : Option TcpConnection
  pub socket : Handle  -- of a connect that failed
  pub connect_callback_set : Bool
  pub message_callback_set : Bool
  pub close_callback : CloseCallback

abbrev pub new_client : Bool → TcpClient
new_client has_callback = record {
  connection = none;
  socket = opened;
  connect_callback_set = has_callback;
  message_callback_set = false;
  close_callback = no_callback;
}

-- `run_connect_callback`
abbrev pub run_connect_callback : TcpClient → ConnectStatus → List ConnectStatus
run_connect_callback c status = if c.connect_callback_set then status ∷ [] else []

-- `connect` makes a new socket.
abbrev pub connect : TcpClient → TcpClient
connect c = record c { socket = opened }

-- The connection that `on_connect` makes, with both callbacks.
abbrev pub client_connection : List ℕ → TcpConnection
client_connection name =
    set_connect_close_callback (set_message_callback (new_connection name true) true) true

-- `if (::uv_is_closing(socket) == 0) uv_close(...)`
abbrev pub close_socket : Handle → Handle
close_socket opened = closing
close_socket handle = handle

unfoldable pub on_connect : Bool → List ℕ → TcpClient → TcpClient × List ConnectStatus
on_connect true name c =
    let c' = record c { connection = some (client_connection name) } in
    (c', run_connect_callback c' connect_success)
on_connect false name c = (record c { socket = close_socket c.socket }, [])

-- libuv has closed the socket of a connect that failed.
abbrev pub after_connect_fail : TcpClient → List ConnectStatus
after_connect_fail c = run_connect_callback c connect_fail

-- The connection after the close, and whether its callback ran at once.
abbrev pub with_connection : TcpClient → TcpConnection × List Effect → TcpClient × List Effect
with_connection c (conn, effects) = (record c { connection = some conn }, effects)

-- `on_connect_close` closes the connection, if there is one, with `on_close`.
abbrev pub close_current : Option TcpConnection → TcpClient → TcpClient × List Effect
close_current none c = (c, [])
close_current (some conn) c =
    with_connection (record c { close_callback = calls_on_close }) (close conn true)

unfoldable pub on_connect_close : TcpClient → TcpClient × List Effect
on_connect_close c = close_current c.connection c

-- `on_close`, the callback that `on_connect_close` gives.
abbrev pub on_close : TcpClient → List ConnectStatus
on_close c = run_connect_callback c connect_close

-- `write`, with what it returns and does; `rst` is what `uv_write` returns.
abbrev pub write_on : Option TcpConnection → ℤ → List ℕ → Bool → ℤ × List Effect
write_on none rst buf has_callback = (failure, after_write has_callback failure buf)
write_on (some conn) rst buf has_callback = write conn rst buf has_callback

unfoldable pub client_write : TcpClient → ℤ → List ℕ → Bool → ℤ × List Effect
client_write c rst buf has_callback = write_on c.connection rst buf has_callback

-- The connection's `on_mesage_receive`.
abbrev pub receive_on :
    (ℤ → Bool) → Option TcpConnection → ℤ → List ℕ → TcpClient → TcpClient × List Effect
receive_on is_eof none nread buf c = (c, [])
receive_on is_eof (some conn) nread buf c =
    with_connection c (on_mesage_receive is_eof conn nread buf)

unfoldable pub receive : (ℤ → Bool) → ℤ → List ℕ → TcpClient → TcpClient × List Effect
receive is_eof nread buf c = receive_on is_eof c.connection nread buf c

-- What the program learns: a status, the end of its `close`, a message.
pub data Report : Type 0 where
  reports_status : ConnectStatus → Report
  calls_close : Report
  passes_message : List ℕ → Report

abbrev pub run_close_callback : CloseCallback → TcpClient → List Report
run_close_callback no_callback c = []
run_close_callback calls_on_close c = map reports_status (on_close c)
run_close_callback (calls_program true) c = calls_close ∷ []
run_close_callback (calls_program false) c = []

-- The close callback of the connection, if it called one.
abbrev pub after_effects : TcpClient → List Effect → TcpClient × List Report
after_effects c effects = (c, if is_nil effects then [] else run_close_callback c.close_callback c)

abbrev pub close_program : Option TcpConnection → Bool → TcpClient → TcpClient × List Report
close_program none has_callback c = (c, if has_callback then calls_close ∷ [] else [])
close_program (some conn) has_callback c =
    let (conn', effects) = close conn true in
    after_effects
      (record c { connection = some conn'; close_callback = calls_program has_callback }) effects

-- `close`
unfoldable pub client_close : Bool → TcpClient → TcpClient × List Report
client_close has_callback c = close_program c.connection has_callback c

abbrev pub finish_connection : Handle → TcpConnection → TcpClient → TcpClient × List Report
finish_connection opened conn c = (c, [])
finish_connection closing conn c =
    let conn' = record conn { handle = closed } in
    after_effects (record c { connection = some conn' }) (close_complete conn')
finish_connection closed conn c = (c, [])

abbrev pub finish_client : Option TcpConnection → TcpClient → TcpClient × List Report
finish_client none c = (c, [])
finish_client (some conn) c = finish_connection conn.handle conn c

-- libuv has closed the handle of the connection, if it was closing it.
unfoldable pub client_finishes : TcpClient → TcpClient × List Report
client_finishes c = finish_client c.connection c

-- `on_message`
abbrev pub on_client_message : TcpClient → List ℕ → List Report
on_client_message c buf = if c.message_callback_set then passes_message buf ∷ [] else []

abbrev pub set_client_message_callback : Bool → TcpClient → TcpClient
set_client_message_callback present c = record c { message_callback_set = present }

abbrev pub set_connect_status_callback : Bool → TcpClient → TcpClient
set_connect_status_callback present c = record c { connect_callback_set = present }

-- `write_in_loop` without a connection answers at once; with one, the task runs later, by what the weak
-- pointer still leads to.
abbrev pub client_write_in_loop : Option TcpConnection → ℤ → List ℕ → Bool → Option (List Effect)
client_write_in_loop none rst buf has_callback = some (after_write has_callback failure buf)
client_write_in_loop (some conn) rst buf has_callback =
    write_in_loop (some conn) rst buf has_callback
