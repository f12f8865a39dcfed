-- ===== src/TcpClient/Stages.antt =====
-- What ae/tcp_client.cpp promises its program: one report for each connect, one for each end of a
-- connection, and one for each close by the program, without the handles behind them.
pub mod Answers
pub mod Promised
pub mod Early
use ae_proxy.Base.{
  ℕ, ◌≡◌, Bool, true, false, List, [], ◌∷◌, ◌++◌, map, Option, none, some, if◌then◌else◌,
}
use mathlib.Core.Option.{bind}
use ae_proxy.TcpConnection.{closed}
use ae_proxy.TcpClient.{
  TcpClient, connect_success, connect_fail, connect_close, connect, on_connect, after_connect_fail,
  on_connect_close, after_effects, client_close, client_finishes, Report, reports_status,
  calls_close,
}

pub data Stage : Type 0 where
  idle : Stage
  connecting : Stage
  failing : Stage
  live : Stage
  ending : Stage
  shutting : Bool → Stage  -- closed by the program, with a callback or without

pub data ClientEvent : Type 0 where
  connects : ClientEvent  -- the program calls `connect`
  answers : Bool → List ℕ → ClientEvent  -- libuv answers
  socket_closes : ClientEvent  -- libuv has closed the socket of a connect that failed
  connection_ends : ClientEvent  -- the connection calls `on_connect_close`
  handle_closes : ClientEvent  -- libuv has closed the connection's handle
  program_closes : Bool → ClientEvent  -- the program calls `close`, with a callback or without

abbrev pub told_status : Bool → Report → List Report
told_status told r = if told then r ∷ [] else []

-- The stage after an event and what the program is told; `none` is an event that libuv or the program
-- must not cause: above all, a close while the connection is closing already.
abbrev pub stage_step : Bool → Stage → ClientEvent → Option (Stage × List Report)
stage_step told idle connects = some (connecting, [])
stage_step told idle (program_closes b) = some (idle, told_status b calls_close)
stage_step told connecting (answers true name) =
    some (live, told_status told (reports_status connect_success))
stage_step told connecting (answers false name) = some (failing, [])
stage_step told connecting (program_closes b) = some (connecting, told_status b calls_close)
stage_step told failing socket_closes = some (idle, told_status told (reports_status connect_fail))
stage_step told failing (program_closes b) = some (failing, told_status b calls_close)
stage_step told live connection_ends = some (ending, [])
stage_step told live (program_closes b) = some (shutting b, [])
stage_step told ending handle_closes = some (idle, told_status told (reports_status connect_close))
stage_step told (shutting b) handle_closes = some (idle, told_status b calls_close)
stage_step told _ _ = none

unfoldable pub stage_run : Bool → Stage → List ClientEvent → Option (Stage × List Report)
stage_run told stage [] = some (stage, [])
stage_run told stage (e ∷ events) = bind (stage_step told stage e) (λ (stage', reports).
    bind (stage_run told stage' events) (λ (last, more). some (last, reports ++ more)))

-- The same events, in the code.
unfoldable pub client_step : TcpClient → ClientEvent → TcpClient × List Report
client_step c connects = (connect c, [])
client_step c (answers ok name) =
    let (c', statuses) = on_connect ok name c in (c', map reports_status statuses)
client_step c socket_closes =
    (record c { socket = closed }, map reports_status (after_connect_fail c))
client_step c connection_ends = let (c', effects) = on_connect_close c in after_effects c' effects
client_step c handle_closes = client_finishes c
client_step c (program_closes b) = client_close b c

unfoldable pub client_run : TcpClient → List ClientEvent → TcpClient × List Report
client_run c [] = (c, [])
client_run c (e ∷ events) =
    let (c', reports) = client_step c e in
    let (last, more) = client_run c' events in (last, reports ++ more)
