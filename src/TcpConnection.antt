-- ===== src/TcpConnection.antt =====
-- ae/tcp_connection.h and ae/tcp_connection.cpp: a connection, its callbacks and its handle. A
-- callback is set or null; what an operation calls is the list of its effects. libuv's answers are
-- arguments. A call of a null `std::function`, which throws, is `none`.
pub mod Writing
pub mod Reading
use ae_proxy.Base.{
  ℕ, zero, suc, Bool, true, false, List, [], ◌∷◌, ◌++◌, Option, none, some, ℤ, failure, is_zero,
  is_positive, is_negative, if◌then◌else◌,
}

-- A libuv handle: open, after `uv_close`, after its close callback.
pub data Handle : Type 0 where
  opened closing closed : Handle

pub record TcpConnection : Type 0 where
  pub name : List ℕ
  pub connected : Bool
  pub handle : Handle
  pub reading : Bool
  pub on_message_set : Bool
  pub on_connect_close_set : Bool
  pub close_complete_set : Bool
  pub wrapper : Option ℕ  -- the `ConnectionWrapper` that the weak pointer was set to

-- The constructor starts to read.
abbrev pub new_connection : List ℕ → Bool → TcpConnection
new_connection name is_connected = record {
  name = name;
  connected = is_connected;
  handle = opened;
  reading = true;
  on_message_set = false;
  on_connect_close_set = false;
  close_complete_set = false;
  wrapper = none;
}

pub data Effect : Type 0 where
  calls_message : List ℕ → Effect
  calls_connect_close : List ℕ → Effect
  calls_close_complete : List ℕ → Effect
  calls_after_write : ℤ → List ℕ → Effect  -- the status and the buffer of a `WriteInfo`
  requests_write : List ℕ → Effect
  logs_error : ℤ → Effect
  requests_shutdown : Effect

abbrev pub on_message : TcpConnection → List ℕ → List Effect
on_message c buf = if c.on_message_set then calls_message buf ∷ [] else []

abbrev pub on_socket_close : TcpConnection → List Effect
on_socket_close c = if c.on_connect_close_set then calls_connect_close c.name ∷ [] else []

abbrev pub close_complete : TcpConnection → List Effect
close_complete c = if c.close_complete_set then calls_close_complete c.name ∷ [] else []

-- `close` once its callbacks are exchanged, by what `uv_is_closing` finds.
abbrev pub close_handle : Handle → TcpConnection → TcpConnection × List Effect
close_handle opened c = (record c { handle = closing }, [])
close_handle closing c = (c, close_complete c)
close_handle closed c = (c, close_complete c)

unfoldable pub close : TcpConnection → Bool → TcpConnection × List Effect
close c has_callback = close_handle c.handle (record c {
  reading = false;
  on_message_set = false;
  on_connect_close_set = false;
  close_complete_set = has_callback;
})

-- `callback(info)` where the callback is tested first.
abbrev pub after_write : Bool → ℤ → List ℕ → List Effect
after_write has_callback status buf = if has_callback then calls_after_write status buf ∷ [] else []

-- `rst` is what `uv_write` returns; `-1` is `WriteInfo::Disconnected` too.
unfoldable pub write : TcpConnection → ℤ → List ℕ → Bool → ℤ × List Effect
write c rst buf has_callback =
    if c.connected
    then (
      rst,
      if is_zero rst
          then requests_write buf ∷ []
          else logs_error rst ∷ after_write has_callback rst buf,
    )
    else (failure, after_write has_callback failure buf)

-- The callback of `uv_write`.
abbrev pub written : ℤ → List ℕ → Bool → List Effect
written status buf has_callback = after_write has_callback status buf

-- The task of `write_in_loop`; the connection is what the weak pointer still leads to.
unfoldable pub write_in_loop : Option TcpConnection → ℤ → List ℕ → Bool → Option (List Effect)
write_in_loop none rst buf true = some (calls_after_write failure buf ∷ [])
write_in_loop none rst buf false = none
write_in_loop (some c) rst buf has_callback = some (write c rst buf has_callback).1

-- `on_mesage_receive`: `is_eof` tells whether the number is libuv's end of file.
unfoldable pub on_mesage_receive :
    (ℤ → Bool) → TcpConnection → ℤ → List ℕ → TcpConnection × List Effect
on_mesage_receive is_eof c nread buf =
    if is_positive nread
    then (c, on_message c buf)
    else if is_negative nread
    then (
      record c { connected = false },
      logs_error nread ∷ (if is_eof nread then requests_shutdown ∷ [] else on_socket_close c),
    )
    else (c, [])

-- `set_message_callback`, `set_connect_close_callback` and `set_connect_status`.
abbrev pub set_message_callback : TcpConnection → Bool → TcpConnection
set_message_callback c present = record c { on_message_set = present }

abbrev pub set_connect_close_callback : TcpConnection → Bool → TcpConnection
set_connect_close_callback c present = record c { on_connect_close_set = present }

abbrev pub set_connect_status : TcpConnection → Bool → TcpConnection
set_connect_status c status = record c { connected = status }

abbrev pub set_wrapper : TcpConnection → ℕ → TcpConnection
set_wrapper c v = record c { wrapper = some v }

-- `wrapper_.lock()`: the wrapper, while something holds it.
abbrev pub lock_wrapper : (ℕ → Bool) → Option ℕ → Option ℕ
lock_wrapper is_held none = none
lock_wrapper is_held (some v) = if is_held v then some v else none

abbrev pub get_wrapper : (ℕ → Bool) → TcpConnection → Option ℕ
get_wrapper is_held c = lock_wrapper is_held c.wrapper
