-- ===== src/TcpServer/Listening.antt =====
-- `listen` and `close` of ae/tcp_server.cpp, over the acceptor and the timer wheel.
pub mod Shutdown
use ae_proxy.Base.{
  ℕ, Bool, true, false, List, [], ◌∷◌, ◌++◌, Option, none, some, ℤ, is_zero, if◌then◌else◌,
}
use mathlib.Core.Option.{bind}
use ae_proxy.TimerWheel.{TimerWheel, new_wheel, set_timeout, start}
use ae_proxy.TcpAcceptor.{
  TcpAcceptor, new_acceptor, acceptor_listen, acceptor_close, acceptor_finishes,
  set_new_connection_callback,
}
use ae_proxy.TcpServer.{TcpServer, close_each}
use ae_proxy.TcpServer.Timed.{TimedServer, with_server}

pub record Listener : Type 0 where
  pub acceptor : Option TcpAcceptor  -- `accetper_`
  pub no_delay : Bool  -- `tcpNoDelay_`
  pub timed : TimedServer
  pub close_calls : List ℕ  -- the calls of the callbacks given to `close`, the newest last

-- The constructor.
abbrev pub new_server : Bool → Listener
new_server no_delay = record {
  acceptor = none;
  no_delay = no_delay;
  timed = record {
    server = record {
      connections = [];
      on_message_set = false;
      on_connect_close_set = false;
      on_new_connect_set = false;
      announced = [];
      notified = [];
    };
    wheel = new_wheel 0;
    wrappers = [];
  };
  close_calls = [];
}

abbrev pub with_wheel : TimerWheel → Listener → Listener
with_wheel w l = record l { timed = record l.timed { wheel = w } }

unfoldable pub set_server_timeout : ℕ → Listener → Listener
unfolding set_timeout
set_server_timeout seconds l = with_wheel (set_timeout l.timed.wheel seconds) l

abbrev pub set_server_message_callback : Bool → Listener → Listener
set_server_message_callback present l = record l {
  timed = record l.timed { server = record l.timed.server { on_message_set = present } };
}

abbrev pub set_server_close_callback : Bool → Listener → Listener
set_server_close_callback present l = record l {
  timed = record l.timed { server = record l.timed.server { on_connect_close_set = present } };
}

abbrev pub set_new_connect_callback : Bool → Listener → Listener
set_new_connect_callback present l = record l {
  timed = record l.timed { server = record l.timed.server { on_new_connect_set = present } };
}

-- `listen`, with what `uv_tcp_bind` and `uv_listen` answer.
unfoldable pub listen : ℤ → ℤ → Listener → Listener × ℤ
unfolding start acceptor_listen
listen bound listens l =
    let a = new_acceptor l.no_delay in
    if is_zero bound
    then (let (a', rst) = acceptor_listen listens (set_new_connection_callback true a) in
        (with_wheel (start l.timed.wheel) (record l { acceptor = some a' }), rst))
    else (record l { acceptor = some a }, bound)

-- The callback that `close` gives to the acceptor: the sockets of all connections close, and the
-- program's callback is called.
abbrev pub sockets_closed : Listener → ℕ → Option TcpServer → Option Listener
sockets_closed l callback none = none
sockets_closed l callback (some s) = some (record l {
  timed = record l.timed { server = s };
  close_calls = l.close_calls ++ callback ∷ [];
})

abbrev pub acceptor_closed : ℕ → Listener → Option Listener
acceptor_closed callback l =
    sockets_closed l callback (close_each l.timed.server.connections l.timed.server)

abbrev pub run_close_calls : List ℕ → Listener → Option Listener
run_close_calls [] l = some l
run_close_calls (callback ∷ callbacks) l =
    bind (acceptor_closed callback l) (run_close_calls callbacks)

abbrev pub acceptor_changed : Listener → TcpAcceptor × List ℕ → Option Listener
acceptor_changed l (a, callbacks) = run_close_calls callbacks (record l { acceptor = some a })

abbrev pub close_acceptor : Option TcpAcceptor → ℕ → Listener → Option Listener
close_acceptor none callback l = some l
close_acceptor (some a) callback l = acceptor_changed l (acceptor_close callback a)

-- `close`, whose callback is not null.
unfoldable pub close_server : ℕ → Listener → Option Listener
unfolding acceptor_close close_each
close_server callback l = close_acceptor l.acceptor callback l

abbrev pub finish_acceptor : Option TcpAcceptor → Listener → Option Listener
finish_acceptor none l = some l
finish_acceptor (some a) l = acceptor_changed l (acceptor_finishes a)

-- libuv has closed the listening socket.
unfoldable pub server_finishes : Listener → Option Listener
unfolding acceptor_finishes close_each
server_finishes l = finish_acceptor l.acceptor l
