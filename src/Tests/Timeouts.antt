-- ===== src/Tests/Timeouts.antt =====
-- The idle timeout of the server's connections.
use ae_proxy.Base.{
  ℕ, ◌<◌, ◌≡◌, refl, true, false, List, [], ◌∷◌, some, none, lookup, same_text, update, arith,
}
use ae_proxy.TimerWheel.{start, new_wheel, insert, get_timeout}
use ae_proxy.TimerWheel.Slots.{resize, put, contains}
use mathlib.Core.Option.{bind}
use ae_proxy.TcpConnection.{TcpConnection, set_wrapper, closing}
use ae_proxy.TcpServer.{accepted, get_connection}
use ae_proxy.TcpServer.Closing.{closed_down}
use ae_proxy.TcpServer.Timed.{TimedServer, connects, times, happen, tick, on_accept}
use ae_proxy.TcpServer.Timed.Heard.{heard}
use ae_proxy.TcpServer.Timed.Idle.{
  listening, Serves, begins, continues, happen-Serves, get_connection-heard, tick-heard,
}
use ae_proxy.TcpServer.Timed.Silence.{silent, Serves-silent}

abbrev peer : List ℕ
peer = 112 ∷ []

abbrev connection : TcpConnection
connection = set_wrapper (accepted peer) 0

-- Behind the first connection, with a timeout of two seconds.
abbrev joined : TimedServer
joined = record {
  server = record {
    connections = (peer, connection) ∷ [];
    on_message_set = true;
    on_connect_close_set = true;
    on_new_connect_set = false;
    announced = [];
    notified = [];
  };
  wheel = record { index = 0; timeout_sec = 2; timer_started = true; wheel = (0 ∷ []) ∷ [] ∷ [] };
  wrappers = peer ∷ [];
}

unheard : get_connection peer (listening 2 true true).server ≡ none
unfolding get_connection lookup
unheard = refl

joins : happen (listening 2 true true) (connects peer) ≡ some joined
unfolding happen get_connection lookup update same_text bind on_accept insert get_timeout start
    new_wheel resize put contains
joins = refl

joined-Serves : Serves 2 (connects peer ∷ []) joined
joined-Serves =
    continues [] (listening 2 true true) joined (connects peer) (begins true true) unheard joins

joined_peer : get_connection peer joined.server ≡ some connection
unfolding get_connection lookup same_text
joined_peer = refl

happen-Serves_example :
    (t : TimedServer) × (happen joined times ≡ some t) × Serves 2 (times ∷ connects peer ∷ []) t
happen-Serves_example =
    happen-Serves 2 (omega arith) (omega arith) (connects peer ∷ []) joined times joined-Serves _

get_connection-heard_example : (age : ℕ) × (age < 2) × (heard peer age (connects peer ∷ []) ≡ true)
get_connection-heard_example =
    get_connection-heard 2 (omega arith) (omega arith) (connects peer ∷ []) joined peer connection
      joined-Serves joined_peer refl

tick-heard_example :
    (t : TimedServer) × (tick joined ≡ some t)
    × (((age : ℕ) × (age < 2) × (heard peer age (times ∷ connects peer ∷ []) ≡ true))
        → get_connection peer t.server ≡ some connection)
    × (((age : ℕ) → age < 2 → heard peer age (times ∷ connects peer ∷ []) ≡ false)
        → get_connection peer t.server ≡ some (closed_down connection))
tick-heard_example =
    tick-heard 2 (omega arith) (omega arith) (connects peer ∷ []) joined peer connection
      joined-Serves joined_peer refl

Serves-silent_example :
    (t : TimedServer) × Serves 2 (silent 2 (connects peer ∷ [])) t
    × ((name : List ℕ) (c : TcpConnection)
        → get_connection name t.server ≡ some c
        → c.handle ≡ closing)
Serves-silent_example =
    Serves-silent 2 (omega arith) (omega arith) (connects peer ∷ []) joined joined-Serves
