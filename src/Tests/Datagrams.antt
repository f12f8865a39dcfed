-- ===== src/Tests/Datagrams.antt =====
-- The requests of a UDP socket.
use ae_proxy.Base.{◌≡◌, ◌+◌, refl, List, [], ◌∷◌, some, ℤ, failure}
use mathlib.Core.Option.{bind}
use ae_proxy.SocketAddr.{SocketAddr, new_addr, ipv4}
use ae_proxy.UdpSocket.Sending.{
  Requests, SendEvent, sends, answers_send, send, sent, send_step, send_run, refusals,
  send_run-refusals,
}

abbrev target : SocketAddr
target = new_addr (104 ∷ []) 53 ipv4

abbrev none_allocated : Requests
none_allocated = record { allocated = 0; in_flight = 0 }

-- Two sends are taken, one is refused, and one is answered.
abbrev traffic : List SendEvent
traffic =
    sends target (1 ∷ []) (ℤ.pos 0)
    ∷ sends target (2 ∷ []) failure
    ∷ sends target (3 ∷ []) (ℤ.pos 0)
    ∷ answers_send (ℤ.pos 0)
    ∷ []

abbrev after_traffic : Requests
after_traffic = record { allocated = 2; in_flight = 1 }

traffic_run : send_run none_allocated traffic ≡ some after_traffic
unfolding send_run send_step send sent bind
traffic_run = refl

send_run-refusals_example :
    after_traffic.allocated ≡ after_traffic.in_flight + (0 + refusals traffic)
send_run-refusals_example =
    send_run-refusals none_allocated after_traffic traffic 0 refl traffic_run
