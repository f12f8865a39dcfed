-- ===== src/TcpServer/Phases/Runs.antt =====
-- Runs of ae/tcp_server.cpp, against what the server promises.
use ae_proxy.Base.{◌≡◌, inl, inr, refl, List, [], ◌∷◌}
use mathlib.Core.Option.{bind, map}
use ae_proxy.TcpServer.{TcpServer, Event}
use ae_proxy.TcpServer.Table.{AreAlive}
use ae_proxy.TcpServer.Phases.{promise_run, run, view}
use ae_proxy.TcpServer.Phases.Steps.{step-Agrees}

-- However the events come, the server does what it promises: seen by the phase of each name and by
-- the connections it announced and reported, a run of the code is the run of the promise, and it frees
-- a connection that libuv has not closed, or takes a name that is in use, exactly where the promise
-- refuses the event. The connections are at first open with the callback of their end, or closing with
-- the one that removes them, as those of an empty server are.
pub view-run :
    (s : TcpServer) (events : List Event)
    → AreAlive s.connections
    → map view (run s events) ≡ promise_run (view s) events
unfolding run promise_run bind
view-run s [] alive = refl
view-run s (e ∷ events) alive = elim (step-Agrees s e alive) [
  | inl (stops, refused) ↦ rw stops (rw refused refl)
  | inr (s', happens, alive', moves) ↦ rw happens (rw moves (view-run s' events alive'))
]
