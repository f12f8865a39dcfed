-- ===== src/Tests/Promises.antt =====
-- A server from its first connection on, beside what it promises.
use ae_proxy.Base.{
  ℕ, ◌≡◌, ◌+◌, refl, true, false, List, [], ◌∷◌, some, none, lookup, same_text, update, erase,
}
use mathlib.Core.Option.{map, bind}
use ae_proxy.TcpConnection.{closing, close}
use ae_proxy.TcpServer.{
  TcpServer, get_connection, accepted, accepts, ends, finishes, closes, Event, step,
  close_connection,
}
use ae_proxy.TcpServer.Table.{AreAlive}
use ae_proxy.TcpServer.Phases.{promise_run, run, view, phase_of}
use ae_proxy.TcpServer.Phases.Runs.{view-run}
use ae_proxy.TcpServer.Phases.Counting.{occurrences, arrivals, present, run-arrivals}

abbrev pub guest : List ℕ
guest = 112 ∷ 49 ∷ []

abbrev pub other : List ℕ
other = 112 ∷ 50 ∷ []

abbrev pub empty_server : TcpServer
empty_server = record {
  connections = [];
  on_message_set = true;
  on_connect_close_set = true;
  on_new_connect_set = true;
  announced = [];
  notified = [];
}

empty-AreAlive : AreAlive empty_server.connections
unfolding AreAlive
empty-AreAlive = _

-- One connection comes, ends and is removed, the other comes, ends twice and is still closing, and
-- the first name comes back.
abbrev visits : List Event
visits =
    accepts guest
    ∷ accepts other
    ∷ ends guest
    ∷ closes other
    ∷ finishes guest
    ∷ ends other
    ∷ accepts guest
    ∷ []

view-run_example : map view (run empty_server visits) ≡ promise_run (view empty_server) visits
view-run_example = view-run empty_server visits empty-AreAlive

-- A close of a connection that is closing is refused.
refused : run empty_server (accepts guest ∷ ends guest ∷ closes guest ∷ []) ≡ none
unfolding run step get_connection lookup same_text update erase close close_connection bind
refused = refl

abbrev after_visits : TcpServer
after_visits = record {
  connections =
      (guest, accepted guest)
      ∷ (
        other,
        record (accepted other) {
          handle = closing;
          reading = false;
          on_message_set = false;
          on_connect_close_set = false;
          close_complete_set = true;
        },
      )
      ∷ [];
  on_message_set = true;
  on_connect_close_set = true;
  on_new_connect_set = true;
  announced = guest ∷ other ∷ guest ∷ [];
  notified = guest ∷ [];
}

visited : run empty_server visits ≡ some after_visits
unfolding run step get_connection lookup same_text update erase close close_connection bind
visited = refl

run-arrivals_example :
    (occurrences guest after_visits.announced ≡ occurrences guest [] + arrivals guest visits)
    × (occurrences guest after_visits.notified
          + present (phase_of (get_connection guest after_visits))
        ≡ occurrences guest []
          + present (phase_of (get_connection guest empty_server))
          + arrivals guest visits)
run-arrivals_example =
    run-arrivals guest empty_server after_visits visits empty-AreAlive refl refl visited
