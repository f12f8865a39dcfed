-- ===== src/TcpServer/Phases.antt =====
-- What ae/tcp_server.cpp promises of a connection, without the handles and callbacks it keeps for it:
-- of each name, whether it is absent, served or ending, and the connections it announced and reported.
pub mod Steps
pub mod Runs
pub mod Counting
use ae_proxy.Base.{
  ℕ, ◌≡◌, refl, Bool, true, false, List, [], ◌∷◌, ◌++◌, Option, none, some, if◌then◌else◌,
  same_text,
}
use mathlib.Core.Option.{bind}
use ae_proxy.TcpConnection.{TcpConnection, Handle, opened, closing, closed}
use ae_proxy.TcpServer.{TcpServer, get_connection, Event, accepts, ends, finishes, closes, step}

pub data Phase : Type 0 where
  absent : Phase
  serving : Phase
  ending : Phase

pub record Promise : Type 0 where
  pub phase : List ℕ → Phase
  pub reports : Bool
  pub reported : List (List ℕ)
  pub announces : Bool
  pub announced : List (List ℕ)

abbrev pub event_name : Event → List ℕ
event_name (accepts name) = name
event_name (ends name) = name
event_name (finishes name) = name
event_name (closes name) = name

-- The phase after an event; `none` is an event that the program must not cause.
abbrev pub advance : Event → Phase → Option Phase
advance (accepts name) absent = some serving
advance (accepts name) serving = none
advance (accepts name) ending = none
advance (ends name) absent = some absent
advance (ends name) serving = some ending
advance (ends name) ending = some ending
advance (finishes name) absent = some absent
advance (finishes name) serving = some serving
advance (finishes name) ending = some absent
advance (closes name) absent = some absent
advance (closes name) serving = some ending
advance (closes name) ending = none

abbrev pub add_name : Bool → List ℕ → List (List ℕ) → List (List ℕ)
add_name reports name earlier = if reports then earlier ++ (name ∷ []) else earlier

-- Only the end of an ending connection is reported.
abbrev pub report : Event → Phase → Bool → List (List ℕ) → List (List ℕ)
report (finishes name) ending reports earlier = add_name reports name earlier
report (finishes _) _ reports earlier = earlier
report (accepts _) _ reports earlier = earlier
report (ends _) _ reports earlier = earlier
report (closes _) _ reports earlier = earlier

-- Each new connection is announced.
abbrev pub announce : Event → Bool → List (List ℕ) → List (List ℕ)
announce (accepts name) announces earlier = add_name announces name earlier
announce (ends _) announces earlier = earlier
announce (finishes _) announces earlier = earlier
announce (closes _) announces earlier = earlier

unfoldable pub set_phase : List ℕ → Phase → (List ℕ → Phase) → List ℕ → Phase
set_phase key p phase name = if same_text name key then p else phase name

abbrev pub moved : Promise → Event → Option Phase → Option Promise
moved v e none = none
moved v e (some p) = some (record v {
  phase = set_phase (event_name e) p v.phase;
  reported = report e (v.phase (event_name e)) v.reports v.reported;
  announced = announce e v.announces v.announced;
})

unfoldable pub promise_step : Promise → Event → Option Promise
promise_step v e = moved v e (advance e (v.phase (event_name e)))

unfoldable pub promise_run : Promise → List Event → Option Promise
promise_run v [] = some v
promise_run v (e ∷ es) = bind (promise_step v e) (λ v'. promise_run v' es)

-- Events that come to the server one after the other.
unfoldable pub run : TcpServer → List Event → Option TcpServer
run s [] = some s
run s (e ∷ es) = bind (step s e) (λ s'. run s' es)

abbrev pub handle_phase : Handle → Phase
handle_phase opened = serving
handle_phase closing = ending
handle_phase closed = ending

abbrev pub phase_of : Option TcpConnection → Phase
phase_of none = absent
phase_of (some c) = handle_phase c.handle

-- The server, as its promise sees it.
unfoldable pub view : TcpServer → Promise
view s = record {
  phase = λ name. phase_of (get_connection name s);
  reports = s.on_connect_close_set;
  reported = s.notified;
  announces = s.on_new_connect_set;
  announced = s.announced;
}
