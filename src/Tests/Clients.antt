-- ===== src/Tests/Clients.antt =====
-- A client through two connects.
use ae_proxy.Base.{ℕ, ◌≡◌, refl, inl, true, false, List, [], ◌∷◌, ◌++◌, some, none}
use mathlib.Core.Option.{bind}
use ae_proxy.TcpClient.{
  new_client, connect_success, connect_fail, connect_close, Report, reports_status, calls_close,
}
use ae_proxy.TcpClient.Stages.{
  idle, ending, ClientEvent, connects, answers, socket_closes, connection_ends, handle_closes,
  program_closes, stage_run, client_run,
}
use ae_proxy.TcpClient.Stages.Answers.{Matches}
use ae_proxy.TcpClient.Stages.Promised.{client_run-stage_run}
use ae_proxy.TcpClient.Stages.Early.{client_run_early}

abbrev real_server : List ℕ
real_server = 104 ∷ []

-- A connect that fails, one that succeeds and whose connection ends, a close of what has ended, and one
-- that the program closes.
abbrev attempts : List ClientEvent
attempts =
    connects
    ∷ answers false real_server
    ∷ socket_closes
    ∷ connects
    ∷ answers true real_server
    ∷ connection_ends
    ∷ handle_closes
    ∷ program_closes true
    ∷ connects
    ∷ answers true real_server
    ∷ program_closes true
    ∷ handle_closes
    ∷ []

abbrev told : List Report
told =
    reports_status connect_fail
    ∷ reports_status connect_success
    ∷ reports_status connect_close
    ∷ calls_close
    ∷ reports_status connect_success
    ∷ calls_close
    ∷ []

attempts_run : stage_run true idle attempts ≡ some (idle, told)
unfolding stage_run bind
attempts_run = refl

client_run-stage_run_example :
    ((client_run (new_client true) attempts).1 ≡ told)
    × Matches true idle (client_run (new_client true) attempts).0
client_run-stage_run_example =
    client_run-stage_run true idle idle (new_client true) attempts told (refl, inl refl)
      attempts_run

-- A close while the connection is ending is no event that a stage takes.
close_too_early :
    stage_run true idle
      (connects ∷ answers true real_server ∷ connection_ends ∷ program_closes true ∷ [])
    ≡ none
unfolding stage_run bind
close_too_early = refl

-- A client whose connection has ended.
abbrev lost : List ClientEvent
lost = connects ∷ answers true real_server ∷ connection_ends ∷ []

lost_run : stage_run true idle lost ≡ some (ending, reports_status connect_success ∷ [])
unfolding stage_run bind
lost_run = refl

client_run_early_example :
    ((client_run (new_client true) (lost ++ handle_closes ∷ [])).1
      ≡ reports_status connect_success ∷ reports_status connect_close ∷ [])
    × Matches true idle (client_run (new_client true) (lost ++ handle_closes ∷ [])).0
    × ((client_run (new_client true) (lost ++ program_closes true ∷ handle_closes ∷ [])).1
        ≡ reports_status connect_success ∷ calls_close ∷ calls_close ∷ [])
    × Matches true idle
        (client_run (new_client true) (lost ++ program_closes true ∷ handle_closes ∷ [])).0
client_run_early_example =
    client_run_early true true idle (new_client true) lost (reports_status connect_success ∷ [])
      (refl, inl refl) lost_run
