-- ===== src/TcpClient/Stages/Early.antt =====
-- A close by the program of ae/tcp_client.cpp that comes too early: the connection has ended, and libuv
-- still closes its handle.
use ae_proxy.Base.{
  ◌≡◌, refl, ap, sym, ◌∙◌, subst, Bool, List, [], ◌∷◌, ◌++◌, append-nil, append_assoc, some,
}
use mathlib.Core.Option.{bind}
use ae_proxy.TcpClient.{
  TcpClient, calls_on_close, connect_close, Report, reports_status, calls_close,
}
use ae_proxy.TcpClient.Stages.{
  Stage, idle, ending, shutting, ClientEvent, handle_closes, program_closes, told_status, stage_run,
  client_step, client_run,
}
use ae_proxy.TcpClient.Stages.Answers.{Matches, closes_closing-Reaches}
use ae_proxy.TcpClient.Stages.Promised.{client_run-stage_run}

client_run-append :
    (c : TcpClient) (events later : List ClientEvent)
    → client_run c (events ++ later) ≡ (
      (client_run (client_run c events).0 later).0,
      (client_run c events).1 ++ (client_run (client_run c events).0 later).1,
    )
unfolding client_run
client_run-append c [] later = refl
client_run-append c (e ∷ events) later =
    let (c', reports) = client_step c e in
    ap (λ r. (r.0, reports ++ r.1)) (client_run-append c' events later)
    ∙ ap (λ xs. ((client_run (client_run c' events).0 later).0, xs))
        (sym (
          append_assoc reports (client_run c' events).1
            (client_run (client_run c' events).0 later).1))

-- The handle closes: what the stage says is told, and the client is idle.
handle_closes_run :
    (told : Bool) (stage : Stage) (c : TcpClient) (reports : List Report)
    → Matches told stage c
    → stage_run told stage (handle_closes ∷ []) ≡ some (idle, reports ++ [])
    → ((client_run c (handle_closes ∷ [])).1 ≡ reports)
      × Matches told idle (client_run c (handle_closes ∷ [])).0
handle_closes_run told stage c reports at taken =
    let (tells, ends) = client_run-stage_run told stage idle c (handle_closes ∷ []) _ at taken in
    (tells ∙ append-nil reports, ends)

too_early :
    (told b : Bool) (c : TcpClient)
    → Matches told ending c
    → ((client_run c (program_closes b ∷ handle_closes ∷ [])).1
        ≡ told_status b calls_close ++ told_status b calls_close)
      × Matches told idle (client_run c (program_closes b ∷ handle_closes ∷ [])).0
unfolding client_run stage_run bind
too_early told b c (known, at) =
    let (c', does, at') = closes_closing-Reaches told c known calls_on_close b at in
    let (tells, ends) =
      handle_closes_run told (shutting b) c' (told_status b calls_close) at' refl in
    (
      ap (λ r. r.1 ++ (client_run r.0 (handle_closes ∷ [])).1) does
          ∙ ap (◌++◌ (told_status b calls_close)) tells,
      subst (λ r. Matches told idle (client_run r.0 (handle_closes ∷ [])).0) (sym does) ends,
    )

-- After whatever libuv and the program have done to a client, in an order that the stages take and that
-- leaves its connection ending: when libuv has closed the handle, ConnectClose is reported, once,
-- if the program has given a callback for it. But if the program calls `close` before that, then
-- nothing reports this end, and the callback of `close`, if there is one, is called twice, at once
-- and when libuv has closed the handle. Either way the client is idle then. The client is at the first
-- stage when the events begin, as a new one is at `idle`.
pub client_run_early :
    (told b : Bool) (stage : Stage) (c : TcpClient) (events : List ClientEvent)
    (reports : List Report)
    → Matches told stage c
    → stage_run told stage events ≡ some (ending, reports)
    → ((client_run c (events ++ handle_closes ∷ [])).1
        ≡ reports ++ told_status told (reports_status connect_close))
      × Matches told idle (client_run c (events ++ handle_closes ∷ [])).0
      × ((client_run c (events ++ program_closes b ∷ handle_closes ∷ [])).1
          ≡ reports ++ (told_status b calls_close ++ told_status b calls_close))
      × Matches told idle (client_run c (events ++ program_closes b ∷ handle_closes ∷ [])).0
unfolding stage_run bind
client_run_early told b stage c events reports at taken =
    let (tells, ends) = client_run-stage_run told stage ending c events reports at taken in
    let c' = (client_run c events).0 in
    let in_time =
      handle_closes_run told ending c' (told_status told (reports_status connect_close)) ends
        refl in
    let early = too_early told b c' ends in
    let one = client_run-append c events (handle_closes ∷ []) in
    let two = client_run-append c events (program_closes b ∷ handle_closes ∷ []) in
    (
      ap (λ r. r.1) one
          ∙ ap (λ xs. xs ++ (client_run c' (handle_closes ∷ [])).1) tells
          ∙ ap (◌++◌ reports) in_time.0,
      subst (λ r. Matches told idle r.0) (sym one) in_time.1,
      ap (λ r. r.1) two
          ∙ ap (λ xs. xs ++ (client_run c' (program_closes b ∷ handle_closes ∷ [])).1) tells
          ∙ ap (◌++◌ reports) early.0,
      subst (λ r. Matches told idle r.0) (sym two) early.1,
    )
