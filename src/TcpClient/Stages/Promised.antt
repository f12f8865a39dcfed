-- ===== src/TcpClient/Stages/Promised.antt =====
-- The reports of ae/tcp_client.cpp, beside the stages that it promises.
use ae_proxy.Base.{◌≡◌, ap, sym, ◌∙◌, subst, Bool, true, false, List, [], ◌∷◌, ◌++◌, some}
use mathlib.Core.Option.{bind-eq-some_iff, some-injective, none-ne-some}
use ae_proxy.TcpClient.{TcpClient, calls_on_close, calls_program, connect_close, Report}
use ae_proxy.TcpClient.Stages.{
  Stage, idle, connecting, failing, live, ending, shutting, ClientEvent, connects, answers,
  socket_closes, connection_ends, handle_closes, program_closes, stage_step, stage_run, client_step,
  client_run,
}
use ae_proxy.TcpClient.Stages.Answers.{
  Reaches, Matches, reported, program_close, connects-Reaches, answers-Reaches, refuses-Reaches,
  socket_closes-Reaches, ends-Reaches, closes_live-Reaches, closes_ended-Reaches, finishes_closing,
}

-- An answer of the right kind, where the stage and the reports are as computed.
abbrev Answered : Bool → TcpClient → ClientEvent → Stage × List Report → Type 0
Answered told c e (stage, reports) = Reaches told c e stage reports

-- What the stage takes, the client does.
stage_step-Reaches :
    (told : Bool) (stage : Stage) (c : TcpClient) (e : ClientEvent) (r : Stage × List Report)
    → Matches told stage c
    → stage_step told stage e ≡ some r
    → Answered told c e r
unfolding client_step
stage_step-Reaches told idle c connects r (known, at) h =
    subst (Answered told c connects) (some-injective _ r h) (connects-Reaches told c known at)
stage_step-Reaches told idle c (program_closes b) r (known, at) h =
    let (c', e, known', at', same) = closes_ended-Reaches told c known b at in
    subst (Answered told c (program_closes b)) (some-injective _ r h) (c', e, (known', at'))
stage_step-Reaches told connecting c (answers true name) r (known, at) h =
    subst (Answered told c (answers true name)) (some-injective _ r h)
      (answers-Reaches told c known name)
stage_step-Reaches told connecting c (answers false name) r (known, at) h =
    subst (Answered told c (answers false name)) (some-injective _ r h)
      (refuses-Reaches told c known name at.0 at.1)
stage_step-Reaches told connecting c (program_closes b) r (known, at) h =
    let (c', e, known', at', same) = closes_ended-Reaches told c known b at.0 in
    subst (Answered told c (program_closes b)) (some-injective _ r h)
      (c', e, (known', (at', same ∙ at.1)))
stage_step-Reaches told failing c socket_closes r (known, at) h =
    subst (Answered told c socket_closes) (some-injective _ r h)
      (socket_closes-Reaches told c known at)
stage_step-Reaches told failing c (program_closes b) r (known, at) h =
    let (c', e, known', at', same) = closes_ended-Reaches told c known b at in
    subst (Answered told c (program_closes b)) (some-injective _ r h) (c', e, (known', at'))
stage_step-Reaches told live c connection_ends r (known, (conn, found, at)) h =
    subst (Answered told c connection_ends) (some-injective _ r h)
      (ends-Reaches told c known conn found at)
stage_step-Reaches told live c (program_closes b) r (known, (conn, found, at)) h =
    subst (Answered told c (program_closes b)) (some-injective _ r h)
      (closes_live-Reaches told c known b conn found at)
stage_step-Reaches told ending c handle_closes r (known, at) h =
    let (c', e, known', at') = finishes_closing told c known calls_on_close at in
    subst (Answered told c handle_closes) (some-injective _ r h)
      (c', e ∙ (λ i. (c', reported told c' connect_close known' i)), (known', at'))
stage_step-Reaches told (shutting b) c handle_closes r (known, at) h =
    let (c', e, known', at') = finishes_closing told c known (calls_program b) at in
    subst (Answered told c handle_closes) (some-injective _ r h)
      (c', e ∙ (λ i. (c', program_close b c' i)), (known', at'))
stage_step-Reaches told stage c e r at h = absurd (none-ne-some r h)

-- Whatever libuv and the program do to a client, in an order that the stages take, the program is told
-- exactly what the stages say: a success or a failure for each connect that libuv answers, a close
-- for each connection that ends, and each of its own closes, each once, and with no other report;
-- and the client is then at the last stage again. The client is at the first stage when the events
-- begin, as a new one is at `idle`.
pub client_run-stage_run :
    (told : Bool) (stage last : Stage) (c : TcpClient) (events : List ClientEvent)
    (reports : List Report)
    → Matches told stage c
    → stage_run told stage events ≡ some (last, reports)
    → ((client_run c events).1 ≡ reports) × Matches told last (client_run c events).0
unfolding client_run stage_run
client_run-stage_run told stage last c [] reports at h =
    let same = some-injective (stage, []) (last, reports) h in
    (ap (λ r. r.1) same, subst (λ r. Matches told r.0 c) same at)
client_run-stage_run told stage last c (e ∷ events) reports at h =
    let ((stage1, first), steps, h1) = (bind-eq-some_iff (stage_step told stage e) _).0 h in
    let ((last1, more), runs, h2) = (bind-eq-some_iff (stage_run told stage1 events) _).0 h1 in
    let (c1, does, at1) = stage_step-Reaches told stage c e (stage1, first) at steps in
    let (tells, ends) = client_run-stage_run told stage1 last1 c1 events more at1 runs in
    let same = some-injective (last1, first ++ more) (last, reports) h2 in
    (
      ap (λ x. x.1 ++ (client_run x.0 events).1) does
          ∙ (ap (λ xs. first ++ xs) tells ∙ ap (λ r. r.1) same),
      subst (λ r. Matches told r.0 (client_run (client_step c e).0 events).0) same
          (subst (λ x. Matches told last1 (client_run x.0 events).0) (sym does) ends),
    )
