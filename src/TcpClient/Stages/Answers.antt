-- ===== src/TcpClient/Stages/Answers.antt =====
-- ae/tcp_client.cpp after each event, beside the stage that it promises.
use ae_proxy.Base.{
  ℕ, ◌≡◌, ◌⊎◌, inl, inr, refl, ap, ◌∙◌, Bool, true, false, List, [], ◌∷◌, map, Option, none, some,
  if◌then◌else◌,
}
use ae_proxy.TcpConnection.{
  TcpConnection, opened, closing, closed, Effect, close, close_handle, calls_close_complete,
}
use ae_proxy.TcpClient.{
  TcpClient, ConnectStatus, CloseCallback, calls_on_close, calls_program, client_connection,
  connect, connect_success, connect_fail, on_connect, on_connect_close, after_effects, close_socket,
  close_current, close_program, client_close, client_finishes, finish_client, finish_connection,
  run_close_callback, run_connect_callback, with_connection, Report, reports_status, calls_close,
}
use ae_proxy.TcpClient.Stages.{
  Stage, idle, connecting, failing, live, ending, shutting, ClientEvent, connects, answers,
  socket_closes, connection_ends, program_closes, told_status, client_step,
}

-- No connection, or one whose handle is closed.
abbrev pub HasEnded : Option TcpConnection → Type 0
HasEnded o = (o ≡ none) ⊎ ((conn : TcpConnection) × (o ≡ some conn) × (conn.handle ≡ closed))

-- Closing, with the callback that the client gave.
abbrev pub IsClosing : TcpClient → CloseCallback → Type 0
IsClosing c callback =
    (conn : TcpConnection) × (c.connection ≡ some conn)
    × (conn.handle ≡ closing)
    × (conn.close_complete_set ≡ true)
    × (c.close_callback ≡ callback)

abbrev pub AtStage : Stage → TcpClient → Type 0
AtStage idle c = HasEnded c.connection
AtStage connecting c = HasEnded c.connection × (c.socket ≡ opened)
AtStage failing c = HasEnded c.connection
AtStage live c = (conn : TcpConnection) × (c.connection ≡ some conn) × (conn.handle ≡ opened)
AtStage ending c = IsClosing c calls_on_close
AtStage (shutting b) c = IsClosing c (calls_program b)

abbrev pub Matches : Bool → Stage → TcpClient → Type 0
Matches told stage c = (c.connect_callback_set ≡ told) × AtStage stage c

abbrev pub Reaches : Bool → TcpClient → ClientEvent → Stage → List Report → Type 0
Reaches told c e stage reports =
    (c' : TcpClient) × (client_step c e ≡ (c', reports)) × Matches told stage c'

-- The connection once its callbacks are exchanged.
abbrev exchanged : TcpConnection → TcpConnection
exchanged conn = record conn {
  reading = false;
  on_message_set = false;
  on_connect_close_set = false;
  close_complete_set = true;
}

map-told_status :
    (b : Bool) (status : ConnectStatus)
    → map reports_status (if b then status ∷ [] else []) ≡ told_status b (reports_status status)
map-told_status true status = refl
map-told_status false status = refl

pub reported :
    (told : Bool) (c : TcpClient) (status : ConnectStatus)
    → c.connect_callback_set ≡ told
    → map reports_status (run_connect_callback c status) ≡ told_status told (reports_status status)
reported told c status known =
    ap (λ b. map reports_status (if b then status ∷ [] else [])) known ∙ map-told_status told status

pub program_close :
    (b : Bool) (c : TcpClient) → run_close_callback (calls_program b) c ≡ told_status b calls_close
program_close true c = refl
program_close false c = refl

module _ (told : Bool) (c : TcpClient) (known : c.connect_callback_set ≡ told) where
  pub connects-Reaches : HasEnded c.connection → Reaches told c connects connecting []
  unfolding client_step
  connects-Reaches h = (connect c, refl, (known, (h, refl)))

  pub answers-Reaches :
      (name : List ℕ)
      → Reaches told c (answers true name) live (told_status told (reports_status connect_success))
  unfolding client_step on_connect
  answers-Reaches name =
      let c' = record c { connection = some (client_connection name) } in
      (
        c',
        (λ i. (c', reported told c' connect_success known i)),
        (known, (client_connection name, refl, refl)),
      )

  pub refuses-Reaches :
      (name : List ℕ)
      → HasEnded c.connection
      → c.socket ≡ opened
      → Reaches told c (answers false name) failing []
  unfolding client_step on_connect
  refuses-Reaches name h open_socket =
      (record c { socket = close_socket c.socket }, refl, (known, h))

  pub socket_closes-Reaches :
      HasEnded c.connection
      → Reaches told c socket_closes idle (told_status told (reports_status connect_fail))
  unfolding client_step
  socket_closes-Reaches h = (
    record c { socket = closed },
    (λ i. (record c { socket = closed }, reported told c connect_fail known i)),
    (known, h),
  )

  -- The connection's `close` while its handle is open.
  closed_open :
      (conn : TcpConnection)
      → conn.handle ≡ opened
      → close conn true ≡ (record (exchanged conn) { handle = closing }, [])
  unfolding close
  closed_open conn h = ap (λ handle. close_handle handle (exchanged conn)) h

  pub ends-Reaches :
      (conn : TcpConnection)
      → c.connection ≡ some conn
      → conn.handle ≡ opened
      → Reaches told c connection_ends ending []
  unfolding client_step on_connect_close
  ends-Reaches conn found h =
      let c1 = record c { close_callback = calls_on_close } in
      let conn' = record (exchanged conn) { handle = closing } in
      let c' = record c1 { connection = some conn' } in
      let after : TcpClient × List Effect → TcpClient × List Report = λ r. after_effects r.0 r.1 in
      (
        c',
        ap (λ o. after (close_current o c)) found
            ∙ ap (λ r. after (with_connection c1 r)) (closed_open conn h),
        (known, (conn', refl, refl, refl, refl)),
      )

  pub closes_live-Reaches :
      (b : Bool) (conn : TcpConnection)
      → c.connection ≡ some conn
      → conn.handle ≡ opened
      → Reaches told c (program_closes b) (shutting b) []
  unfolding client_step client_close
  closes_live-Reaches b conn found h =
      let conn' = record (exchanged conn) { handle = closing } in
      let c' = record c { connection = some conn'; close_callback = calls_program b } in
      let after : TcpConnection × List Effect → TcpClient × List Report = λ r.
        after_effects (record c { connection = some r.0; close_callback = calls_program b }) r.1 in
      (
        c',
        ap (λ o. close_program o b c) found ∙ ap after (closed_open conn h),
        (known, (conn', refl, refl, refl, refl)),
      )

  -- Without a connection, or with one that has ended, `close` answers at once.
  pub closes_ended-Reaches :
      (b : Bool)
      → HasEnded c.connection
      → (c' : TcpClient) × (client_step c (program_closes b) ≡ (c', told_status b calls_close))
        × (c'.connect_callback_set ≡ told)
        × HasEnded c'.connection
        × (c'.socket ≡ c.socket)
  unfolding client_step client_close close
  closes_ended-Reaches b (inl gone) = (c, ap (λ o. close_program o b c) gone, known, inl gone, refl)
  closes_ended-Reaches b (inr (conn, found, h)) =
      let c' = record c { connection = some (exchanged conn); close_callback = calls_program b } in
      let after : TcpConnection × List Effect → TcpClient × List Report = λ r.
        after_effects (record c { connection = some r.0; close_callback = calls_program b }) r.1 in
      (
        c',
        ap (λ o. close_program o b c) found
            ∙ (ap (λ handle. after (close_handle handle (exchanged conn))) h
                ∙ (λ i. (c', program_close b c' i))),
        known,
        inr (exchanged conn, refl, h),
        refl,
      )

  -- With a connection that is closing already `close` answers at once too, and puts its callback in
  -- place of the one that waits.
  pub closes_closing-Reaches :
      (waiting : CloseCallback) (b : Bool)
      → IsClosing c waiting
      → Reaches told c (program_closes b) (shutting b) (told_status b calls_close)
  unfolding client_step client_close close
  closes_closing-Reaches waiting b (conn, found, h, has_callback, same) =
      let c' = record c { connection = some (exchanged conn); close_callback = calls_program b } in
      let after : TcpConnection × List Effect → TcpClient × List Report = λ r.
        after_effects (record c { connection = some r.0; close_callback = calls_program b }) r.1 in
      (
        c',
        ap (λ o. close_program o b c) found
            ∙ (ap (λ handle. after (close_handle handle (exchanged conn))) h
                ∙ (λ i. (c', program_close b c' i))),
        (known, (exchanged conn, refl, h, refl, refl)),
      )

  -- libuv closes the handle, and the callback that the client gave runs.
  pub finishes_closing :
      (callback : CloseCallback)
      → IsClosing c callback
      → (c' : TcpClient) × (client_finishes c ≡ (c', run_close_callback callback c'))
        × (c'.connect_callback_set ≡ told)
        × HasEnded c'.connection
  unfolding client_finishes
  finishes_closing given (conn, found, h, has_callback, same) =
      let c' = record c { connection = some (record conn { handle = closed }) } in
      (
        c',
        ap (λ o. finish_client o c) found
            ∙ (ap (λ handle. finish_connection handle conn c) h
                ∙ (ap
                      (λ b.
                        after_effects c' (if b then calls_close_complete conn.name ∷ [] else []))
                      has_callback
                    ∙ (λ i. (c', run_close_callback (same i) c')))),
        known,
        inr (record conn { handle = closed }, refl, refl),
      )
