-- ===== src/TcpServer/Phases/Steps.antt =====
-- The events of ae/tcp_server.cpp, beside what the server promises.
use ae_proxy.Base.{
  ℕ, ◌≡◌, ◌⊎◌, inl, inr, refl, ap, sym, ◌∙◌, Bool, true, false, List, none, some, if◌then◌else◌,
  Bool-cases, same_text, same_text_eq, same_text_self, update, lookup, erase, lookup-erase_self,
  lookup-erase_ne, different_text, Option-cases,
}
use ae_proxy.TcpConnection.{TcpConnection, opened}
use ae_proxy.TcpServer.{
  TcpServer, get_connection, notify, accept_new, accepted, handle_finished, Event, accepts, ends,
  finishes, closes, step,
}
use ae_proxy.TcpServer.Table.{
  AreAlive, lookup-AreAlive, erase-AreAlive, lookup-update, lookup-update_ne,
}
use ae_proxy.TcpServer.Closing.{
  closed_down, after_close, close_connection-opened, close_connection-closing, finishes-closing,
  socket_closed-opened, socket_closed-quiet, after_close-AreAlive, close_connection-none,
}
use ae_proxy.TcpServer.Phases.{
  Phase, absent, serving, ending, event_name, advance, add_name, announce, report, set_phase, moved,
  promise_step, phase_of, handle_phase, view,
}

add_name-notify :
    (reports : Bool) (name : List ℕ) (earlier : List (List ℕ))
    → add_name reports name earlier ≡ notify reports name earlier
add_name-notify true name earlier = refl
add_name-notify false name earlier = refl

-- Both refuse the event, or both take it and agree afterwards.
abbrev pub Agrees : TcpServer → Event → Type 0
Agrees s e =
    ((step s e ≡ none) × (promise_step (view s) e ≡ none))
    ⊎ ((s' : TcpServer) × (step s e ≡ some s')
        × AreAlive s'.connections
        × (promise_step (view s) e ≡ some (view s')))

-- The other names show what they did.
abbrev pub KeepsOthers : List ℕ → TcpServer → TcpServer → Type 0
KeepsOthers key s s' =
    (name : List ℕ)
    → same_text name key ≡ false
    → lookup name s'.connections ≡ lookup name s.connections

module _ (s s' : TcpServer) where
  set_phase-phase_of :
      (key : List ℕ) (p : Phase) (name : List ℕ)
      → phase_of (lookup key s'.connections) ≡ p
      → KeepsOthers key s s'
      → set_phase key p ((view s).phase) name ≡ (view s').phase name
  unfolding set_phase view get_connection
  set_phase-phase_of key p name here there = elim (Bool-cases (same_text name key)) [
    | inl h ↦
        rw h
          (sym here ∙ ap (λ x. phase_of (lookup x s'.connections)) (sym (same_text_eq name key h)))
    | inr h ↦ rw h (ap phase_of (sym (there name h)))
  ]

  promise_step-view :
      (e : Event) (old p : Phase)
      → phase_of (lookup (event_name e) s.connections) ≡ old
      → advance e old ≡ some p
      → phase_of (lookup (event_name e) s'.connections) ≡ p
      → KeepsOthers (event_name e) s s'
      → s.on_connect_close_set ≡ s'.on_connect_close_set
      → report e old s.on_connect_close_set s.notified ≡ s'.notified
      → s.on_new_connect_set ≡ s'.on_new_connect_set
      → announce e s.on_new_connect_set s.announced ≡ s'.announced
      → promise_step (view s) e ≡ some (view s')
  unfolding promise_step view get_connection
  promise_step-view e old p before moves here there same told same_too news =
      ap (λ q. moved (view s) e (advance e q)) before
      ∙ (ap (moved (view s) e) moves ∙ (λ i. some (record {
        phase = λ name. set_phase-phase_of (event_name e) p name here there i;
        reports = same i;
        reported = (ap (λ q. report e q s.on_connect_close_set s.notified) before ∙ told) i;
        announces = same_too i;
        announced = news i;
      })))

module _ (s : TcpServer) (e : Event) where
  promise_step-refused :
      (old : Phase)
      → phase_of (lookup (event_name e) s.connections) ≡ old
      → advance e old ≡ none
      → promise_step (view s) e ≡ none
  unfolding promise_step view get_connection
  promise_step-refused old before stops =
      ap (λ q. moved (view s) e (advance e q)) before ∙ ap (moved (view s) e) stops

  -- An event that changes nothing.
  stays :
      (old : Phase)
      → AreAlive s.connections
      → step s e ≡ some s
      → phase_of (lookup (event_name e) s.connections) ≡ old
      → advance e old ≡ some old
      → report e old s.on_connect_close_set s.notified ≡ s.notified
      → announce e s.on_new_connect_set s.announced ≡ s.announced
      → Agrees s e
  stays old alive happens before moves told quiet = inr (
    s,
    happens,
    alive,
    promise_step-view s s e old old before moves before (λ name h. refl) refl told refl quiet,
  )

-- Closing an open connection.
module _ (s : TcpServer) (name : List ℕ) (c : TcpConnection) (alive : AreAlive s.connections)
    (found : lookup name s.connections ≡ some c) where
  closes_down :
      (e : Event)
      → event_name e ≡ name
      → step s e ≡ some (after_close name c s)
      → c.handle ≡ opened
      → advance e serving ≡ some ending
      → report e serving s.on_connect_close_set s.notified ≡ s.notified
      → announce e s.on_new_connect_set s.announced ≡ s.announced
      → Agrees s e
  closes_down e same happens h moves told quiet = inr (
    after_close name c s,
    happens,
    after_close-AreAlive name c s alive,
    promise_step-view s (after_close name c s) e serving ending
        (ap (λ x. phase_of (lookup x s.connections)) same ∙ (ap phase_of found ∙ ap handle_phase h))
        moves
        (ap (λ x. phase_of (lookup x (update name (closed_down c) s.connections))) same
          ∙ ap phase_of (lookup-update name (closed_down c) c s.connections found))
        (λ other apart.
          lookup-update_ne other name (closed_down c) s.connections
            (different_text other name (ap (same_text other) (sym same) ∙ apart)))
        refl told refl quiet,
  )

module _ (s : TcpServer) (name : List ℕ) (alive : AreAlive s.connections) where
  accepts-Agrees : Agrees s (accepts name)
  unfolding step get_connection AreAlive lookup
  accepts-Agrees = elim (Option-cases (lookup name s.connections)) [
    | inl e ↦ inr (
      accept_new name s,
      rw e refl,
      (inl (refl, refl), alive),
      promise_step-view s _ (accepts name) absent serving (ap phase_of e) refl
          (ap (λ b. phase_of (if b then some (accepted name) else lookup name s.connections))
            (same_text_self name))
          (λ other apart.
            ap (λ b. if b then some (accepted name) else lookup other s.connections) apart)
          refl refl refl (add_name-notify s.on_new_connect_set name s.announced),
    )
    | inr (c, e) ↦ inl (
      rw e refl,
      elim (lookup-AreAlive name s.connections c alive e) [
        | inl (h, k) ↦
            promise_step-refused s (accepts name) serving (ap phase_of e ∙ ap handle_phase h) refl
        | inr (h, k, l) ↦
            promise_step-refused s (accepts name) ending (ap phase_of e ∙ ap handle_phase h) refl
      ],
    )
  ]

  ends-Agrees : Agrees s (ends name)
  unfolding step get_connection
  ends-Agrees = elim (Option-cases (lookup name s.connections)) [
    | inl e ↦ stays s (ends name) absent alive (rw e refl) (ap phase_of e) refl refl refl
    | inr (c, e) ↦ elim (lookup-AreAlive name s.connections c alive e) [
      | inl (h, k) ↦
          closes_down s name c alive e (ends name) refl (rw e (socket_closed-opened name c s e h k))
            h refl refl refl
      | inr (h, k, l) ↦
          stays s (ends name) ending alive (rw e (socket_closed-quiet name c s k))
            (ap phase_of e ∙ ap handle_phase h) refl refl refl
    ]
  ]

  finishes-Agrees : Agrees s (finishes name)
  unfolding step get_connection
  finishes-Agrees = elim (Option-cases (lookup name s.connections)) [
    | inl e ↦ stays s (finishes name) absent alive (rw e refl) (ap phase_of e) refl refl refl
    | inr (c, e) ↦ elim (lookup-AreAlive name s.connections c alive e) [
      | inl (h, k) ↦
          stays s (finishes name) serving alive
            (rw e (ap (λ handle. handle_finished handle c name s) h))
            (ap phase_of e ∙ ap handle_phase h) refl refl refl
      | inr (h, k, l) ↦ inr (
        record s {
          connections = erase name s.connections;
          notified = notify s.on_connect_close_set name s.notified;
        },
        finishes-closing name c s e h l,
        erase-AreAlive name s.connections alive,
        promise_step-view s _ (finishes name) ending absent (ap phase_of e ∙ ap handle_phase h) refl
            (ap phase_of (lookup-erase_self name s.connections))
            (λ other apart.
              lookup-erase_ne other name s.connections (different_text other name apart))
            refl (add_name-notify s.on_connect_close_set name s.notified) refl refl,
      )
    ]
  ]

  closes-Agrees : Agrees s (closes name)
  unfolding step get_connection
  closes-Agrees = elim (Option-cases (lookup name s.connections)) [
    | inl e ↦
        stays s (closes name) absent alive (close_connection-none name s e) (ap phase_of e) refl
          refl refl
    | inr (c, e) ↦ elim (lookup-AreAlive name s.connections c alive e) [
      | inl (h, k) ↦
          closes_down s name c alive e (closes name) refl (close_connection-opened name c s e h) h
            refl refl refl
      | inr (h, k, l) ↦ inl (
        close_connection-closing name c s e h,
        promise_step-refused s (closes name) ending (ap phase_of e ∙ ap handle_phase h) refl,
      )
    ]
  ]

pub step-Agrees : (s : TcpServer) (e : Event) → AreAlive s.connections → Agrees s e
step-Agrees s (accepts name) alive = accepts-Agrees s name alive
step-Agrees s (ends name) alive = ends-Agrees s name alive
step-Agrees s (finishes name) alive = finishes-Agrees s name alive
step-Agrees s (closes name) alive = closes-Agrees s name alive
