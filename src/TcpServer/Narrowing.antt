-- ===== src/TcpServer/Narrowing.antt =====
-- The events of ae/tcp_server.cpp that bring no connection.
use ae_proxy.Base.{
  ℕ, ◌≡◌, ◌⊎◌, inl, inr, refl, ap, sym, ◌∙◌, false, List, Bool-cases, same_text, same_text_eq,
  same_text_self, update, none, some, lookup, erase, Option-cases,
}
use mathlib.Core.Option.{some-injective, none-ne-some}
use ae_proxy.TcpConnection.{TcpConnection, opened}
use ae_proxy.TcpServer.{
  TcpServer, get_connection, notify, handle_finished, Event, ends, finishes, closes, step,
}
use ae_proxy.TcpServer.Table.{
  AreAlive, lookup-AreAlive, erase-AreAlive, lookup-update, lookup-update_ne, lookup-erase,
}
use ae_proxy.TcpServer.Closing.{
  closed_down, after_close, close_connection-opened, finishes-closing, socket_closed-opened,
  socket_closed-quiet, after_close-AreAlive, close_connection-none,
}
use mathlib.Core.Bool.{true≢false}

-- The connections of the second are among those of the first, with their wrappers, and the open ones
-- are as they were.
unfoldable pub Narrows : TcpServer → TcpServer → Type 0
Narrows s s' =
    (name : List ℕ) (c' : TcpConnection)
    → lookup name s'.connections ≡ some c'
    → (c : TcpConnection) × (lookup name s.connections ≡ some c)
      × (c'.wrapper ≡ c.wrapper)
      × ((c'.on_connect_close_set ≡ false) ⊎ (c' ≡ c))

pub Narrows-same : (s : TcpServer) → Narrows s s
unfolding Narrows
Narrows-same s name c e = (c, e, refl, inr refl)

pub Narrows-trans : (s1 s2 s3 : TcpServer) → Narrows s1 s2 → Narrows s2 s3 → Narrows s1 s3
unfolding Narrows
Narrows-trans s1 s2 s3 m n name c3 e3 =
    let (c2, e2, wraps2, kept2) = n name c3 e3 in
    let (c1, e1, wraps1, kept1) = m name c2 e2 in
    (
      c1,
      e1,
      wraps2 ∙ wraps1,
      elim kept2 [
        | inl shut ↦ inl shut
        | inr same ↦ elim kept1 [
          | inl shut ↦ inl (ap (λ c. c.on_connect_close_set) same ∙ shut)
          | inr same' ↦ inr (same ∙ same')
        ]
      ],
    )

Narrows-erase :
    (s : TcpServer) (key : List ℕ) (texts : List (List ℕ))
    → Narrows s (record s { connections = erase key s.connections; notified = texts })
unfolding Narrows
Narrows-erase s key texts name c e = (c, lookup-erase name key c s.connections e, refl, inr refl)

Narrows-after_close :
    (s : TcpServer) (key : List ℕ) (a : TcpConnection)
    → lookup key s.connections ≡ some a
    → Narrows s (after_close key a s)
unfolding Narrows
Narrows-after_close s key a e name c' e' = elim (Bool-cases (same_text name key)) [
  | inl h ↦
      let same = same_text_eq name key h in
      let this : closed_down a ≡ c' = some-injective (closed_down a) c' (
        sym (lookup-update key (closed_down a) a s.connections e)
        ∙ (ap (λ x. lookup x (update key (closed_down a) s.connections)) (sym same) ∙ e')) in
      (
        a,
        ap (λ x. lookup x s.connections) same ∙ e,
        ap (λ x. x.wrapper) (sym this),
        inl (ap (λ x. x.on_connect_close_set) (sym this)),
      )
  | inr h ↦ (
    c',
    sym (
          lookup-update_ne name key (closed_down a) s.connections
            (λ same. true≢false (sym (ap (same_text name) (sym same) ∙ same_text_self name) ∙ h)))
        ∙ e',
    refl,
    inr refl,
  )
]

-- The event is defined, and leaves a server like that.
abbrev pub Diminishes : TcpServer → Event → Type 0
Diminishes s e = (s' : TcpServer) × (step s e ≡ some s') × AreAlive s'.connections × Narrows s s'

module _ (s : TcpServer) (name : List ℕ) (alive : AreAlive s.connections) where
  pub ends-Narrows : Diminishes s (ends name)
  unfolding step get_connection
  ends-Narrows = elim (Option-cases (lookup name s.connections)) [
    | inl e ↦ (s, rw e refl, alive, Narrows-same s)
    | inr (c, e) ↦ elim (lookup-AreAlive name s.connections c alive e) [
      | inl (h, k) ↦ (
        after_close name c s,
        rw e (socket_closed-opened name c s e h k),
        after_close-AreAlive name c s alive,
        Narrows-after_close s name c e,
      )
      | inr (h, k, l) ↦ (s, rw e (socket_closed-quiet name c s k), alive, Narrows-same s)
    ]
  ]

  -- After that the connection does not call back again.
  pub ends-shut :
      (s' : TcpServer) (c' : TcpConnection)
      → step s (ends name) ≡ some s'
      → lookup name s'.connections ≡ some c'
      → c'.on_connect_close_set ≡ false
  unfolding step get_connection
  ends-shut s' c' happens e' = elim (Option-cases (lookup name s.connections)) [
    | inl e ↦
        let same : s ≡ s' = some-injective s s' (rw e at happens) in
        absurd (none-ne-some c' (sym e ∙ (ap (λ x. lookup name x.connections) same ∙ e')))
    | inr (c, e) ↦ elim (lookup-AreAlive name s.connections c alive e) [
      | inl (h, k) ↦
          let same : after_close name c s ≡ s' =
            some-injective _ s' (sym (socket_closed-opened name c s e h k) ∙ (rw e at happens)) in
          ap (λ x. x.on_connect_close_set)
            (some-injective c' (closed_down c) (
              sym e'
              ∙ (ap (λ x. lookup name x.connections) (sym same)
                  ∙ lookup-update name (closed_down c) c s.connections e)))
      | inr (h, k, l) ↦
          let same : s ≡ s' =
            some-injective s s' (sym (socket_closed-quiet name c s k) ∙ (rw e at happens)) in
          ap (λ x. x.on_connect_close_set)
            (some-injective c' c (sym e' ∙ (ap (λ x. lookup name x.connections) (sym same) ∙ e)))
          ∙ k
    ]
  ]

  pub finishes-Narrows : Diminishes s (finishes name)
  unfolding step get_connection
  finishes-Narrows = elim (Option-cases (lookup name s.connections)) [
    | inl e ↦ (s, rw e refl, alive, Narrows-same s)
    | inr (c, e) ↦ elim (lookup-AreAlive name s.connections c alive e) [
      | inl (h, k) ↦
          (s, rw e (ap (λ handle. handle_finished handle c name s) h), alive, Narrows-same s)
      | inr (h, k, l) ↦ (
        record s {
          connections = erase name s.connections;
          notified = notify s.on_connect_close_set name s.notified;
        },
        finishes-closing name c s e h l,
        erase-AreAlive name s.connections alive,
        Narrows-erase s name (notify s.on_connect_close_set name s.notified),
      )
    ]
  ]

  pub closes-Narrows :
      (get_connection name s ≡ none)
        ⊎ ((c : TcpConnection) × (get_connection name s ≡ some c) × (c.handle ≡ opened))
      → Diminishes s (closes name)
  unfolding step get_connection
  closes-Narrows (inl e) = (s, close_connection-none name s e, alive, Narrows-same s)
  closes-Narrows (inr (c, e, h)) = (
    after_close name c s,
    close_connection-opened name c s e h,
    after_close-AreAlive name c s alive,
    Narrows-after_close s name c e,
  )
