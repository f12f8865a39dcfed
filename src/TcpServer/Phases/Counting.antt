-- ===== src/TcpServer/Phases/Counting.antt =====
-- How often ae/tcp_server.cpp reports the end of a connection.
use ae_proxy.Base.{
  ℕ, ◌≡◌, ◌+◌, arith, refl, ap, sym, ◌∙◌, Bool, true, false, List, [], ◌∷◌, ◌++◌, Option, none,
  some, if◌then◌else◌, inl, inr, Bool-cases, same_text, same_text_eq,
}
use mathlib.Core.Option.{bind-eq-some_iff, map, some-injective, none-ne-some}
use ae_proxy.TcpServer.{TcpServer, get_connection, Event, accepts, ends, finishes, closes}
use ae_proxy.TcpServer.Table.{AreAlive}
use ae_proxy.TcpServer.Phases.{
  Phase, absent, serving, ending, Promise, event_name, advance, announce, report, set_phase, moved,
  promise_step, promise_run, run, view, phase_of,
}
use ae_proxy.TcpServer.Phases.Runs.{view-run}

abbrev pub one : Bool → ℕ
one true = 1
one false = 0

-- How often a name is in a list.
unfoldable pub occurrences : List ℕ → List (List ℕ) → ℕ
occurrences name [] = 0
occurrences name (x ∷ xs) = one (same_text name x) + occurrences name xs

occurrences-snoc :
    (name x : List ℕ) (xs : List (List ℕ))
    → occurrences name (xs ++ (x ∷ [])) ≡ occurrences name xs + one (same_text name x)
unfolding occurrences
occurrences-snoc name x [] = omega arith
occurrences-snoc name x (y ∷ ys) = let e = occurrences-snoc name x ys in omega arith

-- A connection that the map holds, as a number.
abbrev pub present : Phase → ℕ
present absent = 0
present serving = 1
present ending = 1

-- What an event brings of new connections of a name.
abbrev pub brings : List ℕ → Event → ℕ
brings name (accepts key) = one (same_text name key)
brings name (ends key) = 0
brings name (finishes key) = 0
brings name (closes key) = 0

unfoldable pub arrivals : List ℕ → List Event → ℕ
arrivals name [] = 0
arrivals name (e ∷ es) = brings name e + arrivals name es

module _ (name : List ℕ) (earlier : List (List ℕ)) (r : Phase) where
  -- The event's own name, or another.
  abbrev Balanced : Event → Phase → Phase → Bool → Type 0
  Balanced e p q b =
      occurrences name (report e p true earlier) + present (if b then q else r)
      ≡ occurrences name earlier + present (if b then p else r) + brings name e

  quiet :
      (n : ℕ) (p q : Phase) (b : Bool)
      → present q ≡ present p
      → n + present (if b then q else r) ≡ n + present (if b then p else r) + 0
  quiet n p q true h = omega arith
  quiet n p q false h = omega arith

  balance :
      (e : Event) (p q : Phase)
      → advance e p ≡ some q
      → Balanced e p q (same_text name (event_name e))
  balance (accepts k) absent q h = elim (Bool-cases (same_text name k)) [
    | inl b ↦ rw b (rw (sym (some-injective _ q h)) (omega arith))
    | inr b ↦ rw b (omega arith)
  ]
  balance (accepts k) serving q h = absurd (none-ne-some q h)
  balance (accepts k) ending q h = absurd (none-ne-some q h)
  balance (ends k) absent q h =
      quiet _ absent q (same_text name k) (ap present (sym (some-injective absent q h)))
  balance (ends k) serving q h =
      quiet _ serving q (same_text name k) (ap present (sym (some-injective ending q h)))
  balance (ends k) ending q h =
      quiet _ ending q (same_text name k) (ap present (sym (some-injective ending q h)))
  balance (finishes k) absent q h =
      quiet _ absent q (same_text name k) (ap present (sym (some-injective absent q h)))
  balance (finishes k) serving q h =
      quiet _ serving q (same_text name k) (ap present (sym (some-injective serving q h)))
  balance (finishes k) ending q h = elim (Bool-cases (same_text name k)) [
    | inl b ↦
        let snoc = occurrences-snoc name k earlier in
        let gone = ap present (some-injective absent q h) in
        rw b (let more = rw b at snoc in omega arith)
    | inr b ↦
        let snoc = occurrences-snoc name k earlier in rw b (let more = rw b at snoc in omega arith)
  ]
  balance (closes k) absent q h =
      quiet _ absent q (same_text name k) (ap present (sym (some-injective absent q h)))
  balance (closes k) serving q h =
      quiet _ serving q (same_text name k) (ap present (sym (some-injective ending q h)))
  balance (closes k) ending q h = absurd (none-ne-some q h)

-- What a promise holds for a name: its reports, and itself.
abbrev pub weight : List ℕ → Promise → ℕ
weight name v = occurrences name v.reported + present (v.phase name)

collapse :
    (name key : List ℕ) (phase : List ℕ → Phase)
    → (if same_text name key then phase key else phase name) ≡ phase name
collapse name key phase = elim (Bool-cases (same_text name key)) [
  | inl h ↦ rw h (ap phase (sym (same_text_eq name key h)))
  | inr h ↦ rw h refl
]

weight-moved :
    (name : List ℕ) (v v' : Promise) (e : Event) (o : Option Phase)
    → advance e (v.phase (event_name e)) ≡ o
    → v.reports ≡ true
    → moved v e o ≡ some v'
    → (weight name v' ≡ weight name v + brings name e) × (v'.reports ≡ true)
unfolding set_phase
weight-moved name v v' e none moves on h = absurd (none-ne-some v' h)
weight-moved name v v' e (some q) moves on h =
    let same = some-injective _ v' h in
    let key = event_name e in
    (
      ap (weight name) (sym same)
          ∙ (ap
                (λ r.
                  occurrences name (report e (v.phase key) r v.reported)
                  + present (if same_text name key then q else v.phase name))
                on
              ∙ (balance name v.reported (v.phase name) e (v.phase key) q moves
                  ∙ ap (λ p. occurrences name v.reported + present p + brings name e)
                      (collapse name key v.phase))),
      ap (λ w. w.reports) (sym same) ∙ on,
    )

-- The announcements of a name grow by what the event brings.
announced-moved :
    (name : List ℕ) (v v' : Promise) (e : Event) (o : Option Phase)
    → v.announces ≡ true
    → moved v e o ≡ some v'
    → (occurrences name v'.announced ≡ occurrences name v.announced + brings name e)
      × (v'.announces ≡ true)
announced-moved name v v' e none on h = absurd (none-ne-some v' h)
announced-moved name v v' e (some q) on h =
    let same = some-injective _ v' h in
    (
      ap (λ w. occurrences name w.announced) (sym same)
          ∙ (ap (λ b. occurrences name (announce e b v.announced)) on ∙ announces e),
      ap (λ w. w.announces) (sym same) ∙ on,
    )
  where
    announces :
        (e' : Event)
        → occurrences name (announce e' true v.announced)
          ≡ occurrences name v.announced + brings name e'
    announces (accepts key) = occurrences-snoc name key v.announced
    announces (ends key) = omega arith
    announces (finishes key) = omega arith
    announces (closes key) = omega arith

announced-promise_run :
    (name : List ℕ) (v v' : Promise) (events : List Event)
    → v.announces ≡ true
    → promise_run v events ≡ some v'
    → occurrences name v'.announced ≡ occurrences name v.announced + arrivals name events
unfolding promise_run promise_step arrivals
announced-promise_run name v v' [] on h =
    let same = ap (λ w. occurrences name w.announced) (some-injective v v' h) in omega arith
announced-promise_run name v v' (e ∷ events) on h =
    let (w, moves, rest) = (bind-eq-some_iff (promise_step v e) _).0 h in
    let (grows, on') = announced-moved name v w e (advance e (v.phase (event_name e))) on moves in
    let later = announced-promise_run name w v' events on' rest in omega arith

weight-promise_run :
    (name : List ℕ) (v v' : Promise) (events : List Event)
    → v.reports ≡ true
    → promise_run v events ≡ some v'
    → weight name v' ≡ weight name v + arrivals name events
unfolding promise_run promise_step arrivals
weight-promise_run name v v' [] on h =
    let same = ap (weight name) (some-injective v v' h) in omega arith
weight-promise_run name v v' (e ∷ events) on h =
    let (w, moves, rest) = (bind-eq-some_iff (promise_step v e) _).0 h in
    let (grows, on') = weight-moved name v w e (advance e (v.phase (event_name e))) refl on moves in
    let later = weight-promise_run name w v' events on' rest in omega arith

-- When the program asked for both reports: after any run that the server takes, the announcements of
-- a name are what they were at first and one for each connection that has come with that name; and so
-- are, together, the reports of its end and the connection that the map still has under it.
pub run-arrivals :
    (name : List ℕ) (s s' : TcpServer) (events : List Event)
    → AreAlive s.connections
    → s.on_connect_close_set ≡ true
    → s.on_new_connect_set ≡ true
    → run s events ≡ some s'
    → (occurrences name s'.announced ≡ occurrences name s.announced + arrivals name events)
      × (occurrences name s'.notified + present (phase_of (get_connection name s'))
          ≡ occurrences name s.notified
            + present (phase_of (get_connection name s))
            + arrivals name events)
unfolding view
run-arrivals name s s' events alive ends_told news_told happens =
    let promised = sym (view-run s events alive) ∙ ap (map view) happens in
    (
      announced-promise_run name (view s) (view s') events news_told promised,
      weight-promise_run name (view s) (view s') events ends_told promised,
    )
