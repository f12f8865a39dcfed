-- ===== src/TcpServer/Timed/Ticked.antt =====
-- What a server of ae/tcp_server.cpp keeps over a tick of its timer wheel.
use ae_proxy.Base.{
  ℕ, zero, suc, ◌≤◌, ◌≡◌, inl, inr, refl, ap, sym, subst, ◌∙◌, true, List, ◌∷◌, some, if◌then◌else◌,
  Bool-cases, Option-cases, arith, lookup, get_elem?,
}
use mathlib.Core.Bool.{true≢false}
use mathlib.Core.Option.{none-ne-some, some-injective}
use ae_proxy.TimerWheel.{ticks}
use ae_proxy.TimerWheel.Ready.{after_tick}
use ae_proxy.TimerWheel.Tracks.{inserted_at, Tracks-ticks}
use ae_proxy.TimerWheel.Window.{holds}
use ae_proxy.TcpConnection.{TcpConnection}
use ae_proxy.TcpServer.{TcpServer}
use ae_proxy.TcpServer.Closing.{closed_down}
use ae_proxy.TcpServer.Table.{AreAlive}
use ae_proxy.TcpServer.Timed.{TimedServer, Happening, times}
use ae_proxy.TcpServer.Timed.Expiry.{AreOwned, Changes}
use ae_proxy.TcpServer.Timed.Ticks.{
  expired_all, expired_all-quiet, expired_all-own, ending, contains-ending, ticked,
}
use ae_proxy.TcpServer.Timed.Heard.{heard}
use ae_proxy.TcpServer.Timed.Watched.{IsWatched, Watched}

module _ (n : ℕ) (hs : List Happening) (t : TimedServer) (w : Watched n hs t) where
  -- What the tick makes of an open connection.
  pub expired_all-watched :
      (c : TcpConnection) (p : IsWatched t.wheel c)
      → c.on_connect_close_set ≡ true
      → expired_all (ending t) c
        ≡ (if holds (after_tick t.wheel) p.number then c else closed_down c)
  expired_all-watched c p o =
      expired_all-own (ending t) p.number c p.wraps o
      ∙ (elim (Bool-cases (holds (after_tick t.wheel) p.number)) [
        | inl h ↦ rw (contains-ending t p.number p.held) (rw h refl)
        | inr h ↦ rw (contains-ending t p.number p.held) (rw h refl)
      ])

  pub ticked-recent :
      (name : List ℕ) (v age : ℕ)
      → ((a : ℕ)
          → heard name a hs ≡ true
          → (age' : ℕ) × (age' ≤ a) × (inserted_at v age' w.es ≡ true))
      → heard name age (times ∷ hs) ≡ true
      → (age' : ℕ) × (age' ≤ age) × (inserted_at v age' (ticks ∷ w.es) ≡ true)
  unfolding heard inserted_at
  ticked-recent name v zero earlier h = absurd (true≢false (sym h))
  ticked-recent name v (suc age) earlier h =
      let (a, le, i) = earlier age h in (suc a, omega arith, i)

  ticked-made :
      (v age : ℕ)
      → inserted_at v age (ticks ∷ w.es) ≡ true
      → (a : ℕ) × (inserted_at v a w.es ≡ true)
  unfolding inserted_at
  ticked-made v zero i = absurd (true≢false (sym i))
  ticked-made v (suc age) i = (age, i)

  pub ticked-known :
      (v age : ℕ) (name : List ℕ)
      → inserted_at v age (ticks ∷ w.es) ≡ true
      → get_elem? t.wrappers v ≡ some name
      → heard name age (times ∷ hs) ≡ true
  unfolding heard inserted_at
  ticked-known v zero name i g = absurd (true≢false (sym i))
  ticked-known v (suc age) name i g = w.known v age name i g

  module _ (s : TcpServer) (alive : AreAlive s.connections)
      (owned : AreOwned t.wrappers s.connections)
      (ch : Changes (expired_all (ending t)) t.server s) where
    -- A connection that is open afterwards was so before, and the wheel holds its wrapper.
    survives :
        (name : List ℕ) (c' : TcpConnection)
        → lookup name s.connections ≡ some c'
        → c'.on_connect_close_set ≡ true
        → (lookup name t.server.connections ≡ some c') × IsWatched (after_tick t.wheel) c'
    survives name c' e o = elim (Option-cases (lookup name t.server.connections)) [
      | inl gone ↦ absurd (none-ne-some _ (sym (ch.missing name gone) ∙ e))
      | inr (c, e0) ↦
          let after : expired_all (ending t) c ≡ c' =
            some-injective (expired_all (ending t) c) c' (sym (ch.found name c e0) ∙ e) in
          elim (Bool-cases c.on_connect_close_set) [
            | inr shut ↦ absurd (
                true≢false (
                  sym o
                  ∙ (ap (λ x. x.on_connect_close_set)
                        (sym after ∙ expired_all-quiet (ending t) c shut)
                      ∙ shut)))
            | inl open_before ↦
                let p = w.watched name c e0 open_before in
                let now = sym after ∙ expired_all-watched c p open_before in
                elim (Bool-cases (holds (after_tick t.wheel) p.number)) [
                  | inr gone ↦ absurd (
                      true≢false (
                        sym o
                        ∙ ap (λ x. x.on_connect_close_set)
                            (now ∙ ap (λ b. if b then c else closed_down c) gone)))
                  | inl still ↦
                      let same : c ≡ c' =
                        sym (now ∙ ap (λ b. if b then c else closed_down c) still) in
                      (
                        e0 ∙ ap some same,
                        subst (IsWatched (after_tick t.wheel)) same (record {
                          listens = p.listens;
                          number = p.number;
                          wraps = p.wraps;
                          held = still;
                        }),
                      )
                ]
          ]
    ]

    pub Watched-ticked : Watched n (times ∷ hs) (ticked t s)
    unfolding after_tick
    Watched-ticked = record {
      timed = w.timed;
      es = ticks ∷ w.es;
      tracks = Tracks-ticks w.es t.wheel w.tracks;
      signed = w.signed;
      alive = alive;
      owned = owned;
      watched = λ name c e o. (survives name c e o).1;
      made = λ v age i. let (a, before) = ticked-made v age i in w.made v a before;
      known = ticked-known;
      recent = λ name c v age e o m h.
          ticked-recent name v age (λ a. w.recent name c v a (survives name c e o).0 o m) h;
    }
