-- ===== src/TcpServer/Timed/Accepted.antt =====
-- What a server of ae/tcp_server.cpp keeps when it accepts a connection and watches it.
use ae_proxy.Base.{
  ℕ, ◌≡◌, ◌≢◌, ◌⊎◌, inl, inr, refl, ap, sym, subst, ◌∙◌, true, List, [], ◌∷◌, ◌++◌, some,
  Bool-cases, arith, lookup, get_elem?, length, length-append, get_elem?-lt, get_elem?-append,
  get_elem?-last, same_text, same_text_eq, same_text_self,
}
use mathlib.Core.Bool.{true≢false}
use mathlib.Core.Option.{some-injective}
use ae_proxy.TimerWheel.{inserts}
use ae_proxy.TimerWheel.Ready.{after_insert}
use ae_proxy.TimerWheel.Tracks.{inserted_at, Tracks-inserts}
use ae_proxy.TcpConnection.{TcpConnection, set_wrapper}
use ae_proxy.TcpServer.{notify, accepted}
use ae_proxy.TcpServer.Table.{AreAlive}
use ae_proxy.TcpServer.Timed.{TimedServer, Happening}
use ae_proxy.TcpServer.Timed.Heard.{
  arrival, sounds, heard-now, heard-before, heard-other, inserted_at-now, inserted_at-before,
  inserted_at-cases,
}
use ae_proxy.TcpServer.Timed.Watched.{IsWatched, Watched}
use ae_proxy.TcpServer.Timed.Given.{held-now, IsWatched-more}
use ae_proxy.TcpServer.Timed.Expiry.{AreOwned}

lookup-cases {ℓ} :
    {A : Type ℓ} (name k : List ℕ) (a c : A) (entries : List (List ℕ × A))
    → lookup name ((k, a) ∷ entries) ≡ some c
    → ((k ≡ name) × (a ≡ c)) ⊎ ((k ≢ name) × (lookup name entries ≡ some c))
unfolding lookup
lookup-cases name k a c entries h = elim (Bool-cases (same_text name k)) [
  | inl e ↦ inl (sym (same_text_eq name k e), some-injective a c (rw e at h))
  | inr e ↦
      inr
        ((λ same. true≢false (sym (ap (same_text name) same ∙ same_text_self name) ∙ e)), rw e at h)
]

module _ (n : ℕ) (hs : List Happening) (t : TimedServer) (w : Watched n hs t) (k : List ℕ) where
  -- The number of the new wrapper.
  abbrev newest : ℕ
  newest = length t.wrappers

  abbrev newcomer : TcpConnection
  newcomer = set_wrapper (accepted k) newest

  -- The server that has accepted the connection.
  abbrev pub after_accept : TimedServer
  after_accept = record {
    server = record t.server {
      connections = (k, newcomer) ∷ t.server.connections;
      announced = notify t.server.on_new_connect_set k t.server.announced;
    };
    wheel = after_insert t.wheel newest;
    wrappers = t.wrappers ++ k ∷ [];
  }

  is_old :
      (v : ℕ) (name : List ℕ)
      → get_elem? t.wrappers v ≡ some name
      → get_elem? after_accept.wrappers v ≡ some name
  is_old v name g = get_elem?-append t.wrappers (k ∷ []) v (get_elem?-lt t.wrappers v name g) ∙ g

  accepted-owned : AreOwned after_accept.wrappers after_accept.server.connections
  accepted-owned name c v e m = elim (lookup-cases name k newcomer c t.server.connections e) [
    | inl (same, this) ↦
        let v_is : newest ≡ v = some-injective newest v (ap (λ x. x.wrapper) this ∙ m) in
        rw (← v_is, ← same) (get_elem?-last t.wrappers k)
    | inr (other, e') ↦ is_old v name (w.owned name c v e' m)
  ]

  -- An earlier insertion was of an earlier wrapper.
  made_before :
      (v age : ℕ) (name : List ℕ)
      → inserted_at v age w.es ≡ true
      → get_elem? after_accept.wrappers v ≡ some name
      → get_elem? t.wrappers v ≡ some name
  made_before v age name i g = sym (get_elem?-append t.wrappers (k ∷ []) v (w.made v age i)) ∙ g

  pub Watched-accepted : Watched n (sounds arrival k ∷ hs) after_accept
  unfolding after_insert AreAlive
  Watched-accepted = record {
    timed = w.timed;
    es = inserts newest ∷ w.es;
    tracks = Tracks-inserts w.es t.wheel w.tracks newest;
    signed = w.signed;
    alive = (inl (refl, refl), w.alive);
    owned = accepted-owned;
    watched = λ name c e o. elim (lookup-cases name k newcomer c t.server.connections e) [
      | inl (same, this) ↦ subst (IsWatched (after_insert t.wheel newest)) this (record {
        listens = refl;
        number = newest;
        wraps = refl;
        held = held-now w.es t.wheel newest w.tracks;
      })
      | inr (other, e') ↦ IsWatched-more w.es t.wheel newest c w.tracks (w.watched name c e' o)
    ];
    made = λ v age i. elim (inserted_at-cases newest w.es v age i) [
      | inl (same, z) ↦ omega (arith, length-append t.wrappers (k ∷ []), same)
      | inr before ↦ omega (arith, length-append t.wrappers (k ∷ []), w.made v age before)
    ];
    known = λ v age name i g. elim (inserted_at-cases newest w.es v age i) [
      | inl (same, z) ↦
          let this : k ≡ name =
            some-injective k name (
              sym (get_elem?-last t.wrappers k)
              ∙ (ap (get_elem? after_accept.wrappers) same ∙ g)) in
          rw z (rw (← this) (heard-now hs arrival k))
      | inr before ↦
          heard-before hs arrival k name age
            (w.known v age name before (made_before v age name before g))
    ];
    recent = λ name c v age e o m h. elim (lookup-cases name k newcomer c t.server.connections e) [
      | inl (same, this) ↦
          let v_is : newest ≡ v = some-injective newest v (ap (λ x. x.wrapper) this ∙ m) in
          (0, omega arith, rw (← v_is) (inserted_at-now newest w.es))
      | inr (other, e') ↦
          let (age', le, i) =
            w.recent name c v age e' o m (heard-other hs arrival k name age other h) in
          (age', le, inserted_at-before newest w.es v age' i)
    ];
  }
