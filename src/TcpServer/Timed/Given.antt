-- ===== src/TcpServer/Timed/Given.antt =====
-- What a server of ae/tcp_server.cpp keeps when it gives a wrapper to its timer wheel.
use ae_proxy.Base.{
  ℕ, ◌<◌, ◌≡◌, inl, inr, ap, sym, subst, ◌∙◌, true, false, List, ◌∷◌, some, Bool-cases, arith,
  lookup, get_elem?, length, get_elem?-lt, same_text, same_text_eq, same_text_self,
}
use mathlib.Core.Bool.{true≢false}
use mathlib.Core.Option.{some-injective}
use ae_proxy.TimerWheel.{TimerWheel, Event, inserts}
use ae_proxy.TimerWheel.Ready.{after_insert}
use ae_proxy.TimerWheel.Tracks.{Tracks, Tracks-inserts}
use ae_proxy.TimerWheel.Window.{holds, held-inserted, inserted-held}
use ae_proxy.TcpConnection.{TcpConnection}
use ae_proxy.TcpServer.Timed.{TimedServer, Happening}
use ae_proxy.TcpServer.Timed.Heard.{
  message, sounds, heard-now, heard-before, heard-other, inserted_at-now, inserted_at-before,
  inserted_at-cases,
}
use ae_proxy.TcpServer.Timed.Watched.{IsWatched, Watched}

-- The wheel keeps what it holds.
held-more :
    (es : List Event) (w : TimerWheel) (u v : ℕ)
    → Tracks es w
    → holds w v ≡ true
    → holds (after_insert w u) v ≡ true
unfolding holds after_insert
held-more es w u v t h =
    let (age, below, i) = held-inserted es w v t h in
    inserted-held (inserts u ∷ es) (after_insert w u) v age (Tracks-inserts es w t u) below
      (inserted_at-before u es v age i)

pub held-now :
    (es : List Event) (w : TimerWheel) (u : ℕ) → Tracks es w → holds (after_insert w u) u ≡ true
unfolding holds after_insert
held-now es w u t =
    inserted-held (inserts u ∷ es) (after_insert w u) u 0 (Tracks-inserts es w t u) t.ready.positive
      (inserted_at-now u es)

pub IsWatched-more :
    (es : List Event) (w : TimerWheel) (u : ℕ) (c : TcpConnection)
    → Tracks es w
    → IsWatched w c
    → IsWatched (after_insert w u) c
IsWatched-more es w u c t p = record {
  listens = p.listens;
  number = p.number;
  wraps = p.wraps;
  held = held-more es w u p.number t p.held;
}

module _ (n : ℕ) (hs : List Happening) (t : TimedServer) (w : Watched n hs t) where
  -- A message of a connection that is not open.
  pub Watched-unheard :
      (k : List ℕ)
      → ((c : TcpConnection)
          → lookup k t.server.connections ≡ some c
          → c.on_connect_close_set ≡ false)
      → Watched n (sounds message k ∷ hs) t
  Watched-unheard k shut = record {
    timed = w.timed;
    es = w.es;
    tracks = w.tracks;
    signed = w.signed;
    alive = w.alive;
    owned = w.owned;
    watched = w.watched;
    made = w.made;
    known = λ v age name i g. heard-before hs message k name age (w.known v age name i g);
    recent = λ name c v age e o m h. w.recent name c v age e o m (
        heard-other hs message k name age
          (λ same. true≢false (sym o ∙ shut c (ap (λ x. lookup x t.server.connections) same ∙ e)))
          h);
  }

  -- A message of a connection whose wrapper the wheel is given again.
  pub Watched-touched :
      (k : List ℕ) (c : TcpConnection) (u : ℕ)
      → lookup k t.server.connections ≡ some c
      → c.wrapper ≡ some u
      → Watched n (sounds message k ∷ hs) (record t { wheel = after_insert t.wheel u })
  unfolding after_insert
  Watched-touched k c u e m =
      let mine = w.owned k c u e m in
      record {
        timed = w.timed;
        es = inserts u ∷ w.es;
        tracks = Tracks-inserts w.es t.wheel w.tracks u;
        signed = w.signed;
        alive = w.alive;
        owned = w.owned;
        watched =
            λ name c' e' o. IsWatched-more w.es t.wheel u c' w.tracks (w.watched name c' e' o);
        made = λ v age i. elim (inserted_at-cases u w.es v age i) [
          | inl (same, z) ↦
              subst (λ x. x < length t.wrappers) same (get_elem?-lt t.wrappers u k mine)
          | inr before ↦ w.made v age before
        ];
        known = λ v age name i g. elim (inserted_at-cases u w.es v age i) [
          | inl (same, z) ↦
              let this : k ≡ name =
                some-injective k name (sym mine ∙ (ap (get_elem? t.wrappers) same ∙ g)) in
              rw z (rw (← this) (heard-now hs message k))
          | inr before ↦ heard-before hs message k name age (w.known v age name before g)
        ];
        recent = λ name c' v age e' o m' h. elim (Bool-cases (same_text k name)) [
          | inl same ↦
              let this : c ≡ c' = some-injective c c' (
                sym e
                ∙ (ap (λ x. lookup x t.server.connections) (same_text_eq k name same) ∙ e')) in
              let v_is : u ≡ v = some-injective u v (sym m ∙ (ap (λ x. x.wrapper) this ∙ m')) in
              (0, omega arith, rw (← v_is) (inserted_at-now u w.es))
          | inr other ↦
              let (age', le, i) = w.recent name c' v age e' o m' (
                heard-other hs message k name age
                  (λ same.
                    true≢false (sym (ap (same_text k) (sym same) ∙ same_text_self k) ∙ other))
                  h) in
              (age', le, inserted_at-before u w.es v age' i)
        ];
      }
