-- ===== src/TcpServer/Timed/Watched.antt =====
-- What holds of a server of ae/tcp_server.cpp whose timer wheel runs, after any history.
use ae_proxy.Base.{
  ℕ, ◌^◌, ◌≤◌, ◌<◌, ◌≡◌, inl, inr, ap, sym, subst, ◌∙◌, true, List, ◌∷◌, some, lookup, get_elem?,
  length,
}
use mathlib.Core.Bool.{true≢false}
use ae_proxy.TimerWheel.{TimerWheel}
use ae_proxy.TimerWheel.{Event as WheelEvent}
use ae_proxy.TimerWheel.Tracks.{inserted_at, Tracks}
use ae_proxy.TimerWheel.Window.{holds}
use ae_proxy.TcpConnection.{TcpConnection}
use ae_proxy.TcpServer.{TcpServer}
use ae_proxy.TcpServer.Table.{AreAlive}
use ae_proxy.TcpServer.Narrowing.{Narrows}
use ae_proxy.TcpServer.Timed.{TimedServer, Happening}
use ae_proxy.TcpServer.Timed.Expiry.{AreOwned}
use ae_proxy.TcpServer.Timed.Heard.{heard}

-- An open connection has a wrapper that the wheel holds.
pub record IsWatched (w : TimerWheel) (c : TcpConnection) : Type 0 where
  pub listens : c.on_message_set ≡ true
  pub number : ℕ
  pub wraps : c.wrapper ≡ some number
  pub held : holds w number ≡ true

pub record Watched (n : ℕ) (hs : List Happening) (t : TimedServer) : Type 0 where
  pub timed : t.wheel.timeout_sec ≡ n
  pub es : List WheelEvent
  pub tracks : Tracks es t.wheel
  pub signed : t.wheel.timeout_sec < 2 ^ 31
  pub alive : AreAlive t.server.connections
  pub owned : AreOwned t.wrappers t.server.connections
  pub watched :
      (name : List ℕ) (c : TcpConnection)
      → lookup name t.server.connections ≡ some c
      → c.on_connect_close_set ≡ true
      → IsWatched t.wheel c
  pub made : (v age : ℕ) → inserted_at v age es ≡ true → v < length t.wrappers
  -- What the wheel was given stands for a connection that was heard.
  pub known :
      (v age : ℕ) (name : List ℕ)
      → inserted_at v age es ≡ true
      → get_elem? t.wrappers v ≡ some name
      → heard name age hs ≡ true
  -- An open connection that was heard was given to the wheel then or later.
  pub recent :
      (name : List ℕ) (c : TcpConnection) (v age : ℕ)
      → lookup name t.server.connections ≡ some c
      → c.on_connect_close_set ≡ true
      → c.wrapper ≡ some v
      → heard name age hs ≡ true
      → (age' : ℕ) × (age' ≤ age) × (inserted_at v age' es ≡ true)

-- Steps that leave the wheel alone and close or remove connections.
pub Watched-narrow :
    (n : ℕ) (hs : List Happening) (h : Happening) (t : TimedServer) (s' : TcpServer)
    → ((name : List ℕ) (age : ℕ) → heard name age (h ∷ hs) ≡ heard name age hs)
    → AreAlive s'.connections
    → Narrows t.server s'
    → Watched n hs t
    → Watched n (h ∷ hs) (record t { server = s' })
unfolding Narrows
Watched-narrow n hs h t s' quiet alive narrows w = record {
  timed = w.timed;
  es = w.es;
  tracks = w.tracks;
  signed = w.signed;
  alive = alive;
  owned = λ name c' v e k.
      let (c, e', wraps, kept) = narrows name c' e in w.owned name c v e' (sym wraps ∙ k);
  watched = λ name c' e k.
      let (c, e', wraps, kept) = narrows name c' e in
      elim kept [
        | inl shut ↦ absurd (true≢false (sym k ∙ shut))
        | inr same ↦
            subst (IsWatched t.wheel) (sym same)
              (w.watched name c e' (ap (λ x. x.on_connect_close_set) (sym same) ∙ k))
      ];
  made = w.made;
  known = λ v age name i g. quiet name age ∙ w.known v age name i g;
  recent = λ name c' v age e k m i.
      let (c, e', wraps, kept) = narrows name c' e in
      elim kept [
        | inl shut ↦ absurd (true≢false (sym k ∙ shut))
        | inr same ↦
            w.recent name c v age e' (ap (λ x. x.on_connect_close_set) (sym same) ∙ k)
              (sym wraps ∙ m) (sym (quiet name age) ∙ i)
      ];
}
