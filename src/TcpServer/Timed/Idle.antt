-- ===== src/TcpServer/Timed/Idle.antt =====
-- The idle timeout of ae/tcp_server.cpp, over whole histories.
use ae_proxy.Base.{
  ℕ, ◌<◌, ◌^◌, ◌≡◌, inl, inr, refl, ap, sym, subst, ◌∙◌, Bool, true, false, List, [], ◌∷◌, some,
  if◌then◌else◌, Bool-cases, arith, lookup,
}
use mathlib.Core.Bool.{true≢false}
use mathlib.Core.Option.{none-ne-some, some-injective}
use ae_proxy.TimerWheel.{new_wheel, start, ticks}
use ae_proxy.TimerWheel.Ready.{after_tick, start-fresh}
use ae_proxy.TimerWheel.Tracks.{Tracks-fresh, Tracks-ticks, inserted_at}
use ae_proxy.TimerWheel.Window.{holds, held-inserted, inserted-held}
use ae_proxy.TcpConnection.{TcpConnection, opened}
use ae_proxy.TcpServer.{get_connection}
use ae_proxy.TcpServer.Closing.{closed_down}
use ae_proxy.TcpServer.Table.{lookup-AreAlive, AreAlive}
use ae_proxy.TcpServer.Timed.{TimedServer, Happening, times, tick, happen}
use ae_proxy.TcpServer.Timed.Heard.{heard}
use ae_proxy.TcpServer.Timed.Watched.{Watched, IsWatched}
use ae_proxy.TcpServer.Timed.Ticks.{tick_lem, ticked}
use ae_proxy.TcpServer.Timed.Ticked.{expired_all-watched, ticked-recent, ticked-known}
use ae_proxy.TcpServer.Timed.Steps.{Permits, happen-Watched}

-- A server that has begun to listen, with its timeout and what callbacks it has.
abbrev pub listening : ℕ → Bool → Bool → TimedServer
listening n has_message has_close = record {
  server = record {
    connections = [];
    on_message_set = has_message;
    on_connect_close_set = has_close;
    on_new_connect_set = false;
    announced = [];
    notified = [];
  };
  wheel = start (new_wheel n);
  wrappers = [];
}

-- The server has come through the history, whose newest event stands first.
pub data Serves (n : ℕ) : List Happening → TimedServer → Type 0 where
  begins : (has_message has_close : Bool) → Serves n [] (listening n has_message has_close)
  continues :
      (hs : List Happening) (t t' : TimedServer) (h : Happening)
      → Serves n hs t
      → Permits t h
      → happen t h ≡ some t'
      → Serves n (h ∷ hs) t'

module _ (n : ℕ) (positive : 0 < n) (signed : n < 2 ^ 31) where
  listening-Watched :
      (has_message has_close : Bool) → Watched n [] (listening n has_message has_close)
  unfolding inserted_at lookup AreAlive heard
  listening-Watched a b = rw (start-fresh n positive) (record {
    timed = refl;
    es = [];
    tracks = Tracks-fresh n positive (omega arith);
    signed = signed;
    alive = _;
    owned = λ name c v e m. absurd (none-ne-some _ e);
    watched = λ name c e o. absurd (none-ne-some _ e);
    made = λ v age i. absurd (true≢false (sym i));
    known = λ v age name i g. absurd (true≢false (sym i));
    recent = λ name c v age e o m h. absurd (none-ne-some _ e);
  })

  pub Serves-Watched : (hs : List Happening) (t : TimedServer) → Serves n hs t → Watched n hs t
  Serves-Watched _ _ (begins a b) = listening-Watched a b
  Serves-Watched _ _ (continues hs t t' h s ok e) =
      let (t1, e1, w1) = happen-Watched n hs t (Serves-Watched hs t s) h ok in
      subst (Watched n (h ∷ hs)) (some-injective t1 t' (sym e1 ∙ e)) w1

  -- An open connection calls back when its socket closes.
  is_open :
      (hs : List Happening) (t : TimedServer) (name : List ℕ) (c : TcpConnection)
      → Watched n hs t
      → lookup name t.server.connections ≡ some c
      → c.handle ≡ opened
      → c.on_connect_close_set ≡ true
  is_open hs t name c w e h = elim (lookup-AreAlive name t.server.connections c w.alive e) [
    | inl (same, o) ↦ o
    | inr (shut, o, l) ↦ cc
  ]

  -- What the wheel holds of the connection, as what was heard of it.
  module _ (hs : List Happening) (t : TimedServer) (w : Watched n hs t) (name : List ℕ)
      (c : TcpConnection) (e : lookup name t.server.connections ≡ some c)
      (o : c.on_connect_close_set ≡ true) (p : IsWatched t.wheel c) where
    held-heard :
        holds (after_tick t.wheel) p.number ≡ true
        → (age : ℕ) × (age < n) × (heard name age (times ∷ hs) ≡ true)
    unfolding holds after_tick
    held-heard h =
        let (age, below, i) =
          held-inserted (ticks ∷ w.es) (after_tick t.wheel) p.number
            (Tracks-ticks w.es t.wheel w.tracks) h in
        (
          age,
          omega (arith, w.timed),
          ticked-known n hs t w p.number age name i (w.owned name c p.number e p.wraps),
        )

    heard-held :
        (age : ℕ)
        → age < n
        → heard name age (times ∷ hs) ≡ true
        → holds (after_tick t.wheel) p.number ≡ true
    unfolding holds after_tick
    heard-held age below h =
        let (a, le, i) =
          ticked-recent n hs t w name p.number age (λ a. w.recent name c p.number a e o p.wraps)
            h in
        inserted-held (ticks ∷ w.es) (after_tick t.wheel) p.number a
          (Tracks-ticks w.es t.wheel w.tracks) (omega (arith, w.timed)) i

  -- A server that listens with a timeout of n seconds, n positive and below 2^31, comes through every
  -- event: as long as a new connection has a name that no other one has, and the program does not
  -- close a connection that is closing already, no event at a connection and no tick of the wheel
  -- leaves the wheel's vector or frees a connection before libuv has closed its handle.
  pub happen-Serves :
      (hs : List Happening) (t : TimedServer) (h : Happening)
      → Serves n hs t
      → Permits t h
      → (t' : TimedServer) × (happen t h ≡ some t') × Serves n (h ∷ hs) t'
  happen-Serves hs t h s ok =
      let (t', e, w) = happen-Watched n hs t (Serves-Watched hs t s) h ok in
      (t', e, continues hs t t' h s ok e)

  -- After any history of a server that listens with a timeout of n seconds, n positive and below 2^31,
  -- in which each new connection had a name of its own and the program closed no connection that was
  -- closing already, a connection whose handle is open was accepted or sent a message within the last n
  -- ticks.
  pub get_connection-heard :
      (hs : List Happening) (t : TimedServer) (name : List ℕ) (c : TcpConnection)
      → Serves n hs t
      → get_connection name t.server ≡ some c
      → c.handle ≡ opened
      → (age : ℕ) × (age < n) × (heard name age hs ≡ true)
  unfolding get_connection holds
  get_connection-heard hs t name c s e h =
      let w = Serves-Watched hs t s in
      let p = w.watched name c e (is_open hs t name c w e h) in
      let (age, below, i) = held-inserted w.es t.wheel p.number w.tracks p.held in
      (age, omega (arith, w.timed), w.known p.number age name i (w.owned name c p.number e p.wraps))

  -- After any history of a server that listens with a timeout of n seconds, n positive and below 2^31,
  -- in which each new connection had a name of its own and the program closed no connection that was
  -- closing already, a tick is defined; it closes an open connection if it has not been accepted or
  -- sent a message within the last n ticks, the new one counted, and leaves it as it is if it has.
  pub tick-heard :
      (hs : List Happening) (t : TimedServer) (name : List ℕ) (c : TcpConnection)
      → Serves n hs t
      → get_connection name t.server ≡ some c
      → c.handle ≡ opened
      → (t' : TimedServer) × (tick t ≡ some t')
        × (((age : ℕ) × (age < n) × (heard name age (times ∷ hs) ≡ true))
            → get_connection name t'.server ≡ some c)
        × (((age : ℕ) → age < n → heard name age (times ∷ hs) ≡ false)
            → get_connection name t'.server ≡ some (closed_down c))
  unfolding get_connection
  tick-heard hs t name c s e h =
      let w = Serves-Watched hs t s in
      let o = is_open hs t name c w e h in
      let p = w.watched name c e o in
      let (s', e', alive, owned, ch) = tick_lem t w.tracks.ready w.alive w.owned in
      let found = ch.found name c e ∙ ap some (expired_all-watched n hs t w c p o) in
      (
        ticked t s',
        e',
        λ (age, below, i).
            found
            ∙ ap (λ b. some (if b then c else closed_down c))
                (heard-held hs t w name c e o p age below i),
        λ silent. elim (Bool-cases (holds (after_tick t.wheel) p.number)) [
          | inl still ↦
              let (age, below, i) = held-heard hs t w name c e o p still in
              absurd (true≢false (sym i ∙ silent age below))
          | inr gone ↦ found ∙ ap (λ b. some (if b then c else closed_down c)) gone
        ],
      )
