-- ===== src/TcpServer/Timed/Steps.antt =====
-- Each event at a server of ae/tcp_server.cpp whose timer wheel runs.
use ae_proxy.Base.{
  ℕ, zero, suc, ◌<◌, ◌^◌, ◌≡◌, inl, inr, refl, ap, sym, subst, ◌∙◌, Bool, true, false, ◌&&◌, List,
  ◌∷◌, Option, none, some, if◌then◌else◌, Bool-cases, Option-cases, arith, lookup, update, length,
  is_positive, ℤ, lt→ltb, same_text_self,
}
use Prim.{Unit, ⊥}
use mathlib.Core.Bool.{true≢false}
use mathlib.Core.Option.{bind, none-ne-some, some-injective}
use ae_proxy.TimerWheel.{TimerWheel, get_timeout, insert, step}
use ae_proxy.TimerWheel.Ready.{after_insert, step-inserts}
use ae_proxy.TimerWheel.Window.{holds}
use ae_proxy.TcpConnection.{TcpConnection, get_wrapper, lock_wrapper}
use ae_proxy.TcpServer.{Event, get_connection, accepts, ends, finishes, closes}
use ae_proxy.TcpServer.{step as step_server}
use ae_proxy.TcpServer.Owning.{Allowed}
use ae_proxy.TcpServer.Narrowing.{Diminishes, ends-Narrows, finishes-Narrows, closes-Narrows}
use ae_proxy.TcpServer.Timed.{
  TimedServer, Happening, connects, speaks, times, stream_ends, handle_finishes, program_closes,
  happen, with_server, with_wheel, touch,
}
use ae_proxy.TcpServer.Timed.Heard.{heard, message, sounds}
use ae_proxy.TcpServer.Timed.Watched.{Watched, IsWatched, Watched-narrow}
use ae_proxy.TcpServer.Timed.Ticks.{tick_lem, ticked}
use ae_proxy.TcpServer.Timed.Given.{Watched-unheard, Watched-touched}
use ae_proxy.TcpServer.Timed.Accepted.{after_accept, Watched-accepted}
use ae_proxy.TcpServer.Timed.Ticked.{Watched-ticked}

-- A connection comes with a name that no other one has, and the program does not close a connection
-- that is closing already.
abbrev pub Permits : TimedServer → Happening → Type 0
Permits t (connects name) = Allowed t.server (accepts name)
Permits t (program_closes name) = Allowed t.server (closes name)
Permits t _ = Unit

pos-positive : (x : ℕ) → 0 < x → is_positive (ℤ.pos x) ≡ true
pos-positive zero h = absurd (omega arith)
pos-positive (suc x) h = refl

get_timeout-positive :
    (w : TimerWheel)
    → 0 < w.timeout_sec
    → w.timeout_sec < 2 ^ 31
    → is_positive (get_timeout w) ≡ true
unfolding get_timeout
get_timeout-positive w h k = rw (lt→ltb w.timeout_sec (2 ^ 31) k) (pos-positive w.timeout_sec h)

abbrev Follows : ℕ → List Happening → TimedServer → Happening → Type 0
Follows n hs t h = (t' : TimedServer) × (happen t h ≡ some t') × Watched n (h ∷ hs) t'

lock_wrapper-eq :
    (is_held : ℕ → Bool) (o : Option ℕ) (u : ℕ) → lock_wrapper is_held o ≡ some u → o ≡ some u
lock_wrapper-eq is_held none u h = h
lock_wrapper-eq is_held (some v) u h = elim (Bool-cases (is_held v)) [
  | inl e ↦ (rw e at h)
  | inr e ↦ absurd (none-ne-some u (rw e at h))
]

lock_wrapper-held :
    (is_held : ℕ → Bool) (o : Option ℕ) (v : ℕ)
    → o ≡ some v
    → is_held v ≡ true
    → lock_wrapper is_held o ≡ some v
lock_wrapper-held is_held o v e h = rw e (rw h refl)

module _ (n : ℕ) (hs : List Happening) (t : TimedServer) (w : Watched n hs t) where
  counts : is_positive (get_timeout t.wheel) ≡ true
  counts = get_timeout-positive t.wheel w.tracks.ready.positive w.signed

  gives : (u : ℕ) → insert t.wheel (some u) ≡ some (after_insert t.wheel u)
  unfolding step
  gives u = step-inserts t.wheel u w.tracks.ready

  connects-Follows : (k : List ℕ) → get_connection k t.server ≡ none → Follows n hs t (connects k)
  unfolding happen get_connection lookup update sounds bind after_insert
  connects-Follows k fresh = (
    after_accept n hs t w k,
    rw fresh (
        rw counts
          (rw (gives (length t.wrappers)) (rw (same_text_self k) (rw (same_text_self k) refl)))),
    Watched-accepted n hs t w k,
  )

  heeds :
      (c : TcpConnection)
      → c.on_message_set ≡ true
      → touch (some c) t ≡ with_wheel t (insert t.wheel (get_wrapper (holds t.wheel) c))
  heeds c m =
      let given = with_wheel t (insert t.wheel (get_wrapper (holds t.wheel) c)) in
      ap (λ b. if b && is_positive (get_timeout t.wheel) then given else some t) m
      ∙ ap (λ b. if b then given else some t) counts

  ignores : (c : TcpConnection) → c.on_message_set ≡ false → touch (some c) t ≡ some t
  ignores c m =
      ap
        (λ b.
          if b && is_positive (get_timeout t.wheel)
          then with_wheel t (insert t.wheel (get_wrapper (holds t.wheel) c))
          else some t)
        m

  -- A connection whose wrapper has ended gives the wheel nothing.
  gives_none :
      (c : TcpConnection)
      → lock_wrapper (holds t.wheel) c.wrapper ≡ none
      → with_wheel t (insert t.wheel (get_wrapper (holds t.wheel) c)) ≡ some t
  unfolding insert
  gives_none c e = ap (λ o. with_wheel t (insert t.wheel o)) e

  speaks_found :
      (k : List ℕ) (c : TcpConnection)
      → lookup k t.server.connections ≡ some c
      → (t' : TimedServer) × (touch (some c) t ≡ some t') × Watched n (sounds message k ∷ hs) t'
  speaks_found k c e = elim (Bool-cases c.on_message_set) [
    | inr m ↦
        (t, ignores c m, Watched-unheard n hs t w k (shut (λ p. true≢false (sym p.listens ∙ m))))
    | inl m ↦ elim (Option-cases (lock_wrapper (holds t.wheel) c.wrapper)) [
      | inl none_held ↦ (
        t,
        heeds c m ∙ gives_none c none_held,
        Watched-unheard n hs t w k (
            shut (λ p. none-ne-some _ (
              sym none_held
              ∙ lock_wrapper-held (holds t.wheel) c.wrapper p.number p.wraps p.held))),
      )
      | inr (u, held) ↦ (
        record t { wheel = after_insert t.wheel u },
        heeds c m ∙ (ap (λ o. with_wheel t (insert t.wheel o)) held ∙ ap (with_wheel t) (gives u)),
        Watched-touched n hs t w k c u e (lock_wrapper-eq (holds t.wheel) c.wrapper u held),
      )
    ]
  ]
    where
      shut :
          (IsWatched t.wheel c → ⊥)
          → (c' : TcpConnection) → lookup k t.server.connections ≡ some c'
          → c'.on_connect_close_set ≡ false
      shut not_watched c' e' = elim (Bool-cases c'.on_connect_close_set) [
        | inr h ↦ h
        | inl o ↦ absurd (
            not_watched
              (subst (IsWatched t.wheel) (some-injective c' c (sym e' ∙ e)) (w.watched k c' e' o)))
      ]

  speaks-Follows : (k : List ℕ) → Follows n hs t (speaks k)
  unfolding happen get_connection sounds
  speaks-Follows k = elim (Option-cases (lookup k t.server.connections)) [
    | inl e ↦
        (t, rw e refl, Watched-unheard n hs t w k (λ c e'. absurd (none-ne-some _ (sym e ∙ e'))))
    | inr (c, e) ↦ let (t', happens, w') = speaks_found k c e in (t', rw e happens, w')
  ]

  times-Follows : Follows n hs t times
  unfolding happen
  times-Follows =
      let (s, e, alive, owned, ch) = tick_lem t w.tracks.ready w.alive w.owned in
      (ticked t s, e, Watched-ticked n hs t w s alive owned ch)

  -- Events that close or remove connections.
  diminished :
      (h : Happening) (e : Event)
      → ((name : List ℕ) (age : ℕ) → heard name age (h ∷ hs) ≡ heard name age hs)
      → happen t h ≡ with_server t (step_server t.server e)
      → Diminishes t.server e
      → Follows n hs t h
  diminished h e quiet same (s', happens, alive, narrows) = (
    record t { server = s' },
    same ∙ ap (with_server t) happens,
    Watched-narrow n hs h t s' quiet alive narrows w,
  )

  -- Each event is defined, and leaves a server like that.
  pub happen-Watched : (h : Happening) → Permits t h → Follows n hs t h
  unfolding happen heard
  happen-Watched (connects k) ok = connects-Follows k ok
  happen-Watched (speaks k) ok = speaks-Follows k
  happen-Watched times ok = times-Follows
  happen-Watched (stream_ends k) ok =
      diminished (stream_ends k) (ends k) (λ name age. refl) refl (ends-Narrows t.server k w.alive)
  happen-Watched (handle_finishes k) ok =
      diminished (handle_finishes k) (finishes k) (λ name age. refl) refl
        (finishes-Narrows t.server k w.alive)
  happen-Watched (program_closes k) ok =
      diminished (program_closes k) (closes k) (λ name age. refl) refl
        (closes-Narrows t.server k w.alive ok)
