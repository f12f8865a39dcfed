-- ===== src/TcpServer/Timed/Ticks.antt =====
-- What a tick of the timer wheel does to the connections of ae/tcp_server.cpp.
use ae_proxy.Base.{
  ℕ, zero, suc, ◌≡◌, inl, inr, refl, ap, sym, ◌∙◌, Bool, true, false, not, ◌&&◌, List, [], ◌∷◌,
  some, ◌==◌, ==_iff, if◌then◌else◌, Bool-cases, arith, get_or, set,
}
use mathlib.Core.Bool.{and-true, and-false}
use mathlib.Core.Option.{bind}
use ae_proxy.TimerWheel.{step, TimerWheel, next_index, wheel_callback}
use ae_proxy.TimerWheel.Slots.{contains}
use ae_proxy.TimerWheel.Ready.{IsReady, after_tick, step-ticks}
use ae_proxy.TimerWheel.Window.{holds, holds_in}
use ae_proxy.TcpConnection.{TcpConnection}
use ae_proxy.TcpServer.{TcpServer}
use ae_proxy.TcpServer.Table.{AreAlive}
use ae_proxy.TcpServer.Closing.{closed_down}
use ae_proxy.TcpServer.Timed.{
  TimedServer, is_wrapper, dropped, expire, with_server, after_callback, tick,
}
use ae_proxy.TcpServer.Timed.Expiry.{AreOwned, expired, Changes, wrapper_dies_lem, expired-AreOwned}

unfoldable pub expired_all : List ℕ → TcpConnection → TcpConnection
expired_all [] c = c
expired_all (v ∷ vs) c = expired_all vs (expired v c)

pub expire_lem :
    (wrappers : List (List ℕ)) (vs : List ℕ) (s : TcpServer)
    → AreAlive s.connections
    → AreOwned wrappers s.connections
    → (s' : TcpServer) × (expire wrappers vs s ≡ some s')
      × AreAlive s'.connections
      × AreOwned wrappers s'.connections
      × Changes (expired_all vs) s s'
unfolding expire expired_all bind
expire_lem wrappers [] s alive owned =
    (s, refl, alive, owned, record { found = λ name c e. e; missing = λ name e. e })
expire_lem wrappers (v ∷ vs) s alive owned =
    let (s1, e1, alive1, ch1) = wrapper_dies_lem wrappers v s alive owned in
    let owned1 = expired-AreOwned wrappers v s alive owned s1 ch1 in
    let (s2, e2, alive2, owned2, ch2) = expire_lem wrappers vs s1 alive1 owned1 in
    (
      s2,
      rw e1 e2,
      alive2,
      owned2,
      record {
        found = λ name c e. ch2.found name (expired v c) (ch1.found name c e);
        missing = λ name e. ch2.missing name (ch1.missing name e);
      },
    )

==_comm : (a b : ℕ) → (a == b) ≡ (b == a)
==_comm a b = ground arith

expired-quiet : (v : ℕ) (c : TcpConnection) → c.on_connect_close_set ≡ false → expired v c ≡ c
expired-quiet v c h = ground arith

pub expired_all-quiet :
    (vs : List ℕ) (c : TcpConnection) → c.on_connect_close_set ≡ false → expired_all vs c ≡ c
unfolding expired_all
expired_all-quiet [] c h = refl
expired_all-quiet (v ∷ vs) c h = rw (expired-quiet v c h) (expired_all-quiet vs c h)

expired-own :
    (u v : ℕ) (c : TcpConnection)
    → c.wrapper ≡ some v
    → c.on_connect_close_set ≡ true
    → expired u c ≡ (if u == v then closed_down c else c)
expired-own u v c w h =
    ap (λ b. if b then closed_down c else c)
      (ap (λ o. is_wrapper u o && c.on_connect_close_set) w
        ∙ (ap (λ b. (v == u) && b) h ∙ (and-true (v == u) ∙ ==_comm v u)))

-- An open connection is closed when its wrapper is among those that end.
pub expired_all-own :
    (vs : List ℕ) (v : ℕ) (c : TcpConnection)
    → c.wrapper ≡ some v
    → c.on_connect_close_set ≡ true
    → expired_all vs c ≡ (if contains v vs then closed_down c else c)
unfolding expired_all contains
expired_all-own [] v c w h = refl
expired_all-own (u ∷ vs) v c w h = elim (Bool-cases (u == v)) [
  | inl e ↦
      ap (expired_all vs) (expired-own u v c w h ∙ ap (λ b. if b then closed_down c else c) e)
      ∙ (expired_all-quiet vs (closed_down c) refl ∙ rw e refl)
  | inr e ↦
      ap (expired_all vs) (expired-own u v c w h ∙ ap (λ b. if b then closed_down c else c) e)
      ∙ (expired_all-own vs v c w h ∙ rw e refl)
]

same_holds : (w : TimerWheel) (u v : ℕ) {b : Bool} → (u == v) ≡ true → holds w u ≡ b → holds w v ≡ b
same_holds w u v e k = ap (holds w) (sym ((==_iff u v).0 e)) ∙ k

contains-dropped :
    (w : TimerWheel) (v : ℕ) (slot : List ℕ)
    → contains v (dropped w slot) ≡ (contains v slot && not (holds w v))
unfolding contains dropped
contains-dropped w v [] = refl
contains-dropped w v (u ∷ slot) = elim (Bool-cases (u == v)) [
  | inl e ↦ elim (Bool-cases (holds w u)) [
    | inl k ↦
        rw (k, e)
          (contains-dropped w v slot ∙ rw (same_holds w u v e k) (and-false (contains v slot)))
    | inr k ↦ rw (k, e) (rw (same_holds w u v e k) refl)
  ]
  | inr e ↦ elim (Bool-cases (holds w u)) [
    | inl k ↦ rw (k, e) (contains-dropped w v slot)
    | inr k ↦ rw (k, e) (contains-dropped w v slot)
  ]
]

-- What a wheel held and does not hold after a slot is cleared was in that slot.
contains-cleared :
    (v i : ℕ) (slots : List (List ℕ))
    → holds_in v slots ≡ true
    → holds_in v (set slots i []) ≡ false
    → contains v (get_or slots i []) ≡ true
unfolding holds_in contains
contains-cleared v i [] h k = cc
contains-cleared v zero (slot ∷ slots) h k = ground arith
contains-cleared v (suc i) (slot ∷ slots) h k = ground (arith, contains-cleared v i slots)

abbrev pub ticked : TimedServer → TcpServer → TimedServer
ticked t s = record t { server = s; wheel = after_tick t.wheel }

-- The wheel's part.
tick_wheel : (w : TimerWheel) → IsReady w → wheel_callback w ≡ some (after_tick w)
unfolding step
tick_wheel w r = step-ticks w r

-- What ends at a tick.
abbrev pub ending : TimedServer → List ℕ
ending t =
    dropped (after_tick t.wheel)
      (get_or t.wheel.wheel (next_index t.wheel.index t.wheel.timeout_sec) [])

pub contains-ending :
    (t : TimedServer) (v : ℕ)
    → holds t.wheel v ≡ true
    → contains v (ending t) ≡ not (holds (after_tick t.wheel) v)
unfolding after_tick holds
contains-ending t v held =
    let i = next_index t.wheel.index t.wheel.timeout_sec in
    contains-dropped (after_tick t.wheel) v (get_or t.wheel.wheel i [])
    ∙ (elim (Bool-cases (holds (after_tick t.wheel) v)) [
      | inl still ↦ rw still (and-false (contains v (get_or t.wheel.wheel i [])))
      | inr gone ↦ rw (gone, contains-cleared v i t.wheel.wheel held gone) refl
    ])

-- A tick is defined, and closes the open connections whose wrappers the wheel held and holds no more.
pub tick_lem :
    (t : TimedServer)
    → IsReady t.wheel
    → AreAlive t.server.connections
    → AreOwned t.wrappers t.server.connections
    → (s : TcpServer) × (tick t ≡ some (ticked t s))
      × AreAlive s.connections
      × AreOwned t.wrappers s.connections
      × Changes (expired_all (ending t)) t.server s
unfolding tick after_tick
tick_lem t ready alive owned =
    let (s, e, alive', owned', ch) = expire_lem t.wrappers (ending t) t.server alive owned in
    (
      s,
      ap (after_callback t) (tick_wheel t.wheel ready)
          ∙ ap (with_server (record t { wheel = after_tick t.wheel })) e,
      alive',
      owned',
      ch,
    )
