-- ===== src/TimerWheel/Tracks.antt =====
-- What each slot of a started wheel of ae/timer_wheel.h holds.
use ae_proxy.Base.{
  ℕ, zero, suc, ◌+◌, ◌-◌, ◌^◌, ◌<◌, ◌≡◌, ◌≢◌, refl, sym, ap, ◌∙◌, inl, inr, Bool, false, ◌||◌, List,
  [], ◌∷◌, some, ◌==◌, if◌then◌else◌, Bool-cases, leb, length, get_or, set, arith,
}
use ae_proxy.TimerWheel.Slots.{
  contains, put, contains-nil, contains-put, get_or-resize, get_or-set_self, get_or-set_ne,
}
use ae_proxy.TimerWheel.Ready.{
  IsReady, fresh, fresh-IsReady, next_index-lt, after_insert, after_tick, step-inserts, step-ticks,
  after_insert-IsReady, after_tick-IsReady,
}
use ae_proxy.TimerWheel.{TimerWheel, Event, inserts, ticks, next_index, run}

-- The pointer was inserted, and exactly `age` ticks came after that, in a history whose newest
-- event stands first.
unfoldable pub inserted_at : ℕ → ℕ → List Event → Bool
inserted_at v age [] = false
inserted_at v zero (inserts u ∷ earlier) = u == v || inserted_at v zero earlier
inserted_at v (suc age) (inserts u ∷ earlier) = inserted_at v (suc age) earlier
inserted_at v zero (ticks ∷ earlier) = false
inserted_at v (suc age) (ticks ∷ earlier) = inserted_at v age earlier

-- The slot that was current `age` ticks ago.
abbrev pub position : ℕ → ℕ → ℕ → ℕ
position index timeout age = if leb age index then index - age else index + timeout - age

-- Every slot holds what was inserted while it was current, `age` ticks ago.
pub record Tracks (es : List Event) (w : TimerWheel) : Type 0 where
  pub ready : IsReady w
  pub slots :
      (age v : ℕ)
      → age < w.timeout_sec
      → contains v (get_or w.wheel (position w.index w.timeout_sec age) []) ≡ inserted_at v age es

position-next :
    (i n age : ℕ)
    → i < n
    → n < 2 ^ 32
    → suc age < n
    → position (next_index i n) n (suc age) ≡ position i n age
position-next i n age h k l = ground arith

position-next_ne :
    (i n age : ℕ) → i < n → n < 2 ^ 32 → suc age < n → next_index i n ≢ position i n age
position-next_ne i n age h k l = ground arith

position-zero : (i n : ℕ) → position i n 0 ≡ i
position-zero i n = ground arith

position-ne_zero : (i n age : ℕ) → i < n → suc age < n → i ≢ position i n (suc age)
position-ne_zero i n age h l = ground arith

pub position-lt : (i n age : ℕ) → i < n → age < n → position i n age < n
position-lt i n age h l = ground arith

-- Every index is the position of an age.
pub age_of : (i n p : ℕ) → i < n → p < n → (age : ℕ) × (age < n) × (position i n age ≡ p)
age_of i n p h k = elim (Bool-cases (leb p i)) [
  | inl before ↦ (i - p, ground arith, ground arith)
  | inr behind ↦ (i + n - p, ground arith, ground arith)
]

pub Tracks-fresh : (n : ℕ) → 0 < n → n < 2 ^ 32 → Tracks [] (fresh n)
unfolding inserted_at
Tracks-fresh n h k = record {
  ready = fresh-IsReady n h k;
  slots = λ age v l. rw (get_or-resize n (position 0 n age)) (contains-nil v);
}

module _ (es : List Event) (w : TimerWheel) (t : Tracks es w) where
  inserts-slots :
      (u age v : ℕ)
      → age < w.timeout_sec
      → contains v (
          get_or
            (set w.wheel w.index (put u (get_or w.wheel w.index [])))
            (position w.index w.timeout_sec age)
            [])
        ≡ inserted_at v age (inserts u ∷ es)
  unfolding inserted_at
  inserts-slots u zero v l =
      rw
        (
          position-zero w.index w.timeout_sec,
          get_or-set_self w.wheel w.index (put u (get_or w.wheel w.index [])) []
              (omega (arith, t.ready.sized, t.ready.inside)),
          contains-put u v (get_or w.wheel w.index []),
        )
        (ap (◌||◌ (u == v)) (
          ap (λ p. contains v (get_or w.wheel p [])) (sym (position-zero w.index w.timeout_sec))
          ∙ t.slots zero v l))
  inserts-slots u (suc age) v l =
      rw
        (get_or-set_ne w.wheel w.index (position w.index w.timeout_sec (suc age))
          (put u (get_or w.wheel w.index [])) []
          (position-ne_zero w.index w.timeout_sec age t.ready.inside l))
        (t.slots (suc age) v l)

  ticks-slots :
      (age v : ℕ)
      → age < w.timeout_sec
      → (let i = next_index w.index w.timeout_sec in
          contains v (get_or (set w.wheel i []) (position i w.timeout_sec age) [])
          ≡ inserted_at v age (ticks ∷ es))
  unfolding inserted_at
  ticks-slots zero v l =
      let i = next_index w.index w.timeout_sec in
      let inside : i < length w.wheel =
        omega
          (arith, t.ready.sized, next_index-lt w.index w.timeout_sec t.ready.inside t.ready.fits) in
      rw (position-zero i w.timeout_sec, get_or-set_self w.wheel i [] [] inside) (contains-nil v)
  ticks-slots (suc age) v l =
      let i = next_index w.index w.timeout_sec in
      rw
        (
          position-next w.index w.timeout_sec age t.ready.inside t.ready.fits l,
          get_or-set_ne w.wheel i (position w.index w.timeout_sec age) [] []
              (position-next_ne w.index w.timeout_sec age t.ready.inside t.ready.fits l),
        )
        (t.slots age v (omega arith))

  pub Tracks-inserts : (u : ℕ) → Tracks (inserts u ∷ es) (after_insert w u)
  unfolding after_insert
  Tracks-inserts u = record { ready = after_insert-IsReady w u t.ready; slots = inserts-slots u }

  pub Tracks-ticks : Tracks (ticks ∷ es) (after_tick w)
  unfolding after_tick
  Tracks-ticks = record { ready = after_tick-IsReady w t.ready; slots = ticks-slots }

-- The wheel runs through any history, and tracks it.
pub run-Tracks :
    (n : ℕ) (es : List Event)
    → 0 < n
    → n < 2 ^ 32
    → (w : TimerWheel) × (run (fresh n) es ≡ some w) × Tracks es w × (w.timeout_sec ≡ n)
unfolding run after_insert after_tick
run-Tracks n [] h k = (fresh n, refl, Tracks-fresh n h k, refl)
run-Tracks n (inserts u ∷ es) h k =
    let (w, e, t, same) = run-Tracks n es h k in
    (after_insert w u, rw e (step-inserts w u t.ready), Tracks-inserts es w t u, same)
run-Tracks n (ticks ∷ es) h k =
    let (w, e, t, same) = run-Tracks n es h k in
    (after_tick w, rw e (step-ticks w t.ready), Tracks-ticks es w t, same)
