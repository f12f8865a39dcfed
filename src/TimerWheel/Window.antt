-- ===== src/TimerWheel/Window.antt =====
-- What a started wheel of ae/timer_wheel.h holds: the pointers inserted within the last `timeout`
-- ticks.
use ae_proxy.Base.{
  ℕ, zero, suc, ◌^◌, ◌<◌, ◌≡◌, ◌↔◌, sym, ◌∙◌, inl, inr, Bool, true, false, ◌||◌, List, [], ◌∷◌,
  some, Bool-cases, length, get_or, arith,
}
use ae_proxy.TimerWheel.Slots.{contains}
use ae_proxy.TimerWheel.Ready.{start-fresh}
use ae_proxy.TimerWheel.{TimerWheel, Event, new_wheel, start, run}
use ae_proxy.TimerWheel.Tracks.{inserted_at, position, Tracks, position-lt, age_of, run-Tracks}

-- Some slot holds the pointer.
unfoldable pub holds_in : ℕ → List (List ℕ) → Bool
holds_in v [] = false
holds_in v (slot ∷ slots) = contains v slot || holds_in v slots

unfoldable pub holds : TimerWheel → ℕ → Bool
holds w v = holds_in v w.wheel

holds_in-at :
    (v p : ℕ) (slots : List (List ℕ))
    → p < length slots
    → contains v (get_or slots p []) ≡ true
    → holds_in v slots ≡ true
unfolding holds_in
holds_in-at v p [] h c = absurd (omega arith)
holds_in-at v zero (slot ∷ slots) h c = rw c
holds_in-at v (suc p) (slot ∷ slots) h c = ground (arith, holds_in-at v p slots)

at-holds_in :
    (v : ℕ) (slots : List (List ℕ))
    → holds_in v slots ≡ true
    → (p : ℕ) × (p < length slots) × (contains v (get_or slots p []) ≡ true)
unfolding holds_in
at-holds_in v [] h = cc
at-holds_in v (slot ∷ slots) h = elim (Bool-cases (contains v slot)) [
  | inl here ↦ (0, omega arith, here)
  | inr further ↦ let (p, l, c) = at-holds_in v slots (rw further at h) in (suc p, omega arith, c)
]

pub held-inserted :
    (es : List Event) (w : TimerWheel) (v : ℕ)
    → Tracks es w
    → holds_in v w.wheel ≡ true
    → (age : ℕ) × (age < w.timeout_sec) × (inserted_at v age es ≡ true)
held-inserted es w v t c =
    let (p, l, hit) = at-holds_in v w.wheel c in
    let (age, below, e) =
      age_of w.index w.timeout_sec p t.ready.inside (omega (arith, t.ready.sized)) in
    (age, below, sym (t.slots age v below) ∙ rw e hit)

pub inserted-held :
    (es : List Event) (w : TimerWheel) (v age : ℕ)
    → Tracks es w
    → age < w.timeout_sec
    → inserted_at v age es ≡ true
    → holds_in v w.wheel ≡ true
inserted-held es w v age t below e =
    holds_in-at v (position w.index w.timeout_sec age) w.wheel
      (omega (arith, t.ready.sized, position-lt w.index w.timeout_sec age t.ready.inside below))
      (t.slots age v below ∙ e)

-- The wheel is a sliding window. Started with a timeout of n seconds, it runs through every history
-- of insertions and ticks without leaving its vector, and then holds exactly the pointers that
-- were inserted within the last n ticks: an entry is dropped by the n-th tick after its last
-- insertion and by no earlier one.
pub run-window :
    (n v : ℕ) (es : List Event)
    → 0 < n
    → n < 2 ^ 32
    → (w : TimerWheel) × (run (start (new_wheel n)) es ≡ some w)
      × ((holds w v ≡ true) ↔ ((age : ℕ) × (age < n) × (inserted_at v age es ≡ true)))
unfolding holds
run-window n v es h k =
    let (w, e, t, same) = run-Tracks n es h k in
    (
      w,
      rw (start-fresh n h) e,
      (
        λ c. let (age, l, i) = held-inserted es w v t c in (age, omega arith, i),
        λ (age, l, i). inserted-held es w v age t (omega arith) i,
      ),
    )
