-- ===== src/TimerWheel/Ready.antt =====
-- A started wheel of ae/timer_wheel.h never leaves its vector.
use ae_proxy.Base.{
  ℕ, ◌^◌, ◌<◌, ◌≡◌, ◌≢◌, refl, ◌∙◌, true, [], some, lt→ltb, ne→==, length, get_or, set, length-set,
  arith,
}
use ae_proxy.TimerWheel.Slots.{put, resize, length-resize}
use ae_proxy.TimerWheel.{TimerWheel, Event, inserts, ticks, new_wheel, start, next_index, step}

pub record IsReady (w : TimerWheel) : Type 0 where
  pub positive : 0 < w.timeout_sec
  pub fits : w.timeout_sec < 2 ^ 32
  pub sized : length w.wheel ≡ w.timeout_sec
  pub inside : w.index < w.timeout_sec

-- A started wheel: all slots empty.
abbrev pub fresh : ℕ → TimerWheel
fresh n = record { index = 0; timeout_sec = n; timer_started = true; wheel = resize n [] }

pub start-fresh : (n : ℕ) → 0 < n → start (new_wheel n) ≡ fresh n
unfolding start new_wheel
start-fresh n h = let positive : n ≢ 0 = omega arith in rw (ne→== positive)

pub fresh-IsReady : (n : ℕ) → 0 < n → n < 2 ^ 32 → IsReady (fresh n)
fresh-IsReady n h k = record { positive = h; fits = k; sized = length-resize n []; inside = h }

pub start-IsReady : (n : ℕ) → 0 < n → n < 2 ^ 32 → IsReady (start (new_wheel n))
start-IsReady n h k = rw (start-fresh n h) (fresh-IsReady n h k)

pub next_index-lt : (i n : ℕ) → i < n → n < 2 ^ 32 → next_index i n < n
next_index-lt i n h k = ground arith

-- What a step does to a wheel that is ready.
unfoldable pub after_insert : TimerWheel → ℕ → TimerWheel
after_insert w v = record w { wheel = set w.wheel w.index (put v (get_or w.wheel w.index [])) }

unfoldable pub after_tick : TimerWheel → TimerWheel
after_tick w =
    let i = next_index w.index w.timeout_sec in record w { index = i; wheel = set w.wheel i [] }

pub step-inserts :
    (w : TimerWheel) (v : ℕ) → IsReady w → step w (inserts v) ≡ some (after_insert w v)
unfolding step after_insert
step-inserts w v r = rw (lt→ltb 0 w.timeout_sec r.positive, lt→ltb _ _ here)
  where
    here : w.index < length w.wheel
    here = omega (arith, r.sized, r.inside)

pub step-ticks : (w : TimerWheel) → IsReady w → step w ticks ≡ some (after_tick w)
unfolding step after_tick
step-ticks w r = rw (ne→== positive, lt→ltb _ _ there)
  where
    positive : w.timeout_sec ≢ 0
    positive = omega (arith, r.positive)

    there : next_index w.index w.timeout_sec < length w.wheel
    there = omega (arith, r.sized, next_index-lt w.index w.timeout_sec r.inside r.fits)

pub after_insert-IsReady : (w : TimerWheel) (v : ℕ) → IsReady w → IsReady (after_insert w v)
unfolding after_insert
after_insert-IsReady w v r = record {
  positive = r.positive;
  fits = r.fits;
  sized = length-set w.wheel w.index (put v (get_or w.wheel w.index [])) ∙ r.sized;
  inside = r.inside;
}

pub after_tick-IsReady : (w : TimerWheel) → IsReady w → IsReady (after_tick w)
unfolding after_tick
after_tick-IsReady w r = record {
  positive = r.positive;
  fits = r.fits;
  sized = length-set w.wheel (next_index w.index w.timeout_sec) [] ∙ r.sized;
  inside = next_index-lt w.index w.timeout_sec r.inside r.fits;
}

-- On a wheel that is ready no insertion and no tick goes out of the vector's range, and the wheel
-- is ready afterwards, with the same timeout.
step-IsReady :
    (w : TimerWheel) (e : Event)
    → IsReady w
    → (w' : TimerWheel) × (step w e ≡ some w') × IsReady w' × (w'.timeout_sec ≡ w.timeout_sec)
unfolding after_insert after_tick
step-IsReady w (inserts v) r =
    (after_insert w v, step-inserts w v r, after_insert-IsReady w v r, refl)
step-IsReady w ticks r = (after_tick w, step-ticks w r, after_tick-IsReady w r, refl)
