-- ===== src/TimerWheel/Misuse.antt =====
-- `set_timeout` of ae/timer_wheel.h after `start`: the vector keeps its length.
use ae_proxy.Base.{
  ℕ, zero, suc, ◌+◌, ◌^◌, ◌<◌, ◌≤◌, ◌≡◌, ◌≢◌, refl, ◌∙◌, [], some, none, lt→ltb, le→ltb, ne→==,
  length, replicate, set, length-set, arith,
}
use ae_proxy.TimerWheel.Ready.{IsReady}
use ae_proxy.TimerWheel.{TimerWheel, ticks, set_timeout, next_index, step, run}

module _ (w : TimerWheel) (ready : IsReady w) (m : ℕ) (longer : w.timeout_sec < m)
    (fits : m < 2 ^ 32) where
  -- Before the end of the vector the ticks still go on.
  record Advanced (n : ℕ) (v : TimerWheel) : Type 0 where
    index_eq : v.index ≡ w.index + n
    length_eq : length v.wheel ≡ w.timeout_sec
    timeout_eq : v.timeout_sec ≡ m

  tick_inside :
      (n : ℕ) (v : TimerWheel)
      → Advanced n v
      → w.index + suc n < w.timeout_sec
      → (u : TimerWheel) × (step v ticks ≡ some u) × Advanced (suc n) u
  unfolding step
  tick_inside n v a h = (
    record v { index = v.index + 1; wheel = set v.wheel (v.index + 1) [] },
    rw (ne→== timeout, next, lt→ltb (v.index + 1) (length v.wheel) inside),
    record {
      index_eq = omega (arith, a.index_eq);
      length_eq = length-set v.wheel (v.index + 1) [] ∙ a.length_eq;
      timeout_eq = a.timeout_eq;
    },
  )
    where
      timeout : v.timeout_sec ≢ 0
      timeout = omega (arith, a.timeout_eq)

      next : next_index v.index v.timeout_sec ≡ v.index + 1
      next = ground (arith, a.index_eq, a.timeout_eq)

      inside : v.index + 1 < length v.wheel
      inside = omega (arith, a.index_eq, a.length_eq)

  ticks_inside :
      (n : ℕ)
      → w.index + n < w.timeout_sec
      → (v : TimerWheel) × (run (set_timeout w m) (replicate n ticks) ≡ some v) × Advanced n v
  unfolding run set_timeout
  ticks_inside zero h = (
    set_timeout w m,
    refl,
    record { index_eq = omega arith; length_eq = ready.sized; timeout_eq = refl },
  )
  ticks_inside (suc n) h =
      let (v, e, a) = ticks_inside n (omega arith) in
      let (u, e', a') = tick_inside n v a h in (u, rw e e', a')

  tick_outside :
      (n : ℕ) (v : TimerWheel)
      → Advanced n v
      → w.index + suc n ≡ w.timeout_sec
      → step v ticks ≡ none
  unfolding step
  tick_outside n v a h = rw (ne→== timeout, next, le→ltb (v.index + 1) (length v.wheel) outside)
    where
      timeout : v.timeout_sec ≢ 0
      timeout = omega (arith, a.timeout_eq)

      next : next_index v.index v.timeout_sec ≡ v.index + 1
      next = ground (arith, a.index_eq, a.timeout_eq)

      outside : length v.wheel ≤ v.index + 1
      outside = omega (arith, a.index_eq, a.length_eq)

  outside_after :
      (n : ℕ)
      → w.index + suc n ≡ w.timeout_sec
      → run (set_timeout w m) (replicate (suc n) ticks) ≡ none
  unfolding run
  outside_after n h = let (v, e, a) = ticks_inside n (omega arith) in rw e (tick_outside n v a h)

  -- A timeout that is raised while the wheel runs sends it out of its vector: after as many ticks as
  -- there are slots from the current one to the end, `wheel_[index_]` is out of range.
  pub set_timeout-outside :
      (left : ℕ)
      → w.index + left ≡ w.timeout_sec
      → run (set_timeout w m) (replicate left ticks) ≡ none
  set_timeout-outside zero h = absurd (omega (arith, ready.inside))
  set_timeout-outside (suc n) h = outside_after n h
