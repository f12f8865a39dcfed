-- ===== src/TimerWheel.antt =====
-- ae/timer_wheel.h: the wheel of slots that drops what was not inserted for `timeout` ticks. A
-- shared pointer is the number of its object, a slot (`std::set`) a list without repetitions. An
-- access to the vector outside its length, which is undefined in C++, is `none`.
pub mod Slots
pub mod Ready
pub mod Tracks
pub mod Window
pub mod Misuse
use ae_proxy.Base.{
  ℕ, zero, suc, ◌+◌, ◌-◌, ◌%◌, ◌^◌, Bool, true, false, ◌&&◌, List, [], ◌∷◌, Option, some, none, ℤ,
  ltb, ◌==◌, if◌then◌else◌, length, get_or, set,
}
use Slots.{put, resize}

pub record TimerWheel : Type 0 where
  pub index : ℕ  -- unsigned int
  pub timeout_sec : ℕ  -- unsigned int
  pub timer_started : Bool  -- `timer_`, which ticks once a second
  pub wheel : List (List ℕ)

unfoldable pub new_wheel : ℕ → TimerWheel
new_wheel timeout = record { index = 0; timeout_sec = timeout; timer_started = false; wheel = [] }

unfoldable pub set_timeout : TimerWheel → ℕ → TimerWheel
set_timeout w seconds = record w { timeout_sec = seconds }

-- `int get_timeout()` returns the unsigned field as an int of 32 bits.
unfoldable pub get_timeout : TimerWheel → ℤ
get_timeout w =
    if ltb w.timeout_sec (2 ^ 31)
    then ℤ.pos w.timeout_sec
    else ℤ.negsuc (2 ^ 32 - 1 - w.timeout_sec)

unfoldable pub start : TimerWheel → TimerWheel
start w =
    if w.timeout_sec == 0
    then w
    else record w { wheel = resize w.timeout_sec w.wheel; timer_started = true }

-- `wheel_[index_].insert(value)`
insert_at : TimerWheel → ℕ → Option TimerWheel
insert_at w value =
    if ltb w.index (length w.wheel)
    then some (record w { wheel = set w.wheel w.index (put value (get_or w.wheel w.index [])) })
    else none

unfoldable pub insert : TimerWheel → Option ℕ → Option TimerWheel
unfolding insert_at
insert w none = some w
insert w (some value) = if ltb 0 w.timeout_sec then insert_at w value else some w

-- `if (++index_ == timeoutSec_) index_ = 0;`
abbrev pub next_index : ℕ → ℕ → ℕ
next_index index timeout = if ((index + 1) % 2 ^ 32) == timeout then 0 else (index + 1) % 2 ^ 32

unfoldable pub wheel_callback : TimerWheel → Option TimerWheel
wheel_callback w =
    if w.timeout_sec == 0
    then some w
    else (let i = next_index w.index w.timeout_sec in
        if ltb i (length w.wheel)
        then some (record w { index = i; wheel = set w.wheel i [] })
        else none)

-- What the environment does to a wheel that runs.
pub data Event : Type 0 where
  inserts : ℕ → Event
  ticks : Event

unfoldable pub step : TimerWheel → Event → Option TimerWheel
unfolding insert wheel_callback
step w (inserts value) = insert w (some value)
step w ticks = wheel_callback w

-- The newest event first.
unfoldable pub run : TimerWheel → List Event → Option TimerWheel
run w [] = some w
run w (e ∷ earlier) = elim (run w earlier) [ none ↦ none | some w' ↦ step w' e ]
