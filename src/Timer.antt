-- ===== src/Timer.antt =====
-- ae/timer.h and ae/timer.cpp: a timer over a libuv handle. What it asks libuv and whom it calls is a
-- list of effects.
use ae_proxy.Base.{
  ℕ, ◌≡◌, refl, Bool, true, false, List, [], ◌∷◌, if◌then◌else◌, Bool-cases, inl, inr,
}
use ae_proxy.TcpConnection.{Handle, opened, closing}

pub record Timer : Type 0 where
  pub started : Bool
  pub handle : Handle
  pub timeout : ℕ
  pub repeat : ℕ
  pub callback_set : Bool
  pub close_complete_set : Bool

pub data TimerEffect : Type 0 where
  starts_timer : ℕ → ℕ → TimerEffect
  sets_repeat : ℕ → TimerEffect
  times_out : TimerEffect
  completes_close : TimerEffect

abbrev pub new_timer : ℕ → ℕ → Bool → Timer
new_timer timeout repeat has_callback = record {
  started = false;
  handle = opened;
  timeout = timeout;
  repeat = repeat;
  callback_set = has_callback;
  close_complete_set = false;
}

unfoldable pub start_timer : Timer → Timer × List TimerEffect
start_timer t =
    if t.started
    then (t, [])
    else (record t { started = true }, starts_timer t.timeout t.repeat ∷ [])

abbrev pub complete_close : Timer → List TimerEffect
complete_close t = if t.close_complete_set then completes_close ∷ [] else []

-- `close` by what `uv_is_closing` finds.
abbrev pub close_timer_handle : Handle → Timer → Timer × List TimerEffect
close_timer_handle opened t = (record t { handle = closing }, [])
close_timer_handle _ t = (t, complete_close t)

unfoldable pub close_timer : Timer → Bool → Timer × List TimerEffect
close_timer t has_callback =
    close_timer_handle t.handle (record t { close_complete_set = has_callback })

abbrev pub set_timer_repeat : Timer → ℕ → Timer × List TimerEffect
set_timer_repeat t ms = (record t { repeat = ms }, sets_repeat ms ∷ [])

abbrev pub on_time_out : Timer → List TimerEffect
on_time_out t = if t.callback_set then times_out ∷ [] else []

-- A timer starts once: a second start leaves it as it is and asks nothing of libuv.
pub start_timer-start_timer : (t : Timer) → start_timer (start_timer t).0 ≡ ((start_timer t).0, [])
unfolding start_timer
start_timer-start_timer t = elim (Bool-cases t.started) [ inl e ↦ rw e refl | inr e ↦ rw e refl ]
