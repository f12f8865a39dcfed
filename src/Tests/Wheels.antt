-- ===== src/Tests/Wheels.antt =====
-- The timer wheel.
use ae_proxy.Base.{ℕ, ◌<◌, ◌≡◌, ◌↔◌, refl, true, List, [], ◌∷◌, some, none, arith}
use ae_proxy.TimerWheel.{TimerWheel, Event, inserts, ticks, new_wheel, start, insert, run}
use ae_proxy.TimerWheel.Tracks.{inserted_at}
use ae_proxy.TimerWheel.Window.{holds, run-window}

abbrev history : List Event
history = ticks ∷ ticks ∷ inserts 7 ∷ ticks ∷ inserts 5 ∷ []

run-window_example :
    (w : TimerWheel) × (run (start (new_wheel 3)) history ≡ some w)
    × ((holds w 7 ≡ true) ↔ ((age : ℕ) × (age < 3) × (inserted_at 7 age history ≡ true)))
run-window_example = run-window 3 7 history (omega arith) (omega arith)

-- An insertion before `start` is out of range, since the vector is still empty.
early_insert : insert (new_wheel 3) (some 7) ≡ none
unfolding insert new_wheel
early_insert = refl
