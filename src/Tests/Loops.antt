-- ===== src/Tests/Loops.antt =====
-- The event loop.
use ae_proxy.Base.{ℕ, ◌≡◌, refl, true, false, List, [], ◌∷◌, ◌++◌, some, ℤ, success}
use mathlib.Core.Option.{bind}
use ae_proxy.EventLoop.{
  EventLoop, World, new_world, Event, enters, posts, stops, wakes, closes, started, step,
  run_events, run_in_this_loop, opened, closing, freed, queued, ran_at_once,
}
use ae_proxy.EventLoop.Trace.{queued_of, ran_of}
use ae_proxy.EventLoop.Delivery.{deliver, run_events-in_order, run_events-delivered}
use ae_proxy.EventLoop.Lifetime.{run_events-lost}

-- A callback is posted before the loop runs, two more while the first one is processed.
abbrev busy : List Event
busy =
    posts 2 (some 10)
    ∷ enters 1
    ∷ wakes
    ∷ posts 2 (some 11)
    ∷ posts 1 (some 12)
    ∷ posts 3 (some 13)
    ∷ []

abbrev busy_world : World
busy_world = record {
  loop = record {
    status = started;
    loop_thread = some 1;
    stop_flag = false;
    async = record {
      handle = opened;
      sent = true;
      callbacks = 11 ∷ 13 ∷ [];
      has_close_callback = false;
    };
  };
  taken = 10 ∷ [];
  trace = queued 10 ∷ queued 11 ∷ ran_at_once 12 ∷ queued 13 ∷ [];
}

busy_run : run_events new_world busy ≡ some busy_world
unfolding run_events step run_in_this_loop bind
busy_run = refl

run_events-in_order_example :
    ran_of busy_world.trace ++ busy_world.taken ++ busy_world.loop.async.callbacks
    ≡ queued_of busy_world.trace
run_events-in_order_example = run_events-in_order busy busy_world busy_run

run_events-delivered_example :
    (w : World) × (run_events busy_world (deliver busy_world) ≡ some w)
    × (w.loop.async.callbacks ≡ [])
    × (w.taken ≡ [])
    × (ran_of w.trace ≡ queued_of busy_world.trace)
run_events-delivered_example = run_events-delivered busy busy_world busy_run refl refl

-- The same loop when `stop` has closed the handle, and when the handle is deleted.
abbrev stopping : World
stopping = record busy_world {
  loop = record busy_world.loop {
    async = record busy_world.loop.async { handle = closing; has_close_callback = true };
  };
}

abbrev deleted : World
deleted = record stopping {
  loop = record stopping.loop {
    stop_flag = true;
    async = record stopping.loop.async { handle = freed };
  };
}

stop_run : run_events busy_world (stops ∷ closes ∷ []) ≡ some deleted
unfolding run_events step bind
stop_run = refl

run_events-lost_example :
    (more : List ℕ) × (deleted.loop.async.callbacks ≡ stopping.loop.async.callbacks ++ more)
unfolding run_events step bind
run_events-lost_example = run_events-lost stopping (closes ∷ []) deleted refl refl

-- A loop on which nothing happens.
abbrev idle_run : EventLoop → EventLoop × ℤ
idle_run l = (l, success)
