-- ===== src/EventLoop.antt =====
-- ae/event_loop.cpp, ae/event_loop.h, ae/async_task.cpp and ae/async_task.h: the loop's status and
-- the callbacks that other threads post to it. A callback and a thread are numbers; what libuv and
-- the other threads do is a sequence of events. A use of the freed handle, which is undefined in C++,
-- is `none`.
pub mod Trace
pub mod Queue
pub mod Steps
pub mod Delivery
pub mod Lifetime
pub mod Default
use ae_proxy.Base.{
  ℕ, zero, suc, Bool, true, false, ◌&&◌, ◌||◌, not, List, [], ◌∷◌, ◌++◌, Option, none, some, ℤ,
  success, failure, ◌==◌, if◌then◌else◌, is_nil,
}
use mathlib.Core.Option.{bind}
use Prim.Native.String.{String}

pub data Status : Type 0 where
  not_started started stopped : Status

-- The handle that `handle_` points to: before `init`, initialised, after `uv_close`, and deleted. The
-- pointer is never reset.
pub data Handle : Type 0 where
  absent opened closing freed : Handle

pub record Async : Type 0 where
  pub handle : Handle
  pub sent : Bool  -- `uv_async_send` came after the last wake-up
  pub callbacks : List ℕ
  pub has_close_callback : Bool  -- `onCloseCompletCallback_`, which only `stop` sets

pub record EventLoop : Type 0 where
  pub status : Status
  pub loop_thread : Option ℕ
  pub stop_flag : Bool  -- `uv_stop` was called
  pub async : Async

abbrev pub is_started : Status → Bool
is_started started = true
is_started _ = false

abbrev pub is_open : Handle → Bool
is_open opened = true
is_open _ = false

abbrev pub new_async : Async
new_async = record { handle = absent; sent = false; callbacks = []; has_close_callback = false }

abbrev pub new_loop : EventLoop
new_loop = record { status = not_started; loop_thread = none; stop_flag = false; async = new_async }

-- `if (nullptr == handle_)`, with the first wake-up sent at once.
abbrev pub init : Handle → Async → Async
init absent a = record a { handle = opened; sent = true }
init _ a = a

-- `Async::runInThisLoop`, by the handle that the test and `uv_async_send` find.
abbrev pub post_on : Handle → Async → ℕ → Option Async
post_on absent a c = some (record a { callbacks = a.callbacks ++ (c ∷ []) })
post_on freed a c = none
post_on opened a c = some (record a { callbacks = a.callbacks ++ (c ∷ []); sent = true })
post_on closing a c = some (record a { callbacks = a.callbacks ++ (c ∷ []); sent = true })

-- The locked part of `process`: the queue is swapped out, and its callbacks are to be run.
abbrev pub swap_out : Async → Async × List ℕ
swap_out a = (record a { callbacks = []; sent = false }, a.callbacks)

-- `Async::close`, by the handle that `uv_is_closing` finds.
abbrev pub close_on : Handle → Async → Option Async
close_on opened a = some (record a { handle = closing; has_close_callback = true })
close_on closing a = some (record a { has_close_callback = true })
close_on absent a = none
close_on freed a = none

-- What `run` and `run_no_wait` do before `uv_run`, called by a thread.
abbrev pub enter : EventLoop → ℕ → EventLoop
enter l thread = record l {
  async = init l.async.handle l.async;
  loop_thread = some thread;
  status = started;
}

-- `uv_run` dispatches what happens on the loop and returns a number; the status is set on the way out.
abbrev pub run_from : Status → Status → (EventLoop → EventLoop × ℤ) → EventLoop → ℕ → EventLoop × ℤ
run_from not_started leaves uv_run l thread =
    let (l', rst) = uv_run (enter l thread) in (record l' { status = leaves }, rst)
run_from _ leaves uv_run l thread = (l, failure)

unfoldable pub run : (EventLoop → EventLoop × ℤ) → EventLoop → ℕ → EventLoop × ℤ
run uv_run l thread = run_from l.status stopped uv_run l thread

unfoldable pub run_no_wait : (EventLoop → EventLoop × ℤ) → EventLoop → ℕ → EventLoop × ℤ
run_no_wait uv_run l thread = run_from l.status not_started uv_run l thread

abbrev pub with_closed : EventLoop → Option Async → Option (EventLoop × ℤ)
with_closed l none = none
with_closed l (some a) = some (record l { async = a }, success)

abbrev pub stop : EventLoop → Option (EventLoop × ℤ)
stop l =
    if is_started l.status
    then with_closed l (close_on l.async.handle l.async)
    else some (l, failure)

abbrev pub has_stopped : Status → Bool
has_stopped stopped = true
has_stopped _ = false

abbrev pub is_stopped : EventLoop → Bool
is_stopped l = has_stopped l.status

abbrev pub get_status : EventLoop → Status
get_status l = l.status

abbrev pub is_thread : Option ℕ → ℕ → Bool
is_thread none thread = false
is_thread (some t) thread = thread == t

abbrev pub is_run_in_loop_thread : EventLoop → ℕ → Bool
is_run_in_loop_thread l thread =
    if is_started l.status then is_thread l.loop_thread thread else false

-- What becomes of a callback.
pub data Action : Type 0 where
  queued : ℕ → Action
  ran_queued : ℕ → Action
  ran_at_once : ℕ → Action

abbrev pub with_posted : EventLoop → ℕ → Option Async → Option (EventLoop × List Action)
with_posted l c none = none
with_posted l c (some a) = some (record l { async = a }, queued c ∷ [])

unfoldable pub run_in_this_loop : EventLoop → ℕ → Option ℕ → Option (EventLoop × List Action)
run_in_this_loop l thread none = some (l, [])
run_in_this_loop l thread (some c) =
    if is_run_in_loop_thread l thread || is_stopped l
    then some (l, ran_at_once c ∷ [])
    else with_posted l c (post_on l.async.handle l.async c)

-- `-1` is `WriteInfo::Disconnected`; the texts of the other numbers are libuv's.
unfoldable pub get_error_message : (ℤ → String) → ℤ → String
get_error_message uv_strerror (ℤ.negsuc zero) = "the connection is disconnected"
get_error_message uv_strerror (ℤ.negsuc (suc n)) = uv_strerror (ℤ.negsuc (suc n))
get_error_message uv_strerror (ℤ.pos n) = uv_strerror (ℤ.pos n)

-- The loop among its threads: `process` has still to run the callbacks in `taken`.
pub record World : Type 0 where
  pub loop : EventLoop
  pub taken : List ℕ
  pub trace : List Action

abbrev pub new_world : World
new_world = record { loop = new_loop; taken = []; trace = [] }

pub data Event : Type 0 where
  enters : ℕ → Event  -- a thread calls `run`
  returns : Event  -- `uv_run` comes back
  posts : ℕ → Option ℕ → Event  -- a thread calls `run_in_this_loop`
  stops : Event  -- some thread calls `stop`
  wakes : Event  -- libuv calls `Async::Callback`
  runs : Event  -- `process` runs its next callback
  closes : Event  -- libuv calls the handle's close callback

-- libuv wakes an open handle that was sent to, on the loop's thread while nothing else runs there.
abbrev pub wakes_up : World → Bool
wakes_up w =
    is_started w.loop.status
    && (is_open w.loop.async.handle && (w.loop.async.sent && is_nil w.taken))

abbrev pub close_completed : Handle → EventLoop → EventLoop
close_completed closing l = record l {
  async = record l.async { handle = freed };
  stop_flag = l.stop_flag || l.async.has_close_callback;
}
close_completed _ l = l

-- The body of the loop in `process`.
abbrev pub run_next : List ℕ → World → World
run_next [] w = w
run_next (c ∷ rest) w = record w { taken = rest; trace = w.trace ++ (ran_queued c ∷ []) }

-- `run` up to `uv_run`.
abbrev pub begin : Status → EventLoop → ℕ → EventLoop
begin not_started l thread = enter l thread
begin _ l thread = l

abbrev pub with_trace : World → Option (EventLoop × List Action) → Option World
with_trace w none = none
with_trace w (some (l, done)) = some (record w { loop = l; trace = w.trace ++ done })

abbrev pub with_stopped : World → Option (EventLoop × ℤ) → Option World
with_stopped w none = none
with_stopped w (some (l, rst)) = some (record w { loop = l })

unfoldable pub step : World → Event → Option World
unfolding run_in_this_loop
step w (enters thread) = some (record w { loop = begin w.loop.status w.loop thread })
step w returns =
    if is_started w.loop.status && is_nil w.taken
    then some (record w { loop = record w.loop { status = stopped } })
    else some w
step w (posts thread c) = with_trace w (run_in_this_loop w.loop thread c)
step w stops = with_stopped w (stop w.loop)
step w wakes =
    if wakes_up w
    then (let (a, callbacks) = swap_out w.loop.async in
        some (record w { loop = record w.loop { async = a }; taken = callbacks }))
    else some w
step w runs = some (run_next w.taken w)
step w closes = some (record w { loop = close_completed w.loop.async.handle w.loop })

unfoldable pub run_events : World → List Event → Option World
run_events w [] = some w
run_events w (e ∷ es) = bind (step w e) (λ w'. run_events w' es)
