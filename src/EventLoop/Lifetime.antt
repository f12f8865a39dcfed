-- ===== src/EventLoop/Lifetime.antt =====
-- The status of the loop of ae/event_loop.cpp, and what becomes of the posted callbacks once `stop`
-- has closed the handle.
use ae_proxy.Base.{
  ℕ, ne→==, ◌≡◌, ◌≢◌, inl, inr, refl, ap, sym, subst, ◌∙◌, Bool, true, false, ◌&&◌, ◌||◌, List, [],
  ◌∷◌, ◌++◌, append-nil, append_assoc, none, some, ℤ, failure, arith, Bool-cases, Option-cases,
  is_nil,
}
use mathlib.Core.Bool.{and-false}
use mathlib.Core.Option.{bind, none-ne-some}
use ae_proxy.EventLoop.{
  Status, not_started, started, stopped, Handle, absent, opened, closing, freed, EventLoop, is_open,
  is_started, World, Event, enters, returns, posts, stops, wakes, runs, closes, step, run,
  run_events, run_next, run_in_this_loop, wakes_up, begin, init, post_on, close_on, with_trace,
  with_posted, with_stopped, with_closed, close_completed, is_run_in_loop_thread, is_stopped,
  has_stopped, is_thread, run_from,
}
use ae_proxy.EventLoop.Trace.{Holds}

-- `uv_close` was called on the handle.
abbrev pub is_closed : Handle → Bool
is_closed closing = true
is_closed freed = true
is_closed _ = false

-- The queue has only grown, and the handle stays closed.
record Stuck (callbacks : List ℕ) (w : World) : Type 0 where
  shut : is_closed w.loop.async.handle ≡ true
  more : List ℕ
  grown : w.loop.async.callbacks ≡ callbacks ++ more

begin-Stuck :
    (callbacks : List ℕ) (w : World) (status : Status) (t : ℕ)
    → Stuck callbacks w
    → Stuck callbacks (record w { loop = begin status w.loop t })
begin-Stuck cs w not_started t s = go w.loop.async.handle s.shut
  where
    go :
        (handle : Handle)
        → is_closed handle ≡ true
        → Stuck cs (record w {
          loop = record w.loop {
            async = init handle w.loop.async;
            loop_thread = some t;
            status = started;
          };
        })
    go absent h = ground arith
    go opened h = ground arith
    go closing h = record { shut = s.shut; more = s.more; grown = s.grown }
    go freed h = record { shut = s.shut; more = s.more; grown = s.grown }
begin-Stuck cs w started t s = s
begin-Stuck cs w stopped t s = s

run_next-Stuck :
    (callbacks : List ℕ) (w : World) (taken : List ℕ)
    → Stuck callbacks w
    → Stuck callbacks (run_next taken w)
run_next-Stuck cs w [] s = s
run_next-Stuck cs w (c ∷ rest) s = record { shut = s.shut; more = s.more; grown = s.grown }

closed-is_open : (handle : Handle) → is_closed handle ≡ true → is_open handle ≡ false
closed-is_open absent h = refl
closed-is_open opened h = sym h
closed-is_open closing h = refl
closed-is_open freed h = refl

never_wakes : (w : World) → is_closed w.loop.async.handle ≡ true → wakes_up w ≡ false
never_wakes w h = rw (closed-is_open w.loop.async.handle h) (and-false (is_started w.loop.status))

step-Stuck :
    (callbacks : List ℕ) (w : World) (e : Event)
    → Stuck callbacks w
    → Holds (Stuck callbacks) (step w e)
unfolding step Holds run_in_this_loop
step-Stuck cs w (enters t) s = begin-Stuck cs w w.loop.status t s
step-Stuck cs w returns s = elim (Bool-cases (is_started w.loop.status && is_nil w.taken)) [
  | inl h ↦ rw h (record { shut = s.shut; more = s.more; grown = s.grown })
  | inr h ↦ rw h s
]
step-Stuck cs w (posts t none) s = record { shut = s.shut; more = s.more; grown = s.grown }
step-Stuck cs w (posts t (some c)) s =
    elim (Bool-cases (is_run_in_loop_thread w.loop t || is_stopped w.loop)) [
      | inl h ↦ rw h (record { shut = s.shut; more = s.more; grown = s.grown })
      | inr h ↦ rw h (go w.loop.async.handle s.shut)
    ]
  where
    go :
        (handle : Handle)
        → is_closed handle ≡ true
        → Holds (Stuck cs) (with_trace w (with_posted w.loop c (post_on handle w.loop.async c)))
    go absent h = ground arith
    go opened h = ground arith
    go closing h = record {
      shut = s.shut;
      more = s.more ++ (c ∷ []);
      grown = rw s.grown (append_assoc cs s.more (c ∷ []));
    }
    go freed h = _
step-Stuck cs w stops s = elim (Bool-cases (is_started w.loop.status)) [
  | inl h ↦ rw h (go w.loop.async.handle s.shut)
  | inr h ↦ rw h s
]
  where
    go :
        (handle : Handle)
        → is_closed handle ≡ true
        → Holds (Stuck cs) (with_stopped w (with_closed w.loop (close_on handle w.loop.async)))
    go absent h = ground arith
    go opened h = ground arith
    go closing h = record { shut = s.shut; more = s.more; grown = s.grown }
    go freed h = _
step-Stuck cs w wakes s = rw (never_wakes w s.shut) s
step-Stuck cs w runs s = run_next-Stuck cs w w.taken s
step-Stuck cs w closes s = go w.loop.async.handle
  where
    go : (handle : Handle) → Stuck cs (record w { loop = close_completed handle w.loop })
    go absent = s
    go opened = s
    go closing = record { shut = refl; more = s.more; grown = s.grown }
    go freed = s

run_events-Stuck :
    (callbacks : List ℕ) (w : World) (es : List Event) (w' : World)
    → Stuck callbacks w
    → run_events w es ≡ some w'
    → Stuck callbacks w'
unfolding run_events Holds bind
run_events-Stuck cs w [] w' s e = subst (Holds (Stuck cs)) e s
run_events-Stuck cs w (event ∷ es) w' s e = elim (Option-cases (step w event)) [
  | inl h ↦ absurd (none-ne-some _ (sym (ap (λ o. bind o (λ x. run_events x es)) h) ∙ e))
  | inr (next, h) ↦
      run_events-Stuck cs next es w' (subst (Holds (Stuck cs)) h (step-Stuck cs w event s))
        (sym (ap (λ o. bind o (λ x. run_events x es)) h) ∙ e)
]

-- Once `stop` has closed the handle, no event takes a callback from the queue any more: whatever
-- happens, what waits there, and what is posted behind it, stays and never runs.
pub run_events-lost :
    (w : World) (es : List Event) (w' : World)
    → is_closed w.loop.async.handle ≡ true
    → run_events w es ≡ some w'
    → (more : List ℕ) × (w'.loop.async.callbacks ≡ w.loop.async.callbacks ++ more)
run_events-lost w es w' h e =
    let s =
      run_events-Stuck w.loop.async.callbacks w es w'
        (record { shut = h; more = []; grown = sym (append-nil w.loop.async.callbacks) }) e in
    (s.more, s.grown)

outside_thread :
    (w : World) (thread owner : ℕ)
    → w.loop.status ≡ started
    → w.loop.loop_thread ≡ some owner
    → thread ≢ owner
    → (is_run_in_loop_thread w.loop thread || is_stopped w.loop) ≡ false
outside_thread w thread owner running mine other =
    rw (ap is_started running, ap has_stopped running, ap (λ t. is_thread t thread) mine)
      (ap (λ b. b || false) (ne→== other))

-- Between the close callback, which deletes the handle but keeps the pointer, and the return of
-- `uv_run`, a post from another thread and a second `stop` use the deleted handle.
step-freed :
    (w : World) (thread owner c : ℕ)
    → w.loop.status ≡ started
    → w.loop.async.handle ≡ freed
    → w.loop.loop_thread ≡ some owner
    → thread ≢ owner
    → (step w (posts thread (some c)) ≡ none) × (step w stops ≡ none)
unfolding step run_in_this_loop
step-freed w thread owner c running gone mine other =
    (simp (outside_thread w thread owner running mine other, gone) refl, simp (running, gone) refl)

-- A loop runs at most once: after a call of `run`, whatever it did, each later one returns -1 and
-- leaves the loop as it is.
run-run :
    (uv_run uv_run' : EventLoop → EventLoop × ℤ) (l : EventLoop) (thread thread' : ℕ)
    → run uv_run' (run uv_run l thread).0 thread' ≡ ((run uv_run l thread).0, failure)
unfolding run
run-run f g l thread thread' = go l.status refl
  where
    go :
        (status : Status)
        → l.status ≡ status
        → run g (run_from status stopped f l thread).0 thread'
          ≡ ((run_from status stopped f l thread).0, failure)
    go not_started e = refl
    go started e = ap (λ st. run_from st stopped g l thread') e
    go stopped e = ap (λ st. run_from st stopped g l thread') e
