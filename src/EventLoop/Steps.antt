-- ===== src/EventLoop/Steps.antt =====
-- Each event of the loop of ae/event_loop.cpp keeps its queue in order and awake.
use ae_proxy.Base.{
  ℕ, ◌≡◌, inl, inr, refl, ◌||◌, [], ◌∷◌, ◌++◌, append-nil, Option, none, some, arith, Bool-cases,
}
use ae_proxy.EventLoop.Trace.{queued_of, ran_of, queued_of-append, ran_of-append, Holds}
use ae_proxy.EventLoop.{
  Status, not_started, started, stopped, Handle, absent, opened, closing, freed, Async, is_started,
  queued, ran_at_once, World, Event, enters, returns, posts, stops, wakes, runs, closes, step,
  with_trace, with_posted, with_stopped, with_closed, post_on, close_on, close_completed, begin,
  init, run_in_this_loop, is_run_in_loop_thread, is_stopped,
}
use ae_proxy.EventLoop.Queue.{
  IsSound, run_next-IsSound, wakes-IsSound, returns-IsSound, queue-IsSound,
}

module _ (w : World) (s : IsSound w) where
  init-IsSound :
      (handle : Handle) (t : ℕ)
      → w.loop.async.handle ≡ handle
      → IsSound (record w {
        loop = record w.loop {
          async = init handle w.loop.async;
          loop_thread = some t;
          status = started;
        };
      })
  init-IsSound absent t e = record {
    in_order = s.in_order;
    awake = λ h. inr refl;
    never_absent = λ h. ground arith;
  }
  init-IsSound opened t e = record {
    in_order = s.in_order;
    awake = s.awake;
    never_absent = λ h. ground arith;
  }
  init-IsSound closing t e = record {
    in_order = s.in_order;
    awake = s.awake;
    never_absent = λ h. ground arith;
  }
  init-IsSound freed t e = record {
    in_order = s.in_order;
    awake = s.awake;
    never_absent = λ h. ground arith;
  }

  begin-IsSound : (status : Status) (t : ℕ) → IsSound (record w { loop = begin status w.loop t })
  begin-IsSound not_started t = init-IsSound w.loop.async.handle t refl
  begin-IsSound started t = s
  begin-IsSound stopped t = s

  close-IsSound :
      (handle : Handle)
      → w.loop.async.handle ≡ handle
      → Holds
          (λ a. IsSound (record w { loop = record w.loop { async = a } }))
          (close_on handle w.loop.async)
  unfolding Holds
  close-IsSound opened e = record {
    in_order = s.in_order;
    awake = λ h. ground arith;
    never_absent = λ h. ground arith;
  }
  close-IsSound closing e = record {
    in_order = s.in_order;
    awake = s.awake;
    never_absent = s.never_absent;
  }
  close-IsSound absent e = _
  close-IsSound freed e = _

  completed-IsSound :
      (handle : Handle) → IsSound (record w { loop = close_completed handle w.loop })
  completed-IsSound closing = record {
    in_order = s.in_order;
    awake = λ h. ground arith;
    never_absent = λ e. ground arith;
  }
  completed-IsSound opened = s
  completed-IsSound absent = s
  completed-IsSound freed = s

  -- Whatever happens next, the queue stays in order and awake.
  pub step-IsSound : (e : Event) → Holds IsSound (step w e)
  unfolding step run_in_this_loop Holds queued_of ran_of
  step-IsSound (enters t) = begin-IsSound w.loop.status t
  step-IsSound returns = returns-IsSound w s
  step-IsSound (posts t none) = rw (append-nil w.trace) s
  step-IsSound (posts t (some c)) =
      elim (Bool-cases (is_run_in_loop_thread w.loop t || is_stopped w.loop)) [
        | inl h ↦ rw h (record {
          in_order =
              rw
                (
                  ran_of-append w.trace (ran_at_once c ∷ []),
                  queued_of-append w.trace (ran_at_once c ∷ []),
                  append-nil (queued_of w.trace),
                  append-nil (ran_of w.trace),
                )
                s.in_order;
          awake = s.awake;
          never_absent = s.never_absent;
        })
        | inr h ↦ rw h (
            posted (post_on w.loop.async.handle w.loop.async c)
              (queue-IsSound w s w.loop.async.handle c refl))
      ]
    where
      posted :
          (o : Option Async)
          → Holds
              (λ a. IsSound (record w {
                loop = record w.loop { async = a };
                trace = w.trace ++ (queued c ∷ []);
              }))
              o
          → Holds IsSound (with_trace w (with_posted w.loop c o))
      posted none h = _
      posted (some a) h = h
  step-IsSound stops = elim (Bool-cases (is_started w.loop.status)) [
    | inl h ↦ rw h (
        closed (close_on w.loop.async.handle w.loop.async) (close-IsSound w.loop.async.handle refl))
    | inr h ↦ rw h s
  ]
    where
      closed :
          (o : Option Async)
          → Holds (λ a. IsSound (record w { loop = record w.loop { async = a } })) o
          → Holds IsSound (with_stopped w (with_closed w.loop o))
      closed none h = _
      closed (some a) h = h
  step-IsSound wakes = wakes-IsSound w s
  step-IsSound runs = run_next-IsSound w s w.taken refl
  step-IsSound closes = completed-IsSound w.loop.async.handle
