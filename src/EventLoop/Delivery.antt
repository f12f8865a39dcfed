-- ===== src/EventLoop/Delivery.antt =====
-- Which of the callbacks posted to the loop of ae/event_loop.cpp run, and when.
use ae_proxy.Base.{
  ℕ, ◌≡◌, ◌⊎◌, inl, inr, refl, ap, sym, subst, ◌∙◌, true, false, List, [], ◌∷◌, ◌++◌, append-nil,
  some, Bool-cases, Option-cases, is_nil, length, replicate,
}
use mathlib.Core.Bool.{true≢false}
use mathlib.Core.Option.{bind, none-ne-some}
use ae_proxy.EventLoop.{
  started, is_open, is_started, ran_queued, World, new_world, Event, wakes, runs, step, run_events,
  run_next, wakes_up,
}
use ae_proxy.EventLoop.Trace.{queued_of, ran_of, queued_of-append, Holds}
use ae_proxy.EventLoop.Queue.{IsSound, new_world-IsSound}
use ae_proxy.EventLoop.Steps.{step-IsSound}

pub run_events-IsSound :
    (w : World) (es : List Event) (w' : World) → IsSound w → run_events w es ≡ some w' → IsSound w'
unfolding run_events Holds bind
run_events-IsSound w [] w' s e = subst (Holds IsSound) e s
run_events-IsSound w (event ∷ es) w' s e = elim (Option-cases (step w event)) [
  | inl h ↦ absurd (none-ne-some _ (sym (ap (λ o. bind o (λ w''. run_events w'' es)) h) ∙ e))
  | inr (next, h) ↦
      run_events-IsSound next es w' (subst (Holds IsSound) h (step-IsSound w s event))
        (sym (ap (λ o. bind o (λ w''. run_events w'' es)) h) ∙ e)
]

-- After any events from the loop's construction on that do not use a deleted handle, the callbacks that were queued are those that
-- have run from the queue, then those being processed, then those that wait, in this order.
pub run_events-in_order :
    (es : List Event) (w : World)
    → run_events new_world es ≡ some w
    → ran_of w.trace ++ w.taken ++ w.loop.async.callbacks ≡ queued_of w.trace
run_events-in_order es w e = (run_events-IsSound new_world es w new_world-IsSound e).in_order

-- The rest of `process`.
drain :
    (taken : List ℕ) (w : World)
    → w.taken ≡ taken
    → (w' : World) × ((es : List Event)
        → run_events w (replicate (length taken) runs ++ es) ≡ run_events w' es)
      × (w'.taken ≡ [])
      × (w'.loop ≡ w.loop)
      × (queued_of w'.trace ≡ queued_of w.trace)
unfolding run_events step queued_of bind
drain [] w e = (w, λ es. refl, e, refl, refl)
drain (c ∷ rest) w e =
    let next = run_next (c ∷ rest) w in
    let (w', eqs, none_left, same, queue) = drain rest next refl in
    (
      w',
      λ es. ap (λ t. run_events (run_next t w) (replicate (length rest) runs ++ es)) e ∙ eqs es,
      none_left,
      same,
      queue ∙ (queued_of-append w.trace (ran_queued c ∷ []) ∙ append-nil (queued_of w.trace)),
    )

sent-wakes_up :
    (w : World)
    → w.taken ≡ []
    → w.loop.status ≡ started
    → is_open w.loop.async.handle ≡ true
    → w.loop.async.sent ≡ true
    → wakes_up w ≡ true
sent-wakes_up w idle run_now open_now sent =
    rw (ap is_started run_now, open_now, sent, ap is_nil idle) refl

nothing_left :
    (w : World)
    → w.taken ≡ []
    → w.loop.async.callbacks ≡ []
    → ran_of w.trace ++ w.taken ++ w.loop.async.callbacks ≡ queued_of w.trace
    → ran_of w.trace ≡ queued_of w.trace
nothing_left w idle none_waits e =
    sym (
      ap (λ xs. xs ++ w.loop.async.callbacks)
        (ap (λ xs. ran_of w.trace ++ xs) idle ∙ append-nil (ran_of w.trace))
      ∙ (ap (λ xs. ran_of w.trace ++ xs) none_waits ∙ append-nil (ran_of w.trace)))
    ∙ e

wake :
    (w : World)
    → w.taken ≡ []
    → w.loop.status ≡ started
    → is_open w.loop.async.handle ≡ true
    → (w.loop.async.callbacks ≡ []) ⊎ (w.loop.async.sent ≡ true)
    → (w' : World) × (step w wakes ≡ some w')
      × (w'.loop.async.callbacks ≡ [])
      × (w'.taken ≡ w.loop.async.callbacks)
      × (w'.trace ≡ w.trace)
unfolding step
wake w idle run_now open_now pending = elim (Bool-cases (wakes_up w)) [
  | inl h ↦ (
    record w {
      loop = record w.loop { async = record w.loop.async { callbacks = []; sent = false } };
      taken = w.loop.async.callbacks;
    },
    rw h refl,
    refl,
    refl,
    refl,
  )
  | inr h ↦
      (let idle_queue : w.loop.async.callbacks ≡ [] = elim pending [
        | inl none_queued ↦ none_queued
        | inr sent ↦ absurd (true≢false (sym (sent-wakes_up w idle run_now open_now sent) ∙ h))
      ] in
        (w, rw h refl, idle_queue, idle ∙ sym idle_queue, refl))
]

-- The events that libuv is bound to bring: the rest of the processing, a wake-up, and the processing
-- of what was queued.
unfoldable pub deliver : World → List Event
deliver w =
    replicate (length w.taken) runs ++ (wakes ∷ replicate (length w.loop.async.callbacks) runs)

run_events-deliver :
    (w : World)
    → IsSound w
    → w.loop.status ≡ started
    → is_open w.loop.async.handle ≡ true
    → (w' : World) × (run_events w (deliver w) ≡ some w')
      × (w'.loop.async.callbacks ≡ [])
      × (w'.taken ≡ [])
      × (ran_of w'.trace ≡ queued_of w.trace)
unfolding deliver run_events bind
run_events-deliver w s run_now open_now =
    let n = length w.loop.async.callbacks in
    let (w1, eqs1, idle1, same1, queue1) = drain w.taken w refl in
    let (w2, woken, none_waits, taken2, same2) =
      wake w1 idle1 (ap (λ l. l.status) same1 ∙ run_now)
        (ap (λ l. is_open l.async.handle) same1 ∙ open_now) (rw same1 (s.awake open_now)) in
    let (w3, eqs3, idle3, same3, queue3) =
      drain w.loop.async.callbacks w2 (taken2 ∙ ap (λ l. l.async.callbacks) same1) in
    let none_left : w3.loop.async.callbacks ≡ [] = ap (λ l. l.async.callbacks) same3 ∙ none_waits in
    let all : run_events w (deliver w) ≡ some w3 =
      eqs1 (wakes ∷ replicate n runs)
      ∙ (ap (λ o. bind o (λ x. run_events x (replicate n runs))) woken
          ∙ (ap (run_events w2) (sym (append-nil (replicate n runs))) ∙ eqs3 [])) in
    (
      w3,
      all,
      none_left,
      idle3,
      nothing_left w3 idle3 none_left (run_events-IsSound w (deliver w) w3 s all).in_order
          ∙ (queue3 ∙ (ap queued_of same2 ∙ queue1)),
    )

-- After any events from the loop's construction on that do not use a deleted handle, a running loop
-- whose handle is open has a wake-up under way for what is queued: the rest of the processing, a wake-up and the
-- processing that follows run every queued callback, in the order of the queue, and leave none.
pub run_events-delivered :
    (es : List Event) (w : World)
    → run_events new_world es ≡ some w
    → w.loop.status ≡ started
    → is_open w.loop.async.handle ≡ true
    → (w' : World) × (run_events w (deliver w) ≡ some w')
      × (w'.loop.async.callbacks ≡ [])
      × (w'.taken ≡ [])
      × (ran_of w'.trace ≡ queued_of w.trace)
run_events-delivered es w e =
    run_events-deliver w (run_events-IsSound new_world es w new_world-IsSound e)
