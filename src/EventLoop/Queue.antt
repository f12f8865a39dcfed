-- ===== src/EventLoop/Queue.antt =====
-- The callbacks posted to the loop of ae/event_loop.cpp and ae/async_task.cpp.
use ae_proxy.Base.{
  ℕ, ◌≡◌, ◌≢◌, ◌⊎◌, inl, inr, refl, sym, subst, ◌&&◌, true, List, [], ◌∷◌, ◌++◌, append-nil,
  append_assoc, arith, Bool-cases, is_nil,
}
use ae_proxy.EventLoop.Trace.{queued_of, ran_of, queued_of-append, ran_of-append, Holds}
use ae_proxy.EventLoop.{
  started, Handle, absent, opened, closing, freed, is_open, is_started, queued, ran_queued, World,
  new_world, returns, wakes, step, post_on, run_next, wakes_up,
}

-- Each callback that was queued has run, is being processed or waits in the queue, in the order of
-- the queue; and while the handle is open, what waits has a wake-up under way.
pub record IsSound (w : World) : Type 0 where
  pub in_order : ran_of w.trace ++ w.taken ++ w.loop.async.callbacks ≡ queued_of w.trace
  pub awake :
      is_open w.loop.async.handle ≡ true
      → (w.loop.async.callbacks ≡ []) ⊎ (w.loop.async.sent ≡ true)
  pub never_absent : w.loop.status ≡ started → w.loop.async.handle ≢ absent

pub new_world-IsSound : IsSound new_world
unfolding queued_of ran_of
new_world-IsSound = record {
  in_order = refl;
  awake = λ h. inl refl;
  never_absent = λ h. ground arith;
}

is_nil-nil {ℓ} : {A : Type ℓ} (xs : List A) → is_nil xs ≡ true → xs ≡ []
is_nil-nil [] h = refl
is_nil-nil (x ∷ xs) h = ground arith

wakes_up-nil : (w : World) → wakes_up w ≡ true → w.taken ≡ []
wakes_up-nil w h = is_nil-nil w.taken (ground arith)

module _ (w : World) (s : IsSound w) where
  pub run_next-IsSound : (taken : List ℕ) → w.taken ≡ taken → IsSound (run_next taken w)
  unfolding queued_of ran_of
  run_next-IsSound [] e = s
  run_next-IsSound (c ∷ rest) e = record {
    in_order =
        rw
          (
            ran_of-append w.trace (ran_queued c ∷ []),
            queued_of-append w.trace (ran_queued c ∷ []),
            append-nil (queued_of w.trace),
            append_assoc (ran_of w.trace) (c ∷ []) rest,
          )
          (subst (λ xs. ran_of w.trace ++ xs ++ w.loop.async.callbacks ≡ queued_of w.trace) e
            s.in_order);
    awake = s.awake;
    never_absent = s.never_absent;
  }

  woken-in_order : w.taken ≡ [] → ran_of w.trace ++ w.loop.async.callbacks ++ [] ≡ queued_of w.trace
  woken-in_order e = rw (append-nil (ran_of w.trace ++ w.loop.async.callbacks)) (
      subst (λ r. r ++ w.loop.async.callbacks ≡ queued_of w.trace) (append-nil (ran_of w.trace))
        (subst (λ xs. ran_of w.trace ++ xs ++ w.loop.async.callbacks ≡ queued_of w.trace) e
          s.in_order))

  pub wakes-IsSound : Holds IsSound (step w wakes)
  unfolding step Holds
  wakes-IsSound = elim (Bool-cases (wakes_up w)) [
    | inl h ↦ rw h (record {
      in_order = woken-in_order (wakes_up-nil w h);
      awake = λ o. inl refl;
      never_absent = s.never_absent;
    })
    | inr h ↦ rw h s
  ]

  pub returns-IsSound : Holds IsSound (step w returns)
  unfolding step Holds
  returns-IsSound = elim (Bool-cases (is_started w.loop.status && is_nil w.taken)) [
    | inl h ↦
        rw h (record { in_order = s.in_order; awake = s.awake; never_absent = λ e. ground arith })
    | inr h ↦ rw h s
  ]

  -- A callback is queued behind the others.
  queued-in_order :
      (c : ℕ)
      → ran_of (w.trace ++ (queued c ∷ [])) ++ w.taken ++ (w.loop.async.callbacks ++ (c ∷ []))
        ≡ queued_of (w.trace ++ (queued c ∷ []))
  unfolding queued_of ran_of
  queued-in_order c =
      rw
        (
          ran_of-append w.trace (queued c ∷ []),
          queued_of-append w.trace (queued c ∷ []),
          append-nil (ran_of w.trace),
          sym s.in_order,
        )
        (simp append_assoc refl)

  pub queue-IsSound :
      (handle : Handle) (c : ℕ)
      → w.loop.async.handle ≡ handle
      → Holds
          (λ a.
            IsSound
              (record w { loop = record w.loop { async = a }; trace = w.trace ++ (queued c ∷ []) }))
          (post_on handle w.loop.async c)
  unfolding Holds
  queue-IsSound absent c e = record {
    in_order = queued-in_order c;
    awake = λ h. ground arith;
    never_absent = s.never_absent;
  }
  queue-IsSound opened c e = record {
    in_order = queued-in_order c;
    awake = λ h. inr refl;
    never_absent = s.never_absent;
  }
  queue-IsSound closing c e = record {
    in_order = queued-in_order c;
    awake = λ h. inr refl;
    never_absent = s.never_absent;
  }
  queue-IsSound freed c e = _
