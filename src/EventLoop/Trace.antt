-- ===== src/EventLoop/Trace.antt =====
-- The callbacks that a trace of the loop of ae/event_loop.cpp names, and what holds of a defined step.
use ae_proxy.Base.{ℕ, ◌≡◌, refl, List, [], ◌∷◌, ◌++◌, Option, none, some}
use Prim.{Unit}
use ae_proxy.EventLoop.{Action, queued, ran_queued, ran_at_once}

unfoldable pub queued_of : List Action → List ℕ
queued_of [] = []
queued_of (queued c ∷ rest) = c ∷ queued_of rest
queued_of (_ ∷ rest) = queued_of rest

unfoldable pub ran_of : List Action → List ℕ
ran_of [] = []
ran_of (ran_queued c ∷ rest) = c ∷ ran_of rest
ran_of (_ ∷ rest) = ran_of rest

pub queued_of-append : (a b : List Action) → queued_of (a ++ b) ≡ queued_of a ++ queued_of b
unfolding queued_of
queued_of-append [] b = refl
queued_of-append (queued c ∷ a) b = rw (queued_of-append a b)
queued_of-append (ran_queued c ∷ a) b = queued_of-append a b
queued_of-append (ran_at_once c ∷ a) b = queued_of-append a b

pub ran_of-append : (a b : List Action) → ran_of (a ++ b) ≡ ran_of a ++ ran_of b
unfolding ran_of
ran_of-append [] b = refl
ran_of-append (queued c ∷ a) b = ran_of-append a b
ran_of-append (ran_queued c ∷ a) b = rw (ran_of-append a b)
ran_of-append (ran_at_once c ∷ a) b = ran_of-append a b

-- What a step leads to, when it is defined.
unfoldable pub Holds {ℓ ℓ'} : {A : Type ℓ} → (A → Type ℓ') → Option A → Type ℓ'
Holds P none = Unit
Holds P (some a) = P a
