-- ===== src/EventLoop/Default.antt =====
-- Which loop is whose: the constructors, the destructor and `default_loop` of ae/event_loop.cpp, and the
-- constructors of the proxies, which take the default loop where they are given none.
use ae_proxy.Base.{
  ℕ, suc, ◌≡◌, refl, inl, inr, Bool, true, false, List, [], ◌∷◌, Option, none, some, ◌==◌,
  if◌then◌else◌, Bool-cases,
}
use ae_proxy.EventLoop.{EventLoop, new_loop}

-- `EventLoop::Mode`
pub data Mode : Type 0 where
  new_mode : Mode
  default_mode : Mode

-- The objects by the number of their libuv loop; libuv's default loop is 0, and is not allocated.
pub record Loops : Type 0 where
  pub made : List (ℕ × EventLoop)
  pub next : ℕ  -- the number of the next loop that is allocated, which is positive

unfoldable pub is_made : ℕ → List (ℕ × EventLoop) → Bool
is_made id [] = false
is_made id ((x, l) ∷ rest) = let later = is_made id rest in if id == x then true else later

unfoldable pub unmake : ℕ → List (ℕ × EventLoop) → List (ℕ × EventLoop)
unmake id [] = []
unmake id ((x, l) ∷ rest) = let later = unmake id rest in if id == x then later else (x, l) ∷ later

-- The constructor.
abbrev pub construct : Mode → Loops → Loops × ℕ
construct new_mode s = (record { made = (s.next, new_loop) ∷ s.made; next = suc s.next }, s.next)
construct default_mode s = (record s { made = (0, new_loop) ∷ s.made }, 0)

-- The destructor leaves libuv's default loop, with its `Async`, as it is.
abbrev pub destroy : ℕ → Loops → Loops
destroy id s = if id == 0 then s else record s { made = unmake id s.made }

-- The static object is made by the first call.
unfoldable pub default_loop : Loops → Loops × ℕ
default_loop s = if is_made 0 s.made then (s, 0) else construct default_mode s

-- What a proxy's constructor does with the pointer that it is given.
unfoldable pub choose_loop : Option ℕ → Loops → Loops × ℕ
choose_loop none s = default_loop s
choose_loop (some id) s = (s, id)

-- The proxies that are made without a loop share one, which is made once.
choose_loop-choose_loop :
    (s : Loops) → choose_loop none (choose_loop none s).0 ≡ ((choose_loop none s).0, 0)
unfolding choose_loop default_loop is_made
choose_loop-choose_loop s = elim (Bool-cases (is_made 0 s.made)) [
  | inl there ↦ rw there (rw there refl)
  | inr not_yet ↦ rw not_yet refl
]
