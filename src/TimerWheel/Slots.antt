-- ===== src/TimerWheel/Slots.antt =====
-- Slots of the wheel of ae/timer_wheel.h: sets of numbers as lists, and `std::vector::resize`.
use ae_proxy.Base.{
  ℕ, zero, suc, ◌<◌, ◌≡◌, ◌≢◌, refl, ap, inl, inr, Bool, false, ◌||◌, List, [], ◌∷◌, ◌==◌,
  if◌then◌else◌, Bool-cases, length, get_or, set, ==_iff, arith,
}

unfoldable pub contains : ℕ → List ℕ → Bool
contains v [] = false
contains v (x ∷ xs) = x == v || contains v xs

-- `std::set::insert`
unfoldable pub put : ℕ → List ℕ → List ℕ
unfolding contains
put v xs = if contains v xs then xs else v ∷ xs

-- New slots are empty.
unfoldable pub resize : ℕ → List (List ℕ) → List (List ℕ)
resize zero xs = []
resize (suc n) [] = [] ∷ resize n []
resize (suc n) (x ∷ xs) = x ∷ resize n xs

pub contains-nil : (v : ℕ) → contains v [] ≡ false
unfolding contains
contains-nil v = refl

pub contains-put : (u v : ℕ) (xs : List ℕ) → contains v (put u xs) ≡ (u == v || contains v xs)
unfolding put contains
contains-put u v xs = elim (Bool-cases (contains u xs)) [
  | inr new ↦ rw new
  | inl old ↦ elim (Bool-cases (u == v)) [
    | inr other ↦ rw (old, other)
    | inl same ↦ rw (old, same) (rw ((==_iff u v).0 same) at old)
  ]
]

pub length-resize : (n : ℕ) (xs : List (List ℕ)) → length (resize n xs) ≡ n
unfolding resize
length-resize zero xs = refl
length-resize (suc n) [] = ap suc (length-resize n [])
length-resize (suc n) (x ∷ xs) = ap suc (length-resize n xs)

pub get_or-resize : (n i : ℕ) → get_or (resize n []) i [] ≡ []
unfolding resize
get_or-resize zero i = refl
get_or-resize (suc n) zero = refl
get_or-resize (suc n) (suc i) = get_or-resize n i

module _ {ℓ} {A : Type ℓ} where
  pub get_or-set_self :
      (xs : List A) (i : ℕ) (v d : A) → i < length xs → get_or (set xs i v) i d ≡ v
  get_or-set_self [] i v d h = elim h [ ]
  get_or-set_self (x ∷ xs) zero v d h = refl
  get_or-set_self (x ∷ xs) (suc i) v d h = get_or-set_self xs i v d (omega arith)

  pub get_or-set_ne :
      (xs : List A) (i j : ℕ) (v d : A) → i ≢ j → get_or (set xs i v) j d ≡ get_or xs j d
  get_or-set_ne [] i j v d h = refl
  get_or-set_ne (x ∷ xs) zero zero v d h = absurd (h refl)
  get_or-set_ne (x ∷ xs) zero (suc j) v d h = refl
  get_or-set_ne (x ∷ xs) (suc i) zero v d h = refl
  get_or-set_ne (x ∷ xs) (suc i) (suc j) v d h = get_or-set_ne xs i j v d (λ e. h (ap suc e))
