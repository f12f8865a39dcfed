-- ===== src/SocketAddr/Decimal.antt =====
-- `std::to_string` of an int, as ae/socket_addr.cpp and app/udp_proxy.cpp use it.
use ae_proxy.Base.{
  ℕ, zero, suc, ◌+◌, ◌-◌, ◌*◌, ◌/◌, ◌%◌, ◌≤◌, ◌≡◌, ◌≢◌, ◌⊎◌, inl, inr, refl, ap, sym, ◌∙◌, List, [],
  ◌∷◌, ◌++◌, ℤ, ltb, ltb→lt, ltb→le, if◌then◌else◌, arith, Bool-cases, All, All-append,
}
use mathlib.Core.List.{head-eq_of_cons-eq, tail-eq_of_cons-eq}

-- The digits of a number below 10 ^ (fuel + 1), the highest first.
unfoldable pub digits : ℕ → ℕ → List ℕ
digits zero n = (b'0' + n % 10) ∷ []
digits (suc fuel) n =
    let rest = digits fuel (n / 10) in
    if ltb n 10 then (b'0' + n) ∷ [] else rest ++ ((b'0' + n % 10) ∷ [])

unfoldable pub to_string : ℤ → List ℕ
to_string (ℤ.pos n) = digits n n
to_string (ℤ.negsuc n) = b'-' ∷ digits (suc n) (suc n)

read_from : ℕ → List ℕ → ℕ
read_from acc [] = acc
read_from acc (d ∷ ds) = read_from (acc * 10 + (d - b'0')) ds

read_from-append :
    (ds : List ℕ) (acc d : ℕ) → read_from acc (ds ++ (d ∷ [])) ≡ read_from acc ds * 10 + (d - b'0')
unfolding read_from
read_from-append [] acc d = refl
read_from-append (x ∷ ds) acc d = read_from-append ds (acc * 10 + (x - b'0')) d

zero_of : (n : ℕ) → n ≤ 0 → n ≡ 0
zero_of n h = omega (arith, h)

read_from-digits : (fuel n : ℕ) → n ≤ fuel → read_from 0 (digits fuel n) ≡ n
unfolding digits read_from
read_from-digits zero n h = rw (zero_of n h) refl
read_from-digits (suc fuel) n h = elim (Bool-cases (ltb n 10)) [
  | inl small ↦ rw small (omega arith)
  | inr big ↦
      rw
        (
          big,
          read_from-append (digits fuel (n / 10)) 0 (b'0' + n % 10),
          read_from-digits fuel (n / 10) (omega (arith, h, ltb→le n 10 big)),
        )
        (omega arith)
]

abbrev IsDigit : ℕ → Type 0
IsDigit c = (b'0' ≤ c) × (c ≤ b'9')

-- A digit or the sign.
abbrev pub IsNumeral : ℕ → Type 0
IsNumeral c = (c ≡ b'-') ⊎ IsDigit c

pub All-map : (P Q : ℕ → Type 0) → ((x : ℕ) → P x → Q x) → (xs : List ℕ) → All P xs → All Q xs
All-map P Q f [] hs = _
All-map P Q f (x ∷ xs) (h, hs) = (f x h, All-map P Q f xs hs)

digits-All : (fuel n : ℕ) → All IsDigit (digits fuel n)
unfolding digits
digits-All zero n = ((omega arith, omega arith), _)
digits-All (suc fuel) n = elim (Bool-cases (ltb n 10)) [
  | inl small ↦ rw small ((omega arith, omega (arith, ltb→lt n 10 small)), _)
  | inr big ↦ rw big (
      All-append IsDigit (digits fuel (n / 10)) ((b'0' + n % 10) ∷ []) (digits-All fuel (n / 10))
        ((omega arith, omega arith), _))
]

pub to_string-IsNumeral : (z : ℤ) → All IsNumeral (to_string z)
unfolding to_string
to_string-IsNumeral (ℤ.pos n) = All-map IsDigit IsNumeral (λ x. inr) (digits n n) (digits-All n n)
to_string-IsNumeral (ℤ.negsuc n) = (
  inl refl,
  All-map IsDigit IsNumeral (λ x. inr) (digits (suc n) (suc n)) (digits-All (suc n) (suc n)),
)

unsigned : (xs ys : List ℕ) → All IsDigit xs → xs ≢ (b'-' ∷ ys)
unsigned [] ys h e = ground arith
unsigned (x ∷ xs) ys ((h, k), hs) e = omega (arith, h, head-eq_of_cons-eq e)

digits-injective : (n m : ℕ) → digits n n ≡ digits m m → n ≡ m
digits-injective n m e =
    sym (read_from-digits n n (omega arith))
    ∙ (ap (read_from 0) e ∙ read_from-digits m m (omega arith))

-- Two ints with the same text are equal.
pub to_string-injective : (a b : ℤ) → to_string a ≡ to_string b → a ≡ b
unfolding to_string
to_string-injective (ℤ.pos n) (ℤ.pos m) e = ap ℤ.pos (digits-injective n m e)
to_string-injective (ℤ.pos n) (ℤ.negsuc m) e =
    absurd (unsigned (digits n n) (digits (suc m) (suc m)) (digits-All n n) e)
to_string-injective (ℤ.negsuc n) (ℤ.pos m) e =
    absurd (unsigned (digits m m) (digits (suc n) (suc n)) (digits-All m m) (sym e))
to_string-injective (ℤ.negsuc n) (ℤ.negsuc m) e =
    ap ℤ.negsuc (omega (arith, digits-injective (suc n) (suc m) (tail-eq_of_cons-eq e)))
