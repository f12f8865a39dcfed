-- ===== src/Base/Assoc.antt =====
-- `std::map` with texts as keys, as an association list.
use Prim.Native.Nat.{ℕ}
use mathlib.Core.Path.{◌≡◌, refl, sym, ap, ◌∙◌}
use mathlib.Core.Logic.{◌≢◌, inl, inr}
use mathlib.Core.Bool.{Bool, true, false, ◌&&◌, true≢false}
use mathlib.Core.List.{List, [], ◌∷◌}
use mathlib.Core.Option.{Option, none, some}
use ae_proxy.Base.Lists.{All}
use ae_proxy.Base.Tests.{◌==◌, ==_iff, ==_self, if◌then◌else◌, Bool-cases}

unfoldable pub same_text : List ℕ → List ℕ → Bool
same_text [] [] = true
same_text [] (y ∷ ys) = false
same_text (x ∷ xs) [] = false
same_text (x ∷ xs) (y ∷ ys) = (x == y) && same_text xs ys

pub same_text_eq : (xs ys : List ℕ) → same_text xs ys ≡ true → xs ≡ ys
unfolding same_text
same_text_eq [] [] h = refl
same_text_eq [] (y ∷ ys) h = absurd (true≢false (sym h))
same_text_eq (x ∷ xs) [] h = absurd (true≢false (sym h))
same_text_eq (x ∷ xs) (y ∷ ys) h = elim (Bool-cases (x == y)) [
  | inl e ↦
      (let same = same_text_eq xs ys (sym (ap (λ b. b && same_text xs ys) e) ∙ h) in
        λ i. (==_iff x y).0 e i ∷ same i)
  | inr e ↦ absurd (true≢false (sym h ∙ ap (λ b. b && same_text xs ys) e))
]

pub same_text_self : (xs : List ℕ) → same_text xs xs ≡ true
unfolding same_text
same_text_self [] = refl
same_text_self (x ∷ xs) = rw (==_self x) (same_text_self xs)

module _ {ℓ} {A : Type ℓ} where
  unfoldable pub lookup : List ℕ → List (List ℕ × A) → Option A
  lookup key [] = none
  lookup key ((k, a) ∷ rest) =
      let later = lookup key rest in if same_text key k then some a else later

  -- A new value for a key that is there.
  unfoldable pub update : List ℕ → A → List (List ℕ × A) → List (List ℕ × A)
  update key new [] = []
  update key new ((k, a) ∷ rest) =
      let later = update key new rest in if same_text key k then (k, new) ∷ rest else (k, a) ∷ later

  unfoldable pub erase : List ℕ → List (List ℕ × A) → List (List ℕ × A)
  erase key [] = []
  erase key ((k, a) ∷ rest) =
      let later = erase key rest in if same_text key k then later else (k, a) ∷ later

  pub lookup-erase_self :
      (key : List ℕ) (entries : List (List ℕ × A)) → lookup key (erase key entries) ≡ none
  unfolding lookup erase
  lookup-erase_self key [] = refl
  lookup-erase_self key ((k, a) ∷ rest) = elim (Bool-cases (same_text key k)) [
    | inl e ↦ rw e (lookup-erase_self key rest)
    | inr e ↦ rw e (rw e (lookup-erase_self key rest))
  ]

  pub lookup-erase_ne :
      (name key : List ℕ) (entries : List (List ℕ × A))
      → name ≢ key
      → lookup name (erase key entries) ≡ lookup name entries
  unfolding lookup erase
  lookup-erase_ne name key [] apart = refl
  lookup-erase_ne name key ((k, a) ∷ rest) apart = elim (Bool-cases (same_text key k)) [
    | inl e ↦ elim (Bool-cases (same_text name k)) [
      | inl e' ↦ absurd (apart (same_text_eq name k e' ∙ sym (same_text_eq key k e)))
      | inr e' ↦ rw e (rw e' (lookup-erase_ne name key rest apart))
    ]
    | inr e ↦
        rw e
          (ap (λ o. if same_text name k then some a else o) (lookup-erase_ne name key rest apart))
  ]

  pub All-erase {κ} :
      (P : List ℕ × A → Type κ) (key : List ℕ) (entries : List (List ℕ × A))
      → All P entries
      → All P (erase key entries)
  unfolding erase
  All-erase P key [] hs = _
  All-erase P key ((k, a) ∷ rest) (h, hs) = elim (Bool-cases (same_text key k)) [
    | inl e ↦ rw e (All-erase P key rest hs)
    | inr e ↦ rw e (h, All-erase P key rest hs)
  ]

pub different_text : (a b : List ℕ) → same_text a b ≡ false → a ≢ b
different_text a b h same = true≢false (sym (ap (same_text a) (sym same) ∙ same_text_self a) ∙ h)
