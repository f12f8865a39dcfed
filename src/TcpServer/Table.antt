-- ===== src/TcpServer/Table.antt =====
-- The map of connections of ae/tcp_server.cpp, and the states of those in it.
use ae_proxy.Base.{
  ℕ, ◌≡◌, ◌⊎◌, inl, inr, refl, ap, sym, subst, ◌∙◌, true, false, List, [], ◌∷◌, some, none,
  if◌then◌else◌, lookup, update, erase, lookup-erase_self, lookup-erase_ne, same_text, same_text_eq,
  same_text_self, ◌≢◌, All, Bool-cases,
}
use mathlib.Core.Bool.{true≢false}
use mathlib.Core.Option.{none-ne-some, some-injective}
use ae_proxy.TcpConnection.{TcpConnection, opened, closing}

-- The life of a connection in the map: open with both callbacks, or closing with neither, and with
-- the one that removes it.
abbrev pub IsAlive : TcpConnection → Type 0
IsAlive c =
    ((c.handle ≡ opened) × (c.on_connect_close_set ≡ true))
    ⊎ ((c.handle ≡ closing) × (c.on_connect_close_set ≡ false) × (c.close_complete_set ≡ true))

unfoldable pub AreAlive : List (List ℕ × TcpConnection) → Type 0
AreAlive entries = All (λ entry. IsAlive entry.1) entries

pub lookup-AreAlive :
    (name : List ℕ) (entries : List (List ℕ × TcpConnection)) (c : TcpConnection)
    → AreAlive entries
    → lookup name entries ≡ some c
    → IsAlive c
unfolding lookup AreAlive
lookup-AreAlive name [] c s e = absurd (none-ne-some _ e)
lookup-AreAlive name ((k, a) ∷ rest) c (s, ss) e = elim (Bool-cases (same_text name k)) [
  | inl h ↦
      subst IsAlive
        (some-injective a c (sym (ap (λ b. if b then some a else lookup name rest) h) ∙ e)) s
  | inr h ↦
      lookup-AreAlive name rest c ss (sym (ap (λ b. if b then some a else lookup name rest) h) ∙ e)
]

pub update-AreAlive :
    (name : List ℕ) (c : TcpConnection) (entries : List (List ℕ × TcpConnection))
    → IsAlive c
    → AreAlive entries
    → AreAlive (update name c entries)
unfolding update AreAlive
update-AreAlive name c [] h s = _
update-AreAlive name c ((k, a) ∷ rest) h (s, ss) = elim (Bool-cases (same_text name k)) [
  | inl e ↦ rw e (h, ss)
  | inr e ↦ rw e (s, update-AreAlive name c rest h ss)
]

pub erase-AreAlive :
    (name : List ℕ) (entries : List (List ℕ × TcpConnection))
    → AreAlive entries
    → AreAlive (erase name entries)
unfolding erase AreAlive
erase-AreAlive name [] s = _
erase-AreAlive name ((k, a) ∷ rest) (s, ss) = elim (Bool-cases (same_text name k)) [
  | inl e ↦ rw e (erase-AreAlive name rest ss)
  | inr e ↦ rw e (s, erase-AreAlive name rest ss)
]

-- Erasing forgets the change.
pub erase-update :
    (name : List ℕ) (c : TcpConnection) (entries : List (List ℕ × TcpConnection))
    → erase name (update name c entries) ≡ erase name entries
unfolding erase update
erase-update name c [] = refl
erase-update name c ((k, a) ∷ rest) = elim (Bool-cases (same_text name k)) [
  | inl e ↦ rw e (rw e refl)
  | inr e ↦ rw e (rw e (ap (λ xs. (k, a) ∷ xs) (erase-update name c rest)))
]

pub lookup-update :
    (name : List ℕ) (c d : TcpConnection) (entries : List (List ℕ × TcpConnection))
    → lookup name entries ≡ some d
    → lookup name (update name c entries) ≡ some c
unfolding lookup update
lookup-update name c d [] h = absurd (none-ne-some _ h)
lookup-update name c d ((k, a) ∷ rest) h = elim (Bool-cases (same_text name k)) [
  | inl e ↦ rw e (rw e refl)
  | inr e ↦ rw e (
      rw e (
        lookup-update name c d rest (sym (ap (λ b. if b then some a else lookup name rest) e) ∙ h)))
]

pub lookup-update_ne :
    (name key : List ℕ) (c : TcpConnection) (entries : List (List ℕ × TcpConnection))
    → name ≢ key
    → lookup name (update key c entries) ≡ lookup name entries
unfolding lookup update
lookup-update_ne name key c [] h = refl
lookup-update_ne name key c ((k, a) ∷ rest) h = elim (Bool-cases (same_text key k)) [
  | inl e ↦ elim (Bool-cases (same_text name k)) [
    | inl e' ↦ absurd (h (same_text_eq name k e' ∙ sym (same_text_eq key k e)))
    | inr e' ↦ rw e (rw e' refl)
  ]
  | inr e ↦
      rw e (ap (λ o. if same_text name k then some a else o) (lookup-update_ne name key c rest h))
]

pub lookup-update_missing :
    (name key : List ℕ) (c : TcpConnection) (entries : List (List ℕ × TcpConnection))
    → lookup name entries ≡ none
    → lookup name (update key c entries) ≡ none
unfolding lookup update
lookup-update_missing name key c [] h = refl
lookup-update_missing name key c ((k, a) ∷ rest) h = elim (Bool-cases (same_text name k)) [
  | inl e ↦ absurd (none-ne-some _ (sym h ∙ ap (λ b. if b then some a else lookup name rest) e))
  | inr e ↦
      let later =
        lookup-update_missing name key c rest
          (sym (ap (λ b. if b then some a else lookup name rest) e) ∙ h) in
      elim (Bool-cases (same_text key k)) [
        | inl e' ↦ rw e' (rw e (sym (ap (λ b. if b then some a else lookup name rest) e) ∙ h))
        | inr e' ↦ rw e' (rw e later)
      ]
]

-- What is left was there.
pub lookup-erase :
    (name key : List ℕ) (c : TcpConnection) (entries : List (List ℕ × TcpConnection))
    → lookup name (erase key entries) ≡ some c
    → lookup name entries ≡ some c
lookup-erase name key c entries h = elim (Bool-cases (same_text name key)) [
  | inl e ↦ absurd (
      none-ne-some c (
        sym (lookup-erase_self key entries)
        ∙ (ap (λ x. lookup x (erase key entries)) (sym (same_text_eq name key e)) ∙ h)))
  | inr e ↦
      sym (
        lookup-erase_ne name key entries
          (λ same. true≢false (sym (ap (same_text name) (sym same) ∙ same_text_self name) ∙ e)))
      ∙ h
]
