-- ===== src/Trie/InRange.antt =====
-- The keys whose bytes are indices of the array `character` of base/trie.hpp, and what the operations
-- do for them: the same recursions, with accesses that need no check.
use ae_proxy.Base.{
  ℕ, ◌<◌, ◌≡◌, refl, ◌⊎◌, inl, inr, Bool, true, false, not, ◌&&◌, List, [], ◌∷◌, All, ltb, ltb→lt,
  ltb→le, lt→ltb, Bool-cases, none, some, if◌then◌else◌, arith,
}
use mathlib.Core.Option.{bind}
use ae_proxy.Trie.{
  Trie, null, node, is_node, set_child, or_new, wildcard, free_or, insert, search, deletion,
}

abbrev pub IsAsciiKey : List ℕ → Type 0
IsAsciiKey = All (λ x. x < 128)

unfoldable pub inserted : Trie → List ℕ → Trie
inserted null key = null
inserted (node leaf child) [] = node true child
inserted (node leaf child) (x ∷ key) =
    node leaf (set_child child x (inserted (or_new (child x)) key))

unfoldable pub finds : Trie → List ℕ → Bool
finds null key = false
finds (node leaf child) [] = leaf
finds (node leaf child) (x ∷ key) = elim (child x) [
  | null ↦ is_node (child wildcard)
  | node l c ↦ finds (node l c) key
]

unfoldable pub deleted : Trie → List ℕ → Bool × Trie
deleted null key = (false, null)
deleted (node leaf child) [] =
    if leaf then free_or child (node false child) else (false, node leaf child)
deleted (node leaf child) (x ∷ key) =
    let (gone, next) = deleted (child x) key in
    let child' = set_child child x next in
    if is_node (child x) && (gone && not leaf)
    then free_or child' (node leaf child')
    else (false, node leaf child')

pub or_new-is_node : (t : Trie) → is_node (or_new t) ≡ true
or_new-is_node null = refl
or_new-is_node (node leaf child) = refl

pub insert-inserted :
    (t : Trie) (key : List ℕ)
    → is_node t ≡ true
    → IsAsciiKey key
    → insert t key ≡ some (inserted t key)
unfolding insert inserted bind
insert-inserted null key n k = cc
insert-inserted (node leaf child) [] n k = refl
insert-inserted (node leaf child) (x ∷ key) n k =
    rw (lt→ltb _ _ k.0, insert-inserted (or_new (child x)) key (or_new-is_node (child x)) k.1) refl

pub search-finds : (t : Trie) (key : List ℕ) → IsAsciiKey key → search t key ≡ some (finds t key)
unfolding search finds bind
search-finds null key k = refl
search-finds (node leaf child) [] k = refl
search-finds (node leaf child) (x ∷ key) k =
    rw (lt→ltb _ _ k.0) (go (child x) (λ c. search-finds c key k.1))
  where
    go :
        (c : Trie)
        → ((c : Trie) → search c key ≡ some (finds c key))
        → elim c [ null ↦ some (is_node (child wildcard)) | node l d ↦ search (node l d) key ]
          ≡ some (elim c [ null ↦ is_node (child wildcard) | node l d ↦ finds (node l d) key ])
    go null h = refl
    go (node l d) h = h (node l d)

pub deletion-deleted :
    (t : Trie) (key : List ℕ) → IsAsciiKey key → deletion t key ≡ some (deleted t key)
unfolding deletion deleted bind
deletion-deleted null key k = refl
deletion-deleted (node leaf child) [] k = refl
deletion-deleted (node leaf child) (x ∷ key) k =
    rw (lt→ltb _ _ k.0, deletion-deleted (child x) key k.1) refl

-- Inserting another key is an access out of the array.
pub insert-none :
    (t : Trie) (key : List ℕ)
    → is_node t ≡ true
    → IsAsciiKey key ⊎ ((¬ IsAsciiKey key) × (insert t key ≡ none))
unfolding insert bind
insert-none null key n = cc
insert-none (node leaf child) [] n = inl tt
insert-none (node leaf child) (x ∷ key) n = elim (Bool-cases (ltb x 128)) [
  | inr high ↦ inr (λ k. absurd (omega (arith, ltb→le _ _ high, k.0)), rw high refl)
  | inl low ↦ elim (insert-none (or_new (child x)) key (or_new-is_node (child x))) [
    | inl k ↦ inl (ltb→lt _ _ low, k)
    | inr (outside, e) ↦ inr (λ k. outside k.1, rw (low, e) refl)
  ]
]
