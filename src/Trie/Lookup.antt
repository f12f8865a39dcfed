-- ===== src/Trie/Lookup.antt =====
-- The keys that a trie of base/trie.hpp stores, and what `insert` does to them.
use ae_proxy.Base.{
  ℕ, ◌≡◌, refl, ap, ◌∙◌, Bool, true, false, ◌&&◌, ◌||◌, List, [], ◌∷◌, ◌==◌, Bool-cases, ==_iff,
  ==_self, inl, inr, ◌⊎◌, some, none,
}
use ae_proxy.Trie.{Trie, null, node, is_node, set_child, new_trie, or_new, insert}
use ae_proxy.Trie.InRange.{IsAsciiKey, or_new-is_node, inserted, insert-inserted, insert-none}

-- The key is stored: the path is there, and ends in a leaf mark.
unfoldable pub contains : Trie → List ℕ → Bool
contains null key = false
contains (node leaf child) [] = leaf
contains (node leaf child) (x ∷ key) = contains (child x) key

pub contains-new_trie : (key : List ℕ) → contains new_trie key ≡ false
unfolding contains
contains-new_trie [] = refl
contains-new_trie (x ∷ key) = refl

-- The keys are the same.
abbrev pub same_key : List ℕ → List ℕ → Bool
same_key [] [] = true
same_key [] (y ∷ ys) = false
same_key (x ∷ xs) [] = false
same_key (x ∷ xs) (y ∷ ys) = x == y && same_key xs ys

contains-or_new : (t : Trie) (j : List ℕ) → contains (or_new t) j ≡ contains t j
unfolding contains
contains-or_new null [] = refl
contains-or_new null (x ∷ j) = refl
contains-or_new (node leaf child) j = refl

pub contains-inserted :
    (t : Trie) (key j : List ℕ)
    → is_node t ≡ true
    → contains (inserted t key) j ≡ (same_key j key || contains t j)
unfolding contains inserted
contains-inserted null key j h = cc
contains-inserted (node leaf child) [] [] h = refl
contains-inserted (node leaf child) [] (y ∷ j) h = refl
contains-inserted (node leaf child) (x ∷ key) [] h = refl
contains-inserted (node leaf child) (x ∷ key) (y ∷ j) h =
    let next = inserted (or_new (child x)) key in
    elim (Bool-cases (y == x)) [
      | inl same ↦
          let here : set_child child x next y ≡ next = rw same in
          ap (λ t. contains t j) here
          ∙ rw ((==_iff y x).0 same, ==_self x)
              (contains-inserted (or_new (child x)) key j (or_new-is_node (child x))
                ∙ ap (◌||◌ (same_key j key)) (contains-or_new (child x) j))
      | inr other ↦
          let there : set_child child x next y ≡ child y = rw other in
          ap (λ t. contains t j) there ∙ rw other
    ]

-- In a trie that is there, `insert` of a key of bytes below 128 returns, stores the key and changes no
-- other: a key is stored afterwards if it is the inserted one or was stored before, and not
-- otherwise. `insert` of a key with another byte is undefined: it reaches an entry that the array
-- does not have.
pub contains-insert :
    (t : Trie) (key : List ℕ)
    → is_node t ≡ true
    → (IsAsciiKey key
        × ((t' : Trie) × (insert t key ≡ some t')
            × ((j : List ℕ) → contains t' j ≡ (same_key j key || contains t j))))
      ⊎ ((¬ IsAsciiKey key) × (insert t key ≡ none))
contains-insert t key there = elim (insert-none t key there) [
  | inl ascii ↦ inl (
    ascii,
    (inserted t key, insert-inserted t key there ascii, λ j. contains-inserted t key j there),
  )
  | inr outside ↦ inr outside
]
