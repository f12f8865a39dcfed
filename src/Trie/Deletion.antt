-- ===== src/Trie/Deletion.antt =====
-- `deletion` of base/trie.hpp: the keys that it forgets.
use ae_proxy.Base.{
  ℕ, ◌≤◌, ◌≡◌, refl, sym, ap, ◌∙◌, inl, inr, Bool, true, false, not, ◌&&◌, some, List, [], ◌∷◌,
  ◌==◌, if◌then◌else◌, Bool-cases, ==_iff, ==_self, arith,
}
use ae_proxy.Trie.{
  Trie, null, node, is_node, set_child, char_size, have_children, free_or, deletion,
}
use ae_proxy.Trie.InRange.{IsAsciiKey, deleted, deletion-deleted}
use ae_proxy.Trie.Lookup.{contains, same_key}
use ae_proxy.Trie.Shape.{IsAscii, have_children-false}

-- The pointer after a call on a node that is not the end of the key.
abbrev pub unwound : Bool → (ℕ → Trie) → Bool → Bool × Trie
unwound leaf child' freed =
    if freed && not leaf then free_or child' (node leaf child') else (false, node leaf child')

deleted-gone : (t : Trie) (key : List ℕ) → is_node t ≡ false → deleted t key ≡ (false, null)
unfolding deleted
deleted-gone null key h = refl
deleted-gone (node leaf child) key h = cc

-- One step of the recursion, whether the child is there or not.
pub deleted-cons :
    (leaf : Bool) (child : ℕ → Trie) (x : ℕ) (key : List ℕ)
    → deleted (node leaf child) (x ∷ key)
      ≡ unwound leaf (set_child child x (deleted (child x) key).1) (deleted (child x) key).0
unfolding deleted
deleted-cons leaf child x key = elim (Bool-cases (is_node (child x))) [
  | inl there ↦ rw there
  | inr gone ↦ rw (gone, deleted-gone (child x) key gone)
]

abbrev pub Bounded : (ℕ → Trie) → Type 0
Bounded child = (i : ℕ) → char_size ≤ i → child i ≡ null

pub deleted-Bounded :
    (child : ℕ → Trie) (x : ℕ) (key : List ℕ)
    → Bounded child
    → Bounded (set_child child x (deleted (child x) key).1)
deleted-Bounded child x key h i high = elim (Bool-cases (i == x)) [
  | inl here ↦
      let same : i ≡ x = (==_iff i x).0 here in
      let gone : is_node (child x) ≡ false = ap is_node (ap child (sym same) ∙ h i high) in
      rw here (ap (λ p. p.1) (deleted-gone (child x) key gone))
  | inr other ↦ rw other (h i high)
]

-- A node without a key is freed only if nothing is below it.
freed-contains :
    (child : ℕ → Trie) (j : List ℕ)
    → Bounded child
    → contains (free_or child (node false child)).1 j ≡ contains (node false child) j
unfolding contains
freed-contains child [] h = elim (Bool-cases (have_children child)) [
  | inl some_left ↦ rw some_left
  | inr none_left ↦ rw none_left
]
freed-contains child (y ∷ j) h = elim (Bool-cases (have_children child)) [
  | inl some_left ↦ rw some_left
  | inr none_left ↦
      rw none_left (ap (λ t. contains t j) (sym (have_children-false child h none_left y)))
]

unwound-contains :
    (leaf : Bool) (child : ℕ → Trie) (freed : Bool) (j : List ℕ)
    → Bounded child
    → contains (unwound leaf child freed).1 j ≡ contains (node leaf child) j
unwound-contains leaf child false j h = refl
unwound-contains true child true j h = refl
unwound-contains false child true j h = freed-contains child j h

written-contains :
    (leaf : Bool) (child : ℕ → Trie) (x : ℕ) (next : Trie) (key j : List ℕ)
    → ((j' : List ℕ)
        → contains next j' ≡ (if same_key j' key then false else contains (child x) j'))
    → contains (node leaf (set_child child x next)) j
      ≡ (if same_key j (x ∷ key) then false else contains (node leaf child) j)
unfolding contains
written-contains leaf child x next key [] h = refl
written-contains leaf child x next key (y ∷ j) h = elim (Bool-cases (y == x)) [
  | inl same ↦
      let here : set_child child x next y ≡ next = rw same in
      ap (λ t. contains t j) here ∙ rw ((==_iff y x).0 same, ==_self x) (h j)
  | inr other ↦
      let there : set_child child x next y ≡ child y = rw other in
      ap (λ t. contains t j) there ∙ rw other
]

pub contains-deleted :
    (t : Trie) (key j : List ℕ)
    → IsAscii t
    → contains (deleted t key).1 j ≡ (if same_key j key then false else contains t j)
unfolding contains deleted
contains-deleted null key j h = ground arith
contains-deleted (node false child) [] [] h = refl
contains-deleted (node false child) [] (y ∷ j) h = refl
contains-deleted (node true child) [] [] h = freed-contains child [] h.0
contains-deleted (node true child) [] (y ∷ j) h = freed-contains child (y ∷ j) h.0
contains-deleted (node leaf child) (x ∷ key) j h =
    ap (λ p. contains p.1 j) (deleted-cons leaf child x key)
    ∙ unwound-contains leaf (set_child child x (deleted (child x) key).1) (deleted (child x) key).0
        j (deleted-Bounded child x key h.0)
    ∙ written-contains leaf child x (deleted (child x) key).1 key j
        (λ j'. contains-deleted (child x) key j' (h.1 x))

-- In a trie without children outside the arrays, `deletion` of a key of bytes below 128 returns, and
-- forgets the key, if the trie stores it, and no other: a key is stored afterwards if it was stored
-- before and is not the deleted one.
pub contains-deletion :
    (t : Trie) (key : List ℕ)
    → IsAscii t
    → IsAsciiKey key
    → (reported : Bool) × (t' : Trie) × (deletion t key ≡ some (reported, t'))
      × ((j : List ℕ) → contains t' j ≡ (if same_key j key then false else contains t j))
contains-deletion t key bounded ascii = (
  (deleted t key).0,
  (deleted t key).1,
  deletion-deleted t key ascii,
  λ j. contains-deleted t key j bounded,
)
