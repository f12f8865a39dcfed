-- ===== src/Trie/Shape.antt =====
-- The shape of the tries of base/trie.hpp: no child outside the array, and no dead branch.
use ae_proxy.Base.{
  ℕ, zero, suc, ◌+◌, ◌≤◌, ◌<◌, ◌≡◌, ◌≢◌, refl, inl, inr, Bool, true, false, ◌||◌, List, [], ◌∷◌,
  ltb, ltb→lt, ltb→le, ◌==◌, Bool-cases, ==_iff, ==_self, ne→==, arith,
}
use ae_proxy.Trie.{
  Trie, null, node, is_node, set_child, or_new, char_size, child_from, have_children,
}
use ae_proxy.Trie.InRange.{IsAsciiKey, or_new-is_node, inserted}

-- Children stand below index 128 only, at every node.
abbrev pub IsAscii : Trie → Type 0
IsAscii null = Unit {0}
IsAscii (node leaf child) =
    ((i : ℕ) → char_size ≤ i → child i ≡ null) × ((i : ℕ) → IsAscii (child i))

-- A node that is not the root stores a key or has children, at every node below `t`.
abbrev pub IsPruned : Trie → Type 0
IsPruned null = Unit {0}
IsPruned (node leaf child) = ((leaf || have_children child) ≡ true) × ((i : ℕ) → IsPruned (child i))

-- What the root, which may be empty, has below it.
abbrev pub IsPrunedBelow : Trie → Type 0
IsPrunedBelow null = Unit {0}
IsPrunedBelow (node leaf child) = (i : ℕ) → IsPruned (child i)

pub is_node-null : (t : Trie) → is_node t ≡ false → t ≡ null
is_node-null null h = refl
is_node-null (node leaf child) h = cc

child_from-false :
    (left i : ℕ) (child : ℕ → Trie)
    → child_from left i child ≡ false
    → (j : ℕ) → i ≤ j
    → j < i + left
    → child j ≡ null
unfolding child_from
child_from-false zero i child h j low high = absurd (omega arith)
child_from-false (suc left) i child h j low high = elim (Bool-cases (is_node (child i))) [
  | inl there ↦ cc there
  | inr gone ↦ elim (Bool-cases (j == i)) [
    | inl here ↦ rw ((==_iff j i).0 here) (is_node-null (child i) gone)
    | inr further ↦
        child_from-false left (i + 1) child (rw gone at h) j (ground arith) (omega arith)
  ]
]

child_from-true :
    (left i : ℕ) (child : ℕ → Trie)
    → child_from left i child ≡ true
    → (j : ℕ) × (is_node (child j) ≡ true)
unfolding child_from
child_from-true zero i child h = cc
child_from-true (suc left) i child h = elim (Bool-cases (is_node (child i))) [
  | inl there ↦ (i, there)
  | inr gone ↦ child_from-true left (i + 1) child (rw gone at h)
]

child_from-at :
    (left i : ℕ) (child : ℕ → Trie) (j : ℕ)
    → i ≤ j
    → j < i + left
    → is_node (child j) ≡ true
    → child_from left i child ≡ true
unfolding child_from
child_from-at zero i child j low high h = absurd (omega arith)
child_from-at (suc left) i child j low high h = elim (Bool-cases (is_node (child i))) [
  | inl there ↦ rw there
  | inr gone ↦
      let other : i ≢ j = λ e. cc in
      rw gone (child_from-at left (i + 1) child j (omega arith) (omega arith) h)
]

child_from-cong :
    (left i : ℕ) (child child' : ℕ → Trie)
    → ((j : ℕ) → is_node (child j) ≡ is_node (child' j))
    → child_from left i child ≡ child_from left i child'
unfolding child_from
child_from-cong zero i child child' h = refl
child_from-cong (suc left) i child child' h = rw (h i, child_from-cong left (i + 1) child child' h)

pub have_children-cong :
    (child child' : ℕ → Trie)
    → ((j : ℕ) → is_node (child j) ≡ is_node (child' j))
    → have_children child ≡ have_children child'
unfolding have_children
have_children-cong child child' h = child_from-cong 128 0 child child' h

pub have_children-false :
    (child : ℕ → Trie)
    → ((i : ℕ) → char_size ≤ i → child i ≡ null)
    → have_children child ≡ false
    → (i : ℕ) → child i ≡ null
unfolding have_children
have_children-false child bounded h i = elim (Bool-cases (ltb i 128)) [
  | inl low ↦ child_from-false 128 0 child h i (omega arith) (omega (arith, ltb→lt _ _ low))
  | inr high ↦ bounded i (ltb→le _ _ high)
]

pub have_children-true :
    (child : ℕ → Trie) → have_children child ≡ true → (j : ℕ) × (is_node (child j) ≡ true)
unfolding have_children
have_children-true child h = child_from-true 128 0 child h

pub have_children-at :
    (child : ℕ → Trie) (j : ℕ) → j < 128 → is_node (child j) ≡ true → have_children child ≡ true
unfolding have_children
have_children-at child j low h = child_from-at 128 0 child j (omega arith) (omega arith) h

-- What holds of the entries and of the entry written holds of all entries after.
pub set_child-all {κ} :
    (P : Trie → Type κ) (child : ℕ → Trie) (x : ℕ) (t : Trie)
    → P t
    → ((i : ℕ) → P (child i))
    → (i : ℕ) → P (set_child child x t i)
set_child-all P child x t p all i = elim (Bool-cases (i == x)) [
  | inl here ↦ rw here p
  | inr other ↦ rw other (all i)
]

pub set_child-above :
    (child : ℕ → Trie) (x : ℕ) (t : Trie)
    → x < 128
    → ((i : ℕ) → char_size ≤ i → child i ≡ null)
    → (i : ℕ) → char_size ≤ i
    → set_child child x t i ≡ null
set_child-above child x t low bounded i high =
    let other : i ≢ x = omega arith in rw (ne→== other) (bounded i high)

pub inserted-is_node :
    (t : Trie) (key : List ℕ) → is_node t ≡ true → is_node (inserted t key) ≡ true
unfolding inserted
inserted-is_node null key h = h
inserted-is_node (node leaf child) [] h = refl
inserted-is_node (node leaf child) (x ∷ key) h = refl

or_new-IsAscii : (t : Trie) → IsAscii t → IsAscii (or_new t)
or_new-IsAscii null h = (λ i high. refl, λ i. tt)
or_new-IsAscii (node leaf child) h = h

or_new-IsPrunedBelow : (t : Trie) → IsPruned t → IsPrunedBelow (or_new t)
or_new-IsPrunedBelow null h = λ i. tt
or_new-IsPrunedBelow (node leaf child) h = h.1

-- Inserting an ASCII key keeps all children inside the arrays.
pub inserted-IsAscii :
    (t : Trie) (key : List ℕ) → IsAsciiKey key → IsAscii t → IsAscii (inserted t key)
unfolding inserted
inserted-IsAscii null key k h = tt
inserted-IsAscii (node leaf child) [] k h = h
inserted-IsAscii (node leaf child) (x ∷ key) k h =
    let next = inserted (or_new (child x)) key in
    (
      set_child-above child x next k.0 h.0,
      set_child-all IsAscii child x next
          (inserted-IsAscii (or_new (child x)) key k.1 (or_new-IsAscii (child x) (h.1 x))) h.1,
    )

-- After an insertion every node of the trie, the root too, stores a key or has children, if that
-- held of the nodes below the root.
pub inserted-IsPruned :
    (t : Trie) (key : List ℕ)
    → is_node t ≡ true
    → IsAsciiKey key
    → IsPrunedBelow t
    → IsPruned (inserted t key)
unfolding inserted
inserted-IsPruned null key n k h = tt
inserted-IsPruned (node leaf child) [] n k h = (refl, h)
inserted-IsPruned (node leaf child) (x ∷ key) n k h =
    let next = inserted (or_new (child x)) key in
    let grown : is_node (set_child child x next x) ≡ true =
      rw (==_self x) (inserted-is_node (or_new (child x)) key (or_new-is_node (child x))) in
    (
      rw (have_children-at (set_child child x next) x k.0 grown) (or_true leaf),
      set_child-all IsPruned child x next
          (inserted-IsPruned (or_new (child x)) key (or_new-is_node (child x)) k.1
            (or_new-IsPrunedBelow (child x) (h x)))
          h,
    )
  where
    or_true : (a : Bool) → (a || true) ≡ true
    or_true a = ground arith
