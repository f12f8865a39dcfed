-- ===== src/Trie/Freeing.antt =====
-- `deletion` of base/trie.hpp: the nodes that it frees and what it reports.
use ae_proxy.Base.{
  ℕ, ◌≡◌, refl, ◌∙◌, ◌⊎◌, inl, inr, Bool, true, false, not, ◌&&◌, some, List, [], ◌∷◌, ◌==◌,
  Bool-cases, ==_iff, arith,
}
use ae_proxy.Trie.{Trie, null, node, is_node, set_child, have_children, free_or, deletion}
use ae_proxy.Trie.InRange.{IsAsciiKey, deleted, deletion-deleted}
use ae_proxy.Trie.Lookup.{contains, same_key}
use ae_proxy.Trie.Shape.{
  IsAscii, IsPruned, have_children-true, have_children-cong, set_child-all, is_node-null,
}
use ae_proxy.Trie.Deletion.{unwound, deleted-cons, deleted-Bounded, contains-deleted}

-- `deletion` reports that it deleted the node of its first argument exactly when that pointer has
-- become null.
pub deleted-freed :
    (t : Trie) (key : List ℕ) → is_node (deleted t key).1 ≡ (is_node t && not (deleted t key).0)
unfolding deleted
deleted-freed null key = refl
deleted-freed (node leaf child) [] = ground arith
deleted-freed (node leaf child) (x ∷ key) = ground arith

deleted_report :
    (t : Trie) (key : List ℕ) → (deleted t key).0 ≡ (is_node t && not (is_node (deleted t key).1))
unfolding deleted
deleted_report null key = refl
deleted_report (node leaf child) key = ground (arith, deleted-freed (node leaf child) key)

-- A property of what `free_or` leaves, from its two cases.
free_or-case {κ} :
    (P : Trie → Type κ) (child : ℕ → Trie) (kept : Trie)
    → P null
    → (have_children child ≡ true → P kept)
    → P (free_or child kept).1
free_or-case P child kept gone stays = elim (Bool-cases (have_children child)) [
  | inl some_left ↦ rw some_left (stays some_left)
  | inr none_left ↦ rw none_left gone
]

unwound-case {κ} :
    (P : Trie → Type κ) (leaf : Bool) (child : ℕ → Trie) (freed : Bool)
    → P null
    → ((leaf ≡ true) ⊎ (freed ≡ false) ⊎ (have_children child ≡ true) → P (node leaf child))
    → P (unwound leaf child freed).1
unwound-case P leaf child false gone stays = stays (inr (inl refl))
unwound-case P true child true gone stays = stays (inl refl)
unwound-case P false child true gone stays =
    free_or-case P child (node false child) gone (λ left. stays (inr (inr left)))

-- A deletion keeps all children inside the arrays.
pub deleted-IsAscii : (t : Trie) (key : List ℕ) → IsAscii t → IsAscii (deleted t key).1
unfolding deleted
deleted-IsAscii null key h = tt
deleted-IsAscii (node true child) [] h = free_or-case IsAscii child (node false child) tt (λ _. h)
deleted-IsAscii (node false child) [] h = h
deleted-IsAscii (node leaf child) (x ∷ key) h = rw (deleted-cons leaf child x key) (
    unwound-case IsAscii leaf (set_child child x (deleted (child x) key).1)
      (deleted (child x) key).0 tt
      (λ _. (
        deleted-Bounded child x key h.0,
        set_child-all IsAscii child x (deleted (child x) key).1
            (deleted-IsAscii (child x) key (h.1 x)) h.1,
      )))

-- Where nothing was freed the same entries of the array are null as before.
kept-children :
    (child : ℕ → Trie) (x : ℕ) (key : List ℕ)
    → (deleted (child x) key).0 ≡ false
    → have_children (set_child child x (deleted (child x) key).1) ≡ have_children child
kept-children child x key e =
    have_children-cong (set_child child x (deleted (child x) key).1) child same
  where
    and_true : (a : Bool) → (a && true) ≡ a
    and_true a = ground arith

    same : (j : ℕ) → is_node (set_child child x (deleted (child x) key).1 j) ≡ is_node (child j)
    same j = elim (Bool-cases (j == x)) [
      | inl here ↦ rw (here, (==_iff j x).0 here, deleted-freed (child x) key, e) (and_true _)
      | inr other ↦ rw other
    ]

pub deleted-IsPruned : (t : Trie) (key : List ℕ) → IsPruned t → IsPruned (deleted t key).1
unfolding deleted
deleted-IsPruned null key h = tt
deleted-IsPruned (node true child) [] h =
    free_or-case IsPruned child (node false child) tt (λ left. (left, h.1))
deleted-IsPruned (node false child) [] h = h
deleted-IsPruned (node leaf child) (x ∷ key) h = rw (deleted-cons leaf child x key) (
    unwound-case IsPruned leaf (set_child child x (deleted (child x) key).1)
      (deleted (child x) key).0 tt
      (λ reason. (
        ground (arith, reason, h.0, kept-children child x key),
        set_child-all IsPruned child x (deleted (child x) key).1
            (deleted-IsPruned (child x) key (h.1 x)) h.1,
      )))

-- A deletion leaves no dead branch, whatever it reports: of a key of bytes below 128, in a trie in
-- which every node stores a key or has children, it returns, every node of what it leaves stores a
-- key or has children, and it reports true exactly where it frees the node that it was called for.
pub deletion-IsPruned :
    (t : Trie) (key : List ℕ)
    → IsAsciiKey key
    → IsPruned t
    → (reported : Bool) × (t' : Trie) × (deletion t key ≡ some (reported, t'))
      × IsPruned t'
      × (reported ≡ (is_node t && not (is_node t')))
deletion-IsPruned t key ascii pruned = (
  (deleted t key).0,
  (deleted t key).1,
  deletion-deleted t key ascii,
  deleted-IsPruned t key pruned,
  deleted_report t key,
)

-- In a trie without dead branches every node leads to a stored key.
pub IsPruned-stored :
    (t : Trie) → IsPruned t → is_node t ≡ true → (key : List ℕ) × (contains t key ≡ true)
unfolding contains
IsPruned-stored null h n = cc
IsPruned-stored (node true child) h n = ([], refl)
IsPruned-stored (node false child) h n =
    let (x, there) = have_children-true child h.0 in
    let (key, e) = IsPruned-stored (child x) (h.1 x) there in (x ∷ key, e)

deleted_last :
    (t : Trie) (key : List ℕ)
    → IsAscii t
    → IsPruned t
    → is_node t ≡ true
    → ((j : List ℕ) → contains t j ≡ same_key j key)
    → ((deleted t key).1 ≡ null) × ((deleted t key).0 ≡ true)
deleted_last t key ascii pruned there only = (is_node-null (deleted t key).1 gone, reported)
  where
    absent : (j : List ℕ) → contains (deleted t key).1 j ≡ false
    absent j = ground (arith, contains-deleted t key j ascii, only j)

    gone : is_node (deleted t key).1 ≡ false
    gone = elim (Bool-cases (is_node (deleted t key).1)) [
      | inr e ↦ e
      | inl e ↦
          let (j, stored) = IsPruned-stored (deleted t key).1 (deleted-IsPruned t key pruned) e in
          absurd (cc (absent j))
    ]

    reported : (deleted t key).0 ≡ true
    reported = ground (arith, deleted-freed t key, gone)

-- So nothing leaks when the rules go: in a trie without children outside the arrays and without dead
-- branches, the deletion of the only key that it stores, one of bytes below 128, frees all of it: the
-- pointer is null afterwards and the call returns true.
pub deletion_last :
    (t : Trie) (key : List ℕ)
    → IsAsciiKey key
    → IsAscii t
    → IsPruned t
    → is_node t ≡ true
    → ((j : List ℕ) → contains t j ≡ same_key j key)
    → deletion t key ≡ some (true, null)
deletion_last t key low ascii pruned there only =
    let (gone, reported) = deleted_last t key ascii pruned there only in
    deletion-deleted t key low ∙ (λ i. some (reported i, gone i))
