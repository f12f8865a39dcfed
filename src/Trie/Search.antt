-- ===== src/Trie/Search.antt =====
-- `search` of base/trie.hpp: exact keys, and the wildcard rule at the end of a path.
use ae_proxy.Base.{
  ℕ, ◌≡◌, ◌≢◌, refl, sym, ap, ◌∙◌, ◌⊎◌, ◌↔◌, inl, inr, Bool, true, false, List, [], ◌∷◌, ◌++◌, some,
  if◌then◌else◌, Bool-cases, ==_self, ne→==, arith,
}
use ae_proxy.Trie.{Trie, null, node, is_node, set_child, new_trie, or_new, wildcard, search, insert}
use ae_proxy.Trie.InRange.{
  or_new-is_node, IsAsciiKey, inserted, finds, search-finds, insert-inserted,
}
use ae_proxy.Trie.Lookup.{contains}
use ae_proxy.Trie.Shape.{is_node-null, inserted-is_node}

-- The node at the end of a path, or null.
abbrev pub follow : Trie → List ℕ → Trie
follow null path = null
follow (node leaf child) [] = node leaf child
follow (node leaf child) (x ∷ path) = follow (child x) path

-- The path of the key breaks off behind `before`, at a node that has a child for '*'.
pub record MeetsWildcard (t : Trie) (key : List ℕ) : Type 0 where
  pub before : List ℕ
  pub next : ℕ
  pub after : List ℕ
  pub split : key ≡ before ++ next ∷ after
  pub breaks : is_node (follow t (before ++ next ∷ [])) ≡ false
  pub has_rule : is_node (follow t (before ++ wildcard ∷ [])) ≡ true

pub finds-cons :
    (leaf : Bool) (child : ℕ → Trie) (x : ℕ) (key : List ℕ)
    → finds (node leaf child) (x ∷ key)
      ≡ (if is_node (child x) then finds (child x) key else is_node (child wildcard))
unfolding finds
finds-cons leaf child x key = go (child x) refl
  where
    go :
        (c : Trie)
        → child x ≡ c
        → finds (node leaf child) (x ∷ key)
          ≡ (if is_node (child x) then finds (child x) key else is_node (child wildcard))
    go null e = rw (e, finds)
    go (node l c) e = rw (e, finds) refl

deeper :
    (leaf : Bool) (child : ℕ → Trie) (x : ℕ) (key : List ℕ)
    → MeetsWildcard (child x) key
    → MeetsWildcard (node leaf child) (x ∷ key)
deeper leaf child x key m = record {
  before = x ∷ m.before;
  next = m.next;
  after = m.after;
  split = ap (◌∷◌ x) m.split;
  breaks = m.breaks;
  has_rule = m.has_rule;
}

follow-one : (t : Trie) → follow t [] ≡ t
follow-one null = refl
follow-one (node leaf child) = refl

finds-true :
    (t : Trie) (key : List ℕ) → finds t key ≡ true → (contains t key ≡ true) ⊎ MeetsWildcard t key
unfolding finds contains
finds-true null key h = cc
finds-true (node leaf child) [] h = inl h
finds-true (node leaf child) (x ∷ key) h = elim (Bool-cases (is_node (child x))) [
  | inl there ↦ elim (finds-true (child x) key (ground (arith, finds-cons leaf child x key))) [
    | inl exact ↦ inl exact
    | inr m ↦ inr (deeper leaf child x key m)
  ]
  | inr gone ↦ inr (record {
    before = [];
    next = x;
    after = key;
    split = refl;
    breaks = rw (follow-one (child x)) gone;
    has_rule = rw (follow-one (child wildcard)) (ground (arith, finds-cons leaf child x key));
  })
]

contains-finds : (t : Trie) (key : List ℕ) → contains t key ≡ true → finds t key ≡ true
unfolding finds contains
contains-finds null key h = h
contains-finds (node leaf child) [] h = h
contains-finds (node leaf child) (x ∷ key) h = elim (Bool-cases (is_node (child x))) [
  | inl there ↦ finds-cons leaf child x key ∙ rw there (contains-finds (child x) key h)
  | inr gone ↦
      let absent : contains (child x) key ≡ false =
        ap (λ t. contains t key) (is_node-null (child x) gone) in
      cc absent
]

follow-is_node : (t : Trie) (path : List ℕ) → is_node (follow t path) ≡ true → is_node t ≡ true
follow-is_node null path h = h
follow-is_node (node leaf child) path h = refl

wildcard-finds :
    (t : Trie) (before : List ℕ) (next : ℕ) (after : List ℕ)
    → is_node (follow t (before ++ next ∷ [])) ≡ false
    → is_node (follow t (before ++ wildcard ∷ [])) ≡ true
    → finds t (before ++ next ∷ after) ≡ true
wildcard-finds null before next after b r = cc
wildcard-finds (node leaf child) [] next after b r =
    finds-cons leaf child next after
    ∙ rw (rw (follow-one (child next)) at b) (rw (follow-one (child wildcard)) at r)
wildcard-finds (node leaf child) (x ∷ before) next after b r =
    finds-cons leaf child x (before ++ next ∷ after)
    ∙ rw (follow-is_node (child x) (before ++ wildcard ∷ []) r)
        (wildcard-finds (child x) before next after b r)

finds_iff :
    (t : Trie) (key : List ℕ)
    → (finds t key ≡ true) ↔ ((contains t key ≡ true) ⊎ MeetsWildcard t key)
finds_iff t key = (finds-true t key, back)
  where
    back : (contains t key ≡ true) ⊎ MeetsWildcard t key → finds t key ≡ true
    back (inl exact) = contains-finds t key exact
    back (inr m) = rw m.split (wildcard-finds t m.before m.next m.after m.breaks m.has_rule)

-- Of a key of bytes below 128, whatever the trie, `search` returns, and it returns true exactly for
-- the stored keys and for the keys whose path breaks off at a node with a child for '*'.
pub search_iff :
    (t : Trie) (key : List ℕ)
    → IsAsciiKey key
    → (found : Bool) × (search t key ≡ some found)
      × ((found ≡ true) ↔ ((contains t key ≡ true) ⊎ MeetsWildcard t key))
search_iff t key ascii = (finds t key, search-finds t key ascii, finds_iff t key)

-- `insert` and `search` that go through the same child.
finds-inserted-cons :
    (leaf : Bool) (child : ℕ → Trie) (x : ℕ) (key j : List ℕ)
    → finds (inserted (node leaf child) (x ∷ key)) (x ∷ j)
      ≡ finds (inserted (or_new (child x)) key) j
unfolding inserted
finds-inserted-cons leaf child x key j =
    let next = inserted (or_new (child x)) key in
    let here : set_child child x next x ≡ next = rw (==_self x) in
    let grown : is_node next ≡ true =
      inserted-is_node (or_new (child x)) key (or_new-is_node (child x)) in
    finds-cons leaf (set_child child x next) x j
    ∙ rw (ap is_node here ∙ grown) (ap (λ t. finds t j) here)

or_new-node : (t : Trie) → is_node t ≡ true → or_new t ≡ t
or_new-node null h = cc
or_new-node (node leaf child) h = refl

single_finds :
    (third other : ℕ)
    → third ≢ other
    → third ≢ wildcard
    → finds (inserted new_trie (third ∷ [])) (other ∷ []) ≡ false
unfolding inserted
single_finds third other o w =
    finds-cons false (set_child (λ i. null) third (inserted new_trie [])) other []
    ∙ rw (ne→== (λ e. o (sym e)), ne→== (λ e. w (sym e)))

shadowed :
    (t : Trie) (before : List ℕ) (next other third : ℕ)
    → is_node (follow t (before ++ next ∷ [])) ≡ false
    → is_node (follow t (before ++ wildcard ∷ [])) ≡ true
    → third ≢ other
    → third ≢ wildcard
    → finds (inserted t (before ++ next ∷ third ∷ [])) (before ++ next ∷ other ∷ []) ≡ false
shadowed null before next other third b r o w = cc
shadowed (node leaf child) [] next other third b r o w =
    finds-inserted-cons leaf child next (third ∷ []) (other ∷ [])
    ∙ ap (λ t. finds (inserted (or_new t) (third ∷ [])) (other ∷ []))
        (is_node-null (child next) (rw (follow-one (child next)) at b))
    ∙ single_finds third other o w
shadowed (node leaf child) (x ∷ before) next other third b r o w =
    finds-inserted-cons leaf child x (before ++ next ∷ third ∷ []) (before ++ next ∷ other ∷ [])
    ∙ ap (λ t. finds (inserted t (before ++ next ∷ third ∷ [])) (before ++ next ∷ other ∷ []))
        (or_new-node (child x) (follow-is_node (child x) (before ++ wildcard ∷ []) r))
    ∙ shadowed (child x) before next other third b r o w

-- The rules are not independent: a wildcard rule under the path `before` stops matching a key once a
-- longer key that shares one more character with it is inserted. The path breaks off behind
-- `before`; the keys are of bytes below 128, the character `third` is neither that of the key nor
-- '*'. Before the insertion the key `before`, `next`, `other` is found by the wildcard; the insertion
-- returns, and afterwards the key is not found.
pub wildcard-insert :
    (t : Trie) (before : List ℕ) (next other third : ℕ)
    → IsAsciiKey (before ++ next ∷ third ∷ [])
    → IsAsciiKey (before ++ next ∷ other ∷ [])
    → is_node (follow t (before ++ next ∷ [])) ≡ false
    → is_node (follow t (before ++ wildcard ∷ [])) ≡ true
    → third ≢ other
    → third ≢ wildcard
    → (search t (before ++ next ∷ other ∷ []) ≡ some true)
      × ((t' : Trie) × (insert t (before ++ next ∷ third ∷ []) ≡ some t')
          × (search t' (before ++ next ∷ other ∷ []) ≡ some false))
wildcard-insert t before next other third low low' b r o w =
    let key = before ++ next ∷ third ∷ [] in
    let host = before ++ next ∷ other ∷ [] in
    let there = follow-is_node t (before ++ wildcard ∷ []) r in
    (
      search-finds t host low' ∙ ap some (wildcard-finds t before next (other ∷ []) b r),
      (
        inserted t key,
        insert-inserted t key there low,
        search-finds (inserted t key) host low'
            ∙ ap some (shadowed t before next other third b r o w),
      ),
    )
