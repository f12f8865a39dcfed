-- ===== src/Trie.antt =====
-- base/trie.hpp: the trie of reversed domain rules. A character is its code; a pointer is `null` or
-- an object. The array `character` has 128 entries: an access at another index is undefined, and the
-- operation that makes it gives `none`.
pub mod InRange
pub mod Lookup
pub mod Shape
pub mod Deletion
pub mod Freeing
pub mod Search
use ae_proxy.Base.{
  ℕ, zero, suc, ◌+◌, Bool, true, false, not, ◌&&◌, List, [], ◌∷◌, ◌==◌, ltb, Option, none, some,
  if◌then◌else◌,
}
use mathlib.Core.Option.{bind}

-- The array is the entries below 128 of the function: nothing reads or writes another one.
pub data Trie : Type 0 where
  null : Trie
  node : Bool → (ℕ → Trie) → Trie

abbrev pub char_size : ℕ
char_size = 128

abbrev pub is_node : Trie → Bool
is_node null = false
is_node (node leaf child) = true

-- The constructor: no leaf, all pointers null.
abbrev pub new_trie : Trie
new_trie = node false (λ i. null)

-- `character[i]`. A byte of a key from 128 on is an index out of the array, whether a plain char has
-- a sign or not.
abbrev pub get_child : (ℕ → Trie) → ℕ → Option Trie
get_child child i = if ltb i char_size then some (child i) else none

-- The array with one entry written, at an index that was read before.
abbrev pub set_child : (ℕ → Trie) → ℕ → Trie → ℕ → Trie
set_child child i t j = if j == i then t else child j

abbrev pub or_new : Trie → Trie
or_new null = new_trie
or_new (node leaf child) = node leaf child

-- `insert`, on the object that `this` points at; the loop goes down one node for each character.
unfoldable pub insert : Trie → List ℕ → Option Trie
unfolding bind
insert null key = none
insert (node leaf child) [] = some (node true child)
insert (node leaf child) (x ∷ key) =
    bind (get_child child x)
      (λ c. bind (insert (or_new c) key) (λ next. some (node leaf (set_child child x next))))

abbrev pub wildcard : ℕ
wildcard = b'*'

unfoldable pub search : Trie → List ℕ → Option Bool
unfolding bind
search null key = some false
search (node leaf child) [] = some leaf
search (node leaf child) (x ∷ key) = bind (get_child child x) (λ c. elim c [
  | null ↦ some (is_node (child wildcard))
  | node leaf child ↦ search (node leaf child) key
])

-- The loop over `i`, with the rounds that are left.
child_from : ℕ → ℕ → (ℕ → Trie) → Bool
child_from zero i child = false
child_from (suc left) i child = if is_node (child i) then true else child_from left (i + 1) child

unfoldable pub have_children : (ℕ → Trie) → Bool
unfolding child_from
have_children child = child_from char_size 0 child

-- `if (!haveChildren(curr)) { delete curr; curr = nullptr; return true; }`, else the node as the
-- other branch leaves it.
abbrev pub free_or : (ℕ → Trie) → Trie → Bool × Trie
free_or child kept = if not (have_children child) then (true, null) else (false, kept)

-- `deletion`: the result, and the pointer that is left in the caller's variable.
unfoldable pub deletion : Trie → List ℕ → Option (Bool × Trie)
unfolding bind
deletion null key = some (false, null)
deletion (node leaf child) [] =
    some (if leaf then free_or child (node false child) else (false, node leaf child))
deletion (node leaf child) (x ∷ key) = bind (get_child child x) (λ c. bind (deletion c key) (λ r.
    let child' = set_child child x r.1 in
    some (
      if is_node c && (r.0 && not leaf)
      then free_or child' (node leaf child')
      else (false, node leaf child'))))
