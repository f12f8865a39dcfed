-- ===== src/Tests/Tries.antt =====
-- Domain rules in the trie.
use ae_proxy.Base.{
  ℕ, ◌≡◌, ◌⊎◌, ◌↔◌, refl, ◌∙◌, Bool, true, false, not, ◌&&◌, ◌||◌, List, [], ◌∷◌, some, none,
  if◌then◌else◌, arith,
}
use mathlib.Core.Option.{bind}
use ae_proxy.Trie.{Trie, null, is_node, new_trie, insert, search, deletion, have_children}
use ae_proxy.Trie.InRange.{IsAsciiKey, inserted}
use ae_proxy.Trie.Lookup.{contains, same_key, contains-new_trie, contains-inserted, contains-insert}
use ae_proxy.Trie.Shape.{IsAscii, IsPruned, inserted-IsAscii, inserted-IsPruned}
use ae_proxy.Trie.Deletion.{contains-deletion}
use ae_proxy.Trie.Freeing.{deletion-IsPruned, deletion_last}
use ae_proxy.Trie.Search.{MeetsWildcard, search_iff, wildcard-insert}

abbrev rule : List ℕ
rule = b'm' ∷ b'.' ∷ b'*' ∷ []

abbrev ruled : Trie
ruled = inserted new_trie rule

abbrev host : List ℕ
host = b'm' ∷ b'.' ∷ b'a' ∷ b'b' ∷ []

abbrev longer : List ℕ
longer = b'm' ∷ b'.' ∷ b'a' ∷ b'c' ∷ []

-- A key with a byte that is no index of the arrays.
abbrev outside : List ℕ
outside = b'm' ∷ 195 ∷ []

new_trie-insert : insert new_trie rule ≡ some ruled
unfolding insert inserted bind
new_trie-insert = refl

outside-insert : insert new_trie outside ≡ none
unfolding insert bind
outside-insert = refl

outside-search : search ruled outside ≡ none
unfolding search inserted bind
outside-search = refl

ruled-search : search ruled host ≡ some true
unfolding search inserted bind
ruled-search = refl

deletion_run : deletion ruled rule ≡ some (true, null)
unfolding deletion inserted have_children bind
deletion_run = refl

new_trie-IsAscii : IsAscii new_trie
new_trie-IsAscii = (λ i h. refl, λ i. tt)

ruled-IsAscii : IsAscii ruled
ruled-IsAscii = inserted-IsAscii new_trie rule (omega arith) new_trie-IsAscii

ruled-IsPruned : IsPruned ruled
ruled-IsPruned = inserted-IsPruned new_trie rule refl (omega arith) (λ i. tt)

rule-IsAsciiKey : IsAsciiKey rule
rule-IsAsciiKey = omega arith

host-IsAsciiKey : IsAsciiKey host
host-IsAsciiKey = omega arith

contains-insert_example :
    (IsAsciiKey rule
      × ((t : Trie) × (insert new_trie rule ≡ some t)
          × ((j : List ℕ) → contains t j ≡ (same_key j rule || contains new_trie j))))
    ⊎ ((¬ IsAsciiKey rule) × (insert new_trie rule ≡ none))
contains-insert_example = contains-insert new_trie rule refl

contains-deletion_example :
    (reported : Bool) × (t : Trie) × (deletion ruled rule ≡ some (reported, t))
    × ((j : List ℕ) → contains t j ≡ (if same_key j rule then false else contains ruled j))
contains-deletion_example = contains-deletion ruled rule ruled-IsAscii rule-IsAsciiKey

deletion-IsPruned_example :
    (reported : Bool) × (t : Trie) × (deletion ruled rule ≡ some (reported, t))
    × IsPruned t
    × (reported ≡ (is_node ruled && not (is_node t)))
deletion-IsPruned_example = deletion-IsPruned ruled rule rule-IsAsciiKey ruled-IsPruned

search_iff_example :
    (found : Bool) × (search ruled host ≡ some found)
    × ((found ≡ true) ↔ ((contains ruled host ≡ true) ⊎ MeetsWildcard ruled host))
search_iff_example = search_iff ruled host host-IsAsciiKey

longer-IsAsciiKey : IsAsciiKey longer
longer-IsAsciiKey = omega arith

-- The rule for all hosts of a domain misses one of them after the insertion of another.
wildcard-insert_example :
    (search ruled host ≡ some true)
    × ((t : Trie) × (insert ruled longer ≡ some t) × (search t host ≡ some false))
unfolding inserted
wildcard-insert_example =
    wildcard-insert ruled (b'm' ∷ b'.' ∷ []) b'a' b'b' b'c' longer-IsAsciiKey host-IsAsciiKey refl
      refl (λ e. omega (arith, e)) (λ e. omega (arith, e))

only_rule : (j : List ℕ) → contains ruled j ≡ same_key j rule
only_rule j = contains-inserted new_trie rule j refl ∙ ground (arith, contains-new_trie j)

deletion_last_example : deletion ruled rule ≡ some (true, null)
unfolding inserted
deletion_last_example =
    deletion_last ruled rule rule-IsAsciiKey ruled-IsAscii ruled-IsPruned refl only_rule
