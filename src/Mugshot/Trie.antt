-- ===== src/Mugshot/Trie.antt =====
-- The search of mugshot/mugshot.c in a trie. The arrays of children are a store from addresses to lists;
-- insertion, which writes to it, is not modelled.
pub mod Bisection
use plmuggin.Base.{
  ℕ, zero, suc, ◌+◌, ◌-◌, ◌/◌, ◌%◌, Bool, true, false, Option, none, some, List, [], ◌∷◌, ltb, ◌==◌,
  if◌then◌else◌, Bytes, length, get_elem?,
}
use plmuggin.Result.{Result, ok, fail, out_of_bounds, out_of_fuel, ◌>>=◌}

-- mugshot_trie, less the capacity and the data
pub record TrieNode : Type 0 where
  pub ch : ℕ
  pub leaf : Bool
  pub children : ℕ

-- the place of a `char` in the order of the ints that it stands for: a char is signed
abbrev pub rank : ℕ → ℕ
rank c = (c + 128) % 256

-- the `while` loop of _trie_find_child for the places from `l` to before `r`, the `r + 1` of the code
unfoldable pub bisect : ℕ → ℕ → ℕ → List TrieNode → ℕ → Result (Option TrieNode)
bisect zero l r nodes ch = fail out_of_fuel
bisect (suc fuel) l r nodes ch =
    let i = l + (r - 1 - l) / 2 in
    let right = bisect fuel (i + 1) r nodes ch in
    let left = bisect fuel l i nodes ch in
    if ltb l r
    then elim (get_elem? nodes i) [
      | none ↦ fail out_of_bounds
      | some t ↦
          if rank t.ch == rank ch
          then ok (some t)
          else if ltb (rank t.ch) (rank ch)
          then right
          else left
    ]
    else ok none

-- _trie_find_child, with `none` for NULL
unfoldable pub trie_find_child : List TrieNode → ℕ → Result (Option TrieNode)
unfolding bisect
trie_find_child [] ch = ok none
trie_find_child (t ∷ []) ch = if t.ch == ch then ok (some t) else ok none
trie_find_child (t ∷ u ∷ nodes) ch =
    bisect (suc (length (t ∷ u ∷ nodes))) 0 (length (t ∷ u ∷ nodes)) (t ∷ u ∷ nodes) ch

-- _trie_insert where `arena` is NULL: the node of the word, if there is one
unfoldable pub trie_lookup : (ℕ → List TrieNode) → TrieNode → Bytes → Result (Option TrieNode)
trie_lookup store at [] = ok (some at)
trie_lookup store at (ch ∷ word) = trie_find_child (store at.children) ch >>= λ found. elim found [
  | none ↦ ok none
  | some t ↦ trie_lookup store t word
]
