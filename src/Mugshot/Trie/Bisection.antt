-- ===== src/Mugshot/Trie/Bisection.antt =====
-- The bisection of _trie_find_child of mugshot/mugshot.c finds what a linear search finds.
use plmuggin.Base.{
  ℕ, zero, suc, ◌+◌, ◌-◌, ◌/◌, ◌≤◌, ◌<◌, ◌≡◌, ◌≢◌, refl, sym, ap, ◌∙◌, true, false, Option, none,
  some, List, [], ◌∷◌, arith, ltb, ◌==◌, ==_iff, if◌then◌else◌, Bytes, length, get_elem?,
  get_elem?-lt, lt_of_get_elem?, Bool-cases, Option-cases, All, inl, inr,
}
use plmuggin.Mugshot.Trie.{TrieNode, rank, bisect, trie_find_child, trie_lookup}
use plmuggin.Result.{ok}

-- The first node with the character, in the order of the nodes.
abbrev pub find_linear : List TrieNode → ℕ → Option TrieNode
find_linear [] ch = none
find_linear (t ∷ nodes) ch = if t.ch == ch then some t else find_linear nodes ch

-- The characters are bytes, and grow as mugshot_trie_node_compare orders them.
pub record IsSorted (nodes : List TrieNode) : Type 0 where
  pub bytes : (i : ℕ) (t : TrieNode) → get_elem? nodes i ≡ some t → t.ch < 256
  pub grow :
      (i j : ℕ) (t u : TrieNode)
      → i < j
      → get_elem? nodes i ≡ some t
      → get_elem? nodes j ≡ some u
      → rank t.ch < rank u.ch

find_linear-some :
    (nodes : List TrieNode) (ch i : ℕ) (t : TrieNode)
    → get_elem? nodes i ≡ some t
    → t.ch ≡ ch
    → ((j : ℕ) (u : TrieNode) → j < i → get_elem? nodes j ≡ some u → u.ch ≢ ch)
    → find_linear nodes ch ≡ some t
find_linear-some [] ch i t h e before = cc
find_linear-some (x ∷ nodes) ch zero t h e before =
    let same : x ≡ t = cc in
    let hit : (x.ch == ch) ≡ true = (==_iff x.ch ch).1 (ap (λ n. n.ch) same ∙ e) in
    rw hit (ap some same)
find_linear-some (x ∷ nodes) ch (suc i) t h e before =
    let ne = before 0 x (omega arith) refl in
    let miss : (x.ch == ch) ≡ false = ground (arith, ne) in
    rw miss (find_linear-some nodes ch i t h e (λ j u lt g. before (suc j) u (omega arith) g))

find_linear-none :
    (nodes : List TrieNode) (ch : ℕ)
    → ((j : ℕ) (u : TrieNode) → get_elem? nodes j ≡ some u → u.ch ≢ ch)
    → find_linear nodes ch ≡ none
find_linear-none [] ch absent = refl
find_linear-none (x ∷ nodes) ch absent =
    let ne = absent 0 x refl in
    let miss : (x.ch == ch) ≡ false = ground (arith, ne) in
    rw miss (find_linear-none nodes ch (λ j u g. absent (suc j) u g))

same_rank :
    (nodes : List TrieNode) (i j : ℕ) (t u : TrieNode)
    → get_elem? nodes i ≡ some t
    → get_elem? nodes j ≡ some u
    → i ≡ j
    → rank t.ch ≡ rank u.ch
same_rank nodes i j t u at g e = let same : t ≡ u = cc in ap (λ n. rank n.ch) same

rank_up_to :
    (nodes : List TrieNode) (i : ℕ) (t : TrieNode) (k : ℕ)
    → IsSorted nodes
    → get_elem? nodes i ≡ some t
    → rank t.ch < k
    → (j : ℕ) (u : TrieNode) → j < i + 1
    → get_elem? nodes j ≡ some u
    → rank u.ch < k
rank_up_to nodes i t k sorted at lower j u lt g = elim (Bool-cases (ltb j i)) [
  | inl before ↦ let b : j < i = ground arith in omega (arith, sorted.grow j i u t b g at)
  | inr here ↦ let e : i ≡ j = ground arith in omega (arith, same_rank nodes i j t u at g e)
]

rank_from :
    (nodes : List TrieNode) (i : ℕ) (t : TrieNode) (k : ℕ)
    → IsSorted nodes
    → get_elem? nodes i ≡ some t
    → k < rank t.ch
    → (j : ℕ) (u : TrieNode) → i ≤ j
    → get_elem? nodes j ≡ some u
    → k < rank u.ch
rank_from nodes i t k sorted at upper j u le g = elim (Bool-cases (ltb i j)) [
  | inl behind ↦ let b : i < j = ground arith in omega (arith, sorted.grow i j t u b at g)
  | inr here ↦ let e : i ≡ j = ground arith in omega (arith, same_rank nodes i j t u at g e)
]

bisect-find_linear :
    (fuel l r : ℕ) (nodes : List TrieNode) (ch : ℕ)
    → IsSorted nodes
    → ch < 256
    → r - l < fuel
    → r ≤ length nodes
    → ((j : ℕ) (u : TrieNode) → j < l → get_elem? nodes j ≡ some u → rank u.ch < rank ch)
    → ((j : ℕ) (u : TrieNode) → r ≤ j → get_elem? nodes j ≡ some u → rank ch < rank u.ch)
    → bisect fuel l r nodes ch ≡ ok (find_linear nodes ch)
unfolding bisect
bisect-find_linear zero l r nodes ch sorted byte lt le below above = absurd (omega arith)
bisect-find_linear (suc fuel) l r nodes ch sorted byte lt le below above =
    let i = l + (r - 1 - l) / 2 in
    elim (Bool-cases (ltb l r)) [
      | inr empty ↦
          let absent : (j : ℕ) (u : TrieNode) → get_elem? nodes j ≡ some u → u.ch ≢ ch = λ j u g e.
            elim (Bool-cases (ltb j l)) [
              | inl lo ↦ omega (arith, below j u (ground arith) g, ap rank e)
              | inr hi ↦ omega (arith, above j u (ground arith) g, ap rank e)
            ] in
          rw (bisect, empty) (ap ok (sym (find_linear-none nodes ch absent)))
      | inl some_left ↦
          let inside : l < r = ground arith in
          let (t, at) = get_elem?-lt nodes i (omega arith) in
          let small = sorted.bytes i t at in
          elim (Bool-cases (rank t.ch == rank ch)) [
            | inl hit ↦
                let e : rank t.ch ≡ rank ch = (==_iff (rank t.ch) (rank ch)).0 hit in
                let same : t.ch ≡ ch = omega arith in
                rw (bisect, some_left, at, hit)
                  (ap ok (
                    sym (
                      find_linear-some nodes ch i t at same
                        (λ j u b g f. omega (arith, sorted.grow j i u t b g at, ap rank f)))))
            | inr miss ↦ elim (Bool-cases (ltb (rank t.ch) (rank ch))) [
              | inl less ↦
                  let lower : rank t.ch < rank ch = ground arith in
                  rw (bisect, some_left, at, miss, less)
                    (bisect-find_linear fuel (i + 1) r nodes ch sorted byte (omega arith) le
                      (rank_up_to nodes i t (rank ch) sorted at lower) above)
              | inr more ↦
                  let upper : rank ch < rank t.ch = ground arith in
                  rw (bisect, some_left, at, miss, more)
                    (bisect-find_linear fuel l i nodes ch sorted byte (omega arith) (omega arith)
                      below (rank_from nodes i t (rank ch) sorted at upper))
            ]
          ]
    ]

-- In children that are sorted, _trie_find_child ends and finds what the linear search finds.
pub trie_find_child-find_linear :
    (nodes : List TrieNode) (ch : ℕ)
    → IsSorted nodes
    → ch < 256
    → trie_find_child nodes ch ≡ ok (find_linear nodes ch)
unfolding trie_find_child
trie_find_child-find_linear [] ch sorted byte = refl
trie_find_child-find_linear (t ∷ []) ch sorted byte = elim (Bool-cases (t.ch == ch)) [
  | inl e ↦ rw e refl
  | inr e ↦ rw e refl
]
trie_find_child-find_linear (t ∷ u ∷ nodes) ch sorted byte =
    bisect-find_linear (suc (length (t ∷ u ∷ nodes))) 0 (length (t ∷ u ∷ nodes)) (t ∷ u ∷ nodes) ch
      sorted byte (omega arith) (omega arith) (λ j u lt g. absurd (omega arith))
      (λ j u le g. absurd (omega (arith, lt_of_get_elem? (t ∷ _ ∷ nodes) j g)))

-- The walk of a word, with the linear search.
abbrev pub walk : (ℕ → List TrieNode) → TrieNode → Bytes → Option TrieNode
walk store at [] = some at
walk store at (ch ∷ word) = elim (find_linear (store at.children) ch) [
  | none ↦ none
  | some t ↦ walk store t word
]

-- Over a store in which all children are sorted, the search for a word of bytes follows them one by one.
pub trie_lookup-walk :
    (store : ℕ → List TrieNode) (at : TrieNode) (word : Bytes)
    → ((a : ℕ) → IsSorted (store a))
    → All (λ c. c < 256) word
    → trie_lookup store at word ≡ ok (walk store at word)
unfolding trie_lookup
trie_lookup-walk store at [] sorted bytes = refl
trie_lookup-walk store at (ch ∷ word) sorted (byte, bytes) =
    elim (Option-cases (find_linear (store at.children) ch)) [
      | inl n ↦
          rw (trie_find_child-find_linear (store at.children) ch (sorted at.children) byte, walk, n)
            refl
      | inr (t, e) ↦
          rw (trie_find_child-find_linear (store at.children) ch (sorted at.children) byte, walk, e)
            (trie_lookup-walk store t word sorted bytes)
    ]
