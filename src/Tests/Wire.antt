-- ===== src/Tests/Wire.antt =====
-- Runs of the search in a trie and of the reading of rows, and their theorems applied to them.
use plmuggin.Base.{
  ℕ, zero, suc, ◌≡◌, ◌<◌, refl, ap, true, false, [], ◌∷◌, ◌++◌, Option, none, some, List, Bytes,
  codes, arith, get_elem?, replicate,
}
use plmuggin.Mugshot.Trie.{TrieNode, trie_find_child, trie_lookup, rank}
use plmuggin.Mugshot.Trie.Bisection.{IsSorted, trie_find_child-find_linear, trie_lookup-walk}
use plmuggin.Pgwire.Row.{row_bytes, Shows, pg_value-row}
use plmuggin.Pgwire.Value.{PgVal, pg_value}
use plmuggin.Mugshot.Endpoint.{mugshot_read_endpoint}
use plmuggin.Mugshot.Http.{patch, text_html}
use plmuggin.Pgwire.{htonl, Conn}
use plmuggin.Result.{ok, Returns}

abbrev leaf_node : ℕ → ℕ → TrieNode
leaf_node ch children = record { ch = ch; leaf = true; children = children }

abbrev nodes : List TrieNode
nodes = leaf_node b'a' 0 ∷ leaf_node b'm' 1 ∷ leaf_node b't' 0 ∷ []

nodes-IsSorted : IsSorted nodes
nodes-IsSorted = record { bytes = bytes; grow = grow }
  where
    bytes : (i : ℕ) (t : TrieNode) → get_elem? nodes i ≡ some t → t.ch < 256
    bytes zero t h = let x : leaf_node b'a' 0 ≡ t = cc in omega (arith, ap (λ n. n.ch) x)
    bytes (suc zero) t h = let x : leaf_node b'm' 1 ≡ t = cc in omega (arith, ap (λ n. n.ch) x)
    bytes (suc (suc zero)) t h =
        let x : leaf_node b't' 0 ≡ t = cc in omega (arith, ap (λ n. n.ch) x)
    bytes (suc (suc (suc i))) t h = cc

    grow :
        (i j : ℕ) (t u : TrieNode)
        → i < j
        → get_elem? nodes i ≡ some t
        → get_elem? nodes j ≡ some u
        → rank t.ch < rank u.ch
    grow i zero t u lt h k = absurd (omega arith)
    grow zero (suc zero) t u lt h k =
        let x : leaf_node b'a' 0 ≡ t = cc in
        let y : leaf_node b'm' 1 ≡ u = cc in
        omega (arith, ap (λ n. rank n.ch) x, ap (λ n. rank n.ch) y)
    grow zero (suc (suc zero)) t u lt h k =
        let x : leaf_node b'a' 0 ≡ t = cc in
        let y : leaf_node b't' 0 ≡ u = cc in
        omega (arith, ap (λ n. rank n.ch) x, ap (λ n. rank n.ch) y)
    grow (suc zero) (suc (suc zero)) t u lt h k =
        let x : leaf_node b'm' 1 ≡ t = cc in
        let y : leaf_node b't' 0 ≡ u = cc in
        omega (arith, ap (λ n. rank n.ch) x, ap (λ n. rank n.ch) y)
    grow (suc zero) (suc zero) t u lt h k = absurd (omega arith)
    grow (suc (suc i)) (suc zero) t u lt h k = absurd (omega arith)
    grow (suc (suc i)) (suc (suc zero)) t u lt h k = absurd (omega arith)
    grow i (suc (suc (suc j))) t u lt h k = cc

abbrev store : ℕ → List TrieNode
store zero = nodes
store (suc a) = []

store-IsSorted : (a : ℕ) → IsSorted (store a)
store-IsSorted zero = nodes-IsSorted
store-IsSorted (suc a) = record { bytes = λ i t h. cc; grow = λ i j t u lt h k. cc }

trie_find_child-find_linear_example : trie_find_child nodes b't' ≡ ok (some (leaf_node b't' 0))
trie_find_child-find_linear_example =
    trie_find_child-find_linear nodes b't' nodes-IsSorted (omega arith)

trie_lookup-walk_example :
    trie_lookup store (leaf_node 0 0) (codes "ta") ≡ ok (some (leaf_node b'a' 0))
trie_lookup-walk_example =
    trie_lookup-walk store (leaf_node 0 0) (codes "ta") store-IsSorted
      ((omega arith), ((omega arith), tt))

abbrev fields : List (Option Bytes)
fields = some (codes "7") ∷ none ∷ some (codes "text") ∷ []

pg_value-row_example :
    Returns (pg_value (codes "D" ++ (row_bytes fields ++ codes "C")) (some 1) 2) (λ o.
      (v : PgVal) × (o ≡ some v)
      × Shows (codes "D" ++ (row_bytes fields ++ codes "C")) (some (codes "text")) v)
pg_value-row_example =
    pg_value-row (codes "D") fields (codes "C") 2 (some (codes "text")) refl (omega arith)
      (omega arith)

abbrev array_header : Bytes
array_header = replicate 20 0

-- a function with the arguments `id` and `title`
abbrev endpoint_row : Bytes
endpoint_row = row_bytes (
    some (htonl 2)
    ∷ some (array_header ++ (htonl 4 ++ (htonl 23 ++ (htonl 4 ++ htonl 25))))
    ∷ some (array_header ++ (htonl 2 ++ (codes "id" ++ (htonl 5 ++ codes "title"))))
    ∷ some (codes "text/html")
    ∷ some (codes "PATCH/todos/:id")
    ∷ some (codes "rename")
    ∷ [])

read_rename :
    mugshot_read_endpoint (codes "api") endpoint_row (some 0)
    ≡ ok (
        some (record {
          method = patch;
          name = codes "rename";
          schema = codes "api";
          path = codes "/todos/:id";
          content_type = text_html;
          args =
              record { name = codes "id"; oid = 23; path = true }
              ∷ record { name = codes "title"; oid = 25; path = false }
              ∷ [];
        }))
unfolding mugshot_read_endpoint
read_rename = refl

abbrev wire_conn : Conn
wire_conn = record { buf_size = 4096; text = [] }
