-- ===== src/Pool.antt =====
-- The string pool of muggin.c: an open-addressing table of strings, `slots` (`constants` or
-- `names`), with the slot of each string in the order of its first use, `idx` (`constant_idx` or
-- `name_idx`). The capacity is the length of `slots`, and an empty slot holds the empty string.
-- The count is the length of `idx`: the entries from the count on are never read.
pub mod Slots
pub mod Search
pub mod Intern
pub mod Empty
use plmuggin.Base.{
  ℕ, zero, suc, ◌+◌, ◌*◌, ◌/◌, ◌%◌, Bool, true, false, Option, none, some, List, [], ◌∷◌, ◌++◌, ltb,
  ◌==◌, if◌then◌else◌, Bytes, length, get_elem?, set, replicate,
}
use plmuggin.Result.{
  Result, ok, fail, raised, out_of_bounds, uninitialised, division_by_zero, endless, out_of_fuel,
  ◌>>=◌,
}
use plmuggin.Str.{str_eq, str_hash}
use plmuggin.Strbuf.{golden}

pub record Pool : Type 0 where
  pub slots : List Bytes
  pub idx : List ℕ

abbrev pub capacity : Pool → ℕ
capacity p = length p.slots

abbrev pub count : Pool → ℕ
count p = length p.idx

-- `for(i < count) if(idxs[i] == at) return i`
unfoldable pub position : List ℕ → ℕ → Option ℕ
position [] at = none
position (i ∷ idx) at =
    if i == at then some 0 else elim (position idx at) [ none ↦ none | some id ↦ some (suc id) ]

-- an array read
unfoldable pub at {ℓ} : {A : Type ℓ} → List A → ℕ → Result A
at [] i = fail out_of_bounds
at (x ∷ xs) zero = ok x
at (x ∷ xs) (suc i) = at xs i

-- `str_hash(s) % capacity`
unfoldable pub start : Bytes → List Bytes → Result ℕ
start s [] = fail division_by_zero
start s slots = ok (str_hash s % length slots)

-- The loop of string_pool_idx. After as many rounds as there are slots each has been looked at,
-- and the rounds repeat themselves for ever.
unfoldable pub place_from : ℕ → Pool → Bytes → ℕ → Result (ℕ × Pool)
unfolding position at
place_from zero p s i = fail endless
place_from (suc rounds) p s i =
    let again = place_from rounds p s ((i + 1) % capacity p) in
    do
      e ← at p.slots i
      if str_eq e s
          then elim (position p.idx i) [ some id ↦ ok (id, p) | none ↦ fail raised ]
          else if length e == 0
          then ok (count p, record { slots = set p.slots i s; idx = p.idx ++ i ∷ [] })
          else again

-- string_pool_idx, with the count that the caller passes equal to the length of `idx`
unfoldable pub string_pool_idx : Pool → Bytes → Result (ℕ × Pool)
unfolding start place_from
string_pool_idx p s = do i ← start s p.slots; place_from (capacity p) p s i

-- The `do … while(idx != start_idx)` of string_pool_lookup, whose fuel is the capacity.
unfoldable pub lookup_from : ℕ → Pool → Bytes → ℕ → ℕ → Result (Option ℕ)
unfolding position at
lookup_from zero p s first i = fail out_of_fuel
lookup_from (suc rounds) p s first i =
    let next = (i + 1) % capacity p in
    let rest = lookup_from rounds p s first next in
    do
      e ← at p.slots i
      if str_eq e s
          then elim (position p.idx i) [ some id ↦ ok (some id) | none ↦ fail raised ]
          else if next == first
          then ok none
          else rest

-- string_pool_lookup: the id of `s`, or `none` where *found is false
unfoldable pub string_pool_lookup : Pool → Bytes → Result (Option ℕ)
unfolding start lookup_from
string_pool_lookup p s = do i ← start s p.slots; lookup_from (capacity p) p s i i

-- The loop of string_pool_use that moves the strings of the old table to the new one, in the order
-- of their ids. Where a string does not get the id that it had, its entry of the new `idx` stays
-- unwritten.
unfoldable pub move : List Bytes → List ℕ → Pool → Result Pool
unfolding at string_pool_idx
move old [] p = ok p
move old (i ∷ is) p = do
  s ← at old i
  (id, p') ← string_pool_idx p s
  let rest = move old is p'
  if id == count p then rest else fail uninitialised

unfoldable pub next_capacity : ℕ → ℕ
next_capacity n = if n == 0 then 64 else golden n

unfoldable pub rehash : Pool → Result Pool
unfolding move next_capacity
rehash p =
    move p.slots p.idx (record { slots = replicate (next_capacity (capacity p)) []; idx = [] })

-- string_pool_use: the id of `s`, which is added if it is new
unfoldable pub string_pool_use : Pool → Bytes → Result (ℕ × Pool)
unfolding rehash string_pool_lookup string_pool_idx
string_pool_use p s = do
  p' ← if count p == capacity p then rehash p else ok p
  found ← string_pool_lookup p' s
  elim found [ some id ↦ ok (id, p') | none ↦ string_pool_idx p' s ]

-- the pools that muggin_parse begins with
abbrev pub empty_pool : Pool
empty_pool = record { slots = replicate 64 []; idx = [] }
