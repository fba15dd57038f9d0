-- ===== src/Pool/Search.antt =====
-- The two searches of the string pool of muggin.c end, and find what they are to find.
use plmuggin.Base.{
  ℕ, zero, suc, ◌+◌, ◌-◌, ◌%◌, ◌<◌, ◌≡◌, ◌≢◌, refl, ap, true, false, ◌⊎◌, inl, inr, List, [], ◌∷◌,
  ◌++◌, arith, ltb, ◌==◌, if◌then◌else◌, Bytes, length, set, All, Bool-cases, leb, ==_iff,
}
use plmuggin.Pool.Slots.{
  slot, strings, view, filled, Fresh, IsPool, find_string, at-slot, lt_of_slot, free_slot,
  All-strings, find_string-Fresh, find_string-position,
}
use plmuggin.Pool.{
  Pool, capacity, count, start, place_from, string_pool_idx, lookup_from, string_pool_lookup,
}
use plmuggin.Result.{Result, ok}
use plmuggin.Str.Equality.{length_of_str_eq}
use plmuggin.Str.{str_eq, str_hash}

-- The place that lies `n` steps from the start of a table of `c` slots, for `n` below `2 * c`.
abbrev pub wrap : ℕ → ℕ → ℕ
wrap n c = if ltb n c then n else n - c

pub mod_wrap : (n c : ℕ) → n < c → (n + 1) % c ≡ wrap (n + 1) c
mod_wrap n c h = elim (Bool-cases (ltb (n + 1) c)) [
  | inl b ↦ rw b (grind arith)
  | inr b ↦ let e : n + 1 ≡ c = ground arith in rw (b, e) (grind arith)
]

ne-nil_of_str_eq : (e s : Bytes) → s ≢ [] → str_eq e s ≡ true → e ≢ []
ne-nil_of_str_eq e [] n h = absurd (n refl)
ne-nil_of_str_eq [] (c ∷ s) n h = absurd (omega (arith, length_of_str_eq [] (c ∷ s) h))
ne-nil_of_str_eq (d ∷ e) (c ∷ s) n h = cc

pub str_eq_nil : (s : Bytes) → s ≢ [] → str_eq [] s ≡ false
unfolding str_eq
str_eq_nil [] n = absurd (n refl)
str_eq_nil (c ∷ s) n = ground arith

-- No slot of the table holds the string.
abbrev pub Absent : Bytes → List Bytes → Type 0
Absent s slots = (i : ℕ) → i < length slots → str_eq (slot slots i) s ≡ false

Absent-Fresh :
    (s : Bytes) (slots : List Bytes) (idx : List ℕ)
    → Absent s slots
    → All (λ i. slot slots i ≢ []) idx
    → Fresh s (strings slots idx)
Absent-Fresh s slots [] a u = tt
Absent-Fresh s slots (i ∷ idx) a (n, u) = (a i (lt_of_slot slots i n), Absent-Fresh s slots idx a u)

-- What string_pool_idx makes of a new string: it goes to an empty slot, under the next id.
abbrev pub Placed : Pool → Bytes → Result (ℕ × Pool) → Type 0
Placed p s r =
    (i : ℕ) × (r ≡ ok (count p, record { slots = set p.slots i s; idx = p.idx ++ i ∷ [] }))
    × (i < capacity p)
    × (slot p.slots i ≡ [])

pub nil_cases : (e : Bytes) → (e ≡ []) ⊎ (((length e == 0) ≡ false) × (e ≢ []))
nil_cases [] = inl refl
nil_cases (c ∷ e) = inr (ground arith, ground arith)

module _ (p : Pool) (first : ℕ) (inside : first < capacity p) where
  -- The slots that `d` rounds from `first` have looked at hold strings.
  abbrev pub Taken : ℕ → Type 0
  Taken d = (k : ℕ) → k < d → slot p.slots (wrap (first + k) (capacity p)) ≢ []

  pub Taken-suc :
      (d i : ℕ) → i ≡ wrap (first + d) (capacity p) → Taken d → slot p.slots i ≢ [] → Taken (suc d)
  Taken-suc d i e taken full k lt = elim (Bool-cases (k == d)) [
    | inl same ↦ rw ((==_iff k d).0 same) (rw e at full)
    | inr other ↦ taken k (ground arith)
  ]

  pub not-Taken : filled p.slots < capacity p → ¬ Taken (capacity p)
  not-Taken room taken =
      let c = capacity p in
      let (i, lt, free) = free_slot p.slots room in
      let k : ℕ = if leb first i then i - first else i + c - first in
      let e : wrap (first + k) c ≡ i = ground arith in taken k (ground arith) (rw e free)

module _ (p : Pool) (inv : IsPool p) (s : Bytes) (ne : s ≢ []) (first : ℕ)
    (inside : first < capacity p) where
  -- The slots that `d` rounds from `first` have looked at differ from `s`.
  abbrev Seen : ℕ → Type 0
  Seen d = (k : ℕ) → k < d → str_eq (slot p.slots (wrap (first + k) (capacity p))) s ≡ false

  Seen-Absent : Seen (capacity p) → Absent s p.slots
  Seen-Absent seen i lt =
      let c = capacity p in
      let k : ℕ = if leb first i then i - first else i + c - first in
      let e : wrap (first + k) c ≡ i = ground arith in rw e at (seen k (ground arith))

  Seen-suc :
      (d i : ℕ)
      → i ≡ wrap (first + d) (capacity p)
      → Seen d
      → str_eq (slot p.slots i) s ≡ false
      → Seen (suc d)
  Seen-suc d i e seen differs k lt = elim (Bool-cases (k == d)) [
    | inl same ↦ rw ((==_iff k d).0 same) (rw e at differs)
    | inr other ↦ seen k (ground arith)
  ]

  lookup_from-find_string :
      (rounds d i : ℕ)
      → 0 < rounds
      → d + rounds ≡ capacity p
      → i ≡ wrap (first + d) (capacity p)
      → Seen d
      → lookup_from rounds p s first i ≡ ok (find_string (view p) s)
  unfolding lookup_from
  lookup_from-find_string zero d i pos sum here seen = absurd (omega arith)
  lookup_from-find_string (suc rounds) d i pos sum here seen =
      let lt : i < capacity p = ground arith in
      let next : (i + 1) % capacity p ≡ wrap (i + 1) (capacity p) = mod_wrap i (capacity p) lt in
      elim (Bool-cases (str_eq (slot p.slots i) s)) [
        | inl hit ↦
            let (id, e) = inv.owned i (ne-nil_of_str_eq _ s ne hit) in
            rw (
              at-slot p.slots i lt,
              hit,
              e,
              find_string-position p.slots p.idx i s inv.distinct hit e,
            )
        | inr miss ↦
            let seen' : Seen (suc d) = Seen-suc d i here seen miss in
            elim (Bool-cases (wrap (i + 1) (capacity p) == first)) [
              | inl last ↦
                  let all : suc d ≡ capacity p = ground arith in
                  let absent = Seen-Absent (λ k h. seen' k (rw all h)) in
                  rw (
                    at-slot p.slots i lt,
                    miss,
                    next,
                    last,
                    find_string-Fresh (view p) s (Absent-Fresh s p.slots p.idx absent inv.used),
                  )
              | inr more ↦
                  rw (at-slot p.slots i lt, miss, next, more)
                    (lookup_from-find_string rounds (suc d) (wrap (i + 1) (capacity p))
                      (ground arith) (omega arith) (ground arith) seen')
            ]
      ]

  place_from-Placed :
      (rounds d i : ℕ)
      → d + rounds ≡ capacity p
      → i ≡ wrap (first + d) (capacity p)
      → Taken p first inside d
      → Absent s p.slots
      → filled p.slots < capacity p
      → Placed p s (place_from rounds p s i)
  unfolding place_from
  place_from-Placed zero d i sum here taken absent room =
      let all : d ≡ capacity p = omega arith in
      absurd (not-Taken p first inside room (λ k h. taken k (rw all h)))
  place_from-Placed (suc rounds) d i sum here taken absent room =
      let lt : i < capacity p = ground arith in
      let next : (i + 1) % capacity p ≡ wrap (i + 1) (capacity p) = mod_wrap i (capacity p) lt in
      elim (nil_cases (slot p.slots i)) [
        | inl free ↦ (i, rw (at-slot p.slots i lt, absent i lt, ap length free), lt, free)
        | inr full ↦
            let (i', run, inside', free) =
              place_from-Placed rounds (suc d) (wrap (i + 1) (capacity p)) (omega arith)
                (ground arith) (Taken-suc p first inside d i here taken full.1) absent room in
            (i', rw (at-slot p.slots i lt, absent i lt, full.0, next) run, inside', free)
      ]

pub start-hash :
    (s : Bytes) (slots : List Bytes)
    → 0 < length slots
    → start s slots ≡ ok (str_hash s % length slots)
unfolding start
start-hash s [] h = absurd (omega arith)
start-hash s (e ∷ slots) h = refl

module _ (p : Pool) (inv : IsPool p) (s : Bytes) (ne : s ≢ []) where
  first_slot : str_hash s % capacity p < capacity p
  first_slot = let h : 0 < capacity p = omega (arith, inv.roomy) in grind arith

  -- A string that is not in the list of the pool is in no slot.
  Fresh-Absent : Fresh s (view p) → Absent s p.slots
  Fresh-Absent fresh i lt = elim (nil_cases (slot p.slots i)) [
    | inl free ↦ rw free (str_eq_nil s ne)
    | inr full ↦
        let (id, e) = inv.owned i full.1 in
        All-strings (λ x. str_eq x s ≡ false) p.slots p.idx i e fresh
  ]

  -- string_pool_lookup ends on every well-formed pool and non-empty string, and gives the id that a
  -- linear search finds in the list of the pool's strings.
  pub string_pool_lookup-find_string : string_pool_lookup p s ≡ ok (find_string (view p) s)
  unfolding string_pool_lookup
  string_pool_lookup-find_string =
      let h : 0 < capacity p = omega (arith, inv.roomy) in
      rw (start-hash s p.slots h) (
        lookup_from-find_string p inv s ne (str_hash s % capacity p) first_slot (capacity p) 0
          (str_hash s % capacity p) h (omega arith) (ground (arith, first_slot))
          (λ k lt. elim lt [ ]))

  pub string_pool_idx-Placed :
      Fresh s (view p) → count p < capacity p → Placed p s (string_pool_idx p s)
  unfolding string_pool_idx
  string_pool_idx-Placed fresh room =
      let h : 0 < capacity p = omega (arith, inv.roomy) in
      rw (start-hash s p.slots h) (
        place_from-Placed p inv s ne (str_hash s % capacity p) first_slot (capacity p) 0
          (str_hash s % capacity p) (omega arith) (ground (arith, first_slot)) (λ k lt. elim lt [ ])
          (Fresh-Absent fresh) (rw inv.counted room))
