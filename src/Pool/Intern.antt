-- ===== src/Pool/Intern.antt =====
-- string_pool_use of muggin.c interns strings: every string keeps its id, and has one.
use plmuggin.Base.{
  ℕ, ◌+◌, ◌≤◌, ◌<◌, ◌≡◌, ◌≢◌, refl, sym, ap, ap₂, ◌∙◌, false, inl, inr, none, some, List, [], ◌∷◌,
  ◌++◌, append_assoc, append-nil, arith, ◌==◌, Bytes, length, set, replicate, All, All-append,
  Bool-cases, Option-cases, length-set, length-append, length-replicate, ==_iff,
}
use plmuggin.Pool.Slots.{
  slot, strings, view, filled, Fresh, Distinct, IsPool, find_string, intern, at-slot, lt_of_slot,
  slot-set_self, slot-set_ne, slot-replicate, filled-replicate, filled-set, strings-append,
  strings-set, length-strings, position-append, position-last, Distinct-append, Fresh-find_string,
  find_string-lt,
}
use plmuggin.Pool.Search.{string_pool_lookup-find_string, string_pool_idx-Placed}
use plmuggin.Pool.{
  Pool, capacity, count, move, rehash, next_capacity, string_pool_idx, string_pool_lookup,
  string_pool_use, empty_pool,
}
use plmuggin.Result.{ok, ◌>>=◌, Returns}
use plmuggin.Str.{str_eq}

module _ (p : Pool) (inv : IsPool p) (s : Bytes) (ne : s ≢ []) (fresh : Fresh s (view p)) (i : ℕ)
    (lt : i < capacity p) (free : slot p.slots i ≡ []) where
  abbrev added : Pool
  added = record { slots = set p.slots i s; idx = p.idx ++ i ∷ [] }

  other_slot : (j : ℕ) → slot p.slots j ≢ [] → slot (set p.slots i s) j ≡ slot p.slots j
  other_slot j h = slot-set_ne p.slots i j s (λ e. h (rw (← e) free))

  view-added : view added ≡ view p ++ s ∷ []
  view-added =
      strings-append (set p.slots i s) p.idx (i ∷ [])
      ∙ ap₂ (λ a b. a ++ b ∷ []) (strings-set p.slots p.idx i s free inv.used)
          (slot-set_self p.slots i s lt)

  used_added :
      (idx : List ℕ)
      → All (λ j. slot p.slots j ≢ []) idx
      → All (λ j. slot (set p.slots i s) j ≢ []) idx
  used_added [] u = tt
  used_added (j ∷ idx) (n, u) = ((λ e. n (sym (other_slot j n) ∙ e)), used_added idx u)

  added-IsPool : IsPool added
  added-IsPool = record {
    roomy = omega (arith, length-set p.slots i s, inv.roomy);
    used =
        All-append (λ j. slot (set p.slots i s) j ≢ []) p.idx (i ∷ []) (used_added p.idx inv.used)
          ((λ e. ne (sym (slot-set_self p.slots i s lt) ∙ e)), tt);
    owned = λ j h. elim (Bool-cases (i == j)) [
      | inl same ↦ rw (← (==_iff i j).0 same) (position-last p.idx i)
      | inr other ↦
          let (id, e) = inv.owned j (λ z. h (slot-set_ne p.slots i j s (λ ij. ground arith) ∙ z)) in
          (id, position-append p.idx (i ∷ []) j e)
    ];
    distinct = rw view-added (Distinct-append (view p) s inv.distinct fresh);
    counted =
        omega (arith, filled-set p.slots i s lt free ne, length-append p.idx (i ∷ []), inv.counted);
  }

-- A new string gets the next id, in a pool of the same capacity.
place :
    (p : Pool) (s : Bytes)
    → IsPool p
    → s ≢ []
    → Fresh s (view p)
    → count p < capacity p
    → Returns (string_pool_idx p s) (λ r.
      (r.0 ≡ count p) × IsPool r.1 × (view r.1 ≡ view p ++ s ∷ []) × (capacity r.1 ≡ capacity p))
place p s inv ne fresh room =
    let (i, run, lt, free) = string_pool_idx-Placed p inv s ne fresh room in
    (
      _,
      run,
      (
        refl,
        added-IsPool p inv s ne fresh i lt free,
        view-added p inv s ne fresh i lt free,
        length-set p.slots i s,
      ),
    )

pub count-view : (p : Pool) → count p ≡ length (view p)
count-view p = sym (length-strings p.slots p.idx)

Distinct-middle :
    (xs : List Bytes) (s : Bytes) (ys : List Bytes) → Distinct (xs ++ (s ∷ ys)) → Fresh s xs
Distinct-middle [] s ys d = tt
Distinct-middle (x ∷ xs) s ys (a, d) = (All-middle xs a, Distinct-middle xs s ys d)
  where
    All-middle :
        (zs : List Bytes) → All (λ y. str_eq x y ≡ false) (zs ++ (s ∷ ys)) → str_eq x s ≡ false
    All-middle [] (h, _) = h
    All-middle (z ∷ zs) (_, h) = All-middle zs h

-- Moving strings to a table with room for them adds them in their order.
move_lem :
    (old : List Bytes) (is : List ℕ) (p : Pool)
    → IsPool p
    → All (λ i. slot old i ≢ []) is
    → Distinct (view p ++ strings old is)
    → count p + length is ≤ capacity p
    → Returns
        (move old is p)
        (λ q. IsPool q × (view q ≡ view p ++ strings old is) × (capacity q ≡ capacity p))
unfolding move
move_lem old [] p inv u d room = (p, refl, (inv, sym (append-nil (view p)), refl))
move_lem old (i ∷ is) p inv (n, u) d room =
    let s = slot old i in
    let ((id, p'), run, (here, inv', v, c)) =
      place p s inv n (Distinct-middle (view p) s (strings old is) d) (omega arith) in
    let e : view p' ++ strings old is ≡ view p ++ (s ∷ strings old is) =
      rw v (append_assoc (view p) (s ∷ []) (strings old is)) in
    let counts : count p' ≡ count p + 1 =
      omega (arith, count-view p, count-view p', ap length v, length-append (view p) (s ∷ [])) in
    let (q, run', (inv'', v', c')) = move_lem old is p' inv' u (rw e d) (omega arith) in
    (
      q,
      rw (at-slot old i (lt_of_slot old i n), run, (==_iff id (count p)).1 here) run',
      (inv'', v' ∙ e, c' ∙ c),
    )

empty-IsPool : (n : ℕ) → 2 ≤ n → IsPool (record { slots = replicate n []; idx = [] })
empty-IsPool n h = record {
  roomy = rw length-replicate h;
  used = tt;
  owned = λ i e. absurd (e (slot-replicate n i));
  distinct = tt;
  counted = filled-replicate n;
}

pub filled-le : (slots : List Bytes) → filled slots ≤ length slots
filled-le [] = omega arith
filled-le ([] ∷ slots) = omega (arith, filled-le slots)
filled-le ((c ∷ e) ∷ slots) = omega (arith, filled-le slots)

-- The growth factor makes room for one more string at least.
pub next_capacity-lt : (n : ℕ) → 2 ≤ n → n < next_capacity n
unfolding next_capacity
next_capacity-lt n h = ground arith

-- Rehashing a well-formed table ends normally, keeps its strings and their ids, and makes room.
pub rehash_lem :
    (p : Pool)
    → IsPool p
    → Returns (rehash p) (λ q. IsPool q × (view q ≡ view p) × (count q < capacity q))
unfolding rehash
rehash_lem p inv =
    let n = next_capacity (capacity p) in
    let more = next_capacity-lt (capacity p) inv.roomy in
    let (q, run, (inv', v, c)) =
      move_lem p.slots p.idx (record { slots = replicate n []; idx = [] })
        (empty-IsPool n (omega (arith, inv.roomy))) inv.used inv.distinct
        (omega (arith, length-replicate {0} {A = Bytes} n [], filled-le p.slots, inv.counted)) in
    (
      q,
      run,
      (
        inv',
        v,
        omega (
          arith,
          more,
          count-view q,
          count-view p,
          ap length v,
          length-replicate {0} {A = Bytes} n [],
          filled-le p.slots,
          inv.counted,
        ),
      ),
    )

-- The part of string_pool_use behind the growth of the table.
use_roomy :
    (p : Pool) (s : Bytes)
    → IsPool p
    → s ≢ []
    → count p < capacity p
    → Returns
        (string_pool_lookup p s >>= λ found. elim found [
          | some id ↦ ok (id, p)
          | none ↦ string_pool_idx p s
        ])
        (λ r. IsPool r.1 × ((r.0, view r.1) ≡ intern (view p) s))
use_roomy p s inv ne room =
    let looked = string_pool_lookup-find_string p inv s ne in
    elim (Option-cases (find_string (view p) s)) [
      | inr (id, hit) ↦ ((id, p), rw (looked, hit), (inv, rw (hit, intern)))
      | inl miss ↦
          let (r, run, (here, inv', v, _)) =
            place p s inv ne (Fresh-find_string (view p) s miss) room in
          (
            r,
            rw (looked, miss) run,
            (inv', rw (miss, intern) (ap₂ (λ n xs. (n, xs)) (here ∙ count-view p) v)),
          )
    ]

-- string_pool_use returns, on every well-formed pool and non-empty string, a well-formed pool
-- and an id: the one that interning in the list of the pool's strings gives, with that list.
pub string_pool_use-intern :
    (p : Pool) (s : Bytes)
    → IsPool p
    → s ≢ []
    → Returns (string_pool_use p s) (λ r. IsPool r.1 × ((r.0, view r.1) ≡ intern (view p) s))
unfolding string_pool_use
string_pool_use-intern p s inv ne = elim (Bool-cases (count p == capacity p)) [
  | inl full ↦
      let (q, run, (inv', v, room)) = rehash_lem p inv in
      rw (full, run, ← v) (use_roomy q s inv' ne room)
  | inr roomy ↦ rw roomy (use_roomy p s inv ne (ground (arith, filled-le p.slots, inv.counted)))
]

pub empty_pool-IsPool : IsPool empty_pool
empty_pool-IsPool = empty-IsPool 64 (omega arith)

intern_bounds :
    (xs : List Bytes) (s : Bytes)
    → ((intern xs s).0 < length (intern xs s).1) × (length xs ≤ length (intern xs s).1)
intern_bounds xs s = elim (Option-cases (find_string xs s)) [
  | inr (id, hit) ↦ rw (hit, intern) (find_string-lt xs s hit, omega arith)
  | inl miss ↦
      let grown = length-append xs (s ∷ []) in
      rw (miss, intern) (omega (arith, grown), omega (arith, grown))
]

-- The pool stays well formed, keeps its ids, and the id returned is one of them.
pub string_pool_use_bounds :
    (p : Pool) (s : Bytes)
    → IsPool p
    → s ≢ []
    → Returns (string_pool_use p s) (λ r. IsPool r.1 × (r.0 < count r.1) × (count p ≤ count r.1))
string_pool_use_bounds p s inv ne =
    let (r, run, (inv', e)) = string_pool_use-intern p s inv ne in
    let id = ap (λ (x : ℕ × List Bytes). x.0) e in
    let strings' = ap (λ (x : ℕ × List Bytes). length x.1) e in
    let bounds = intern_bounds (view p) s in
    (
      r,
      run,
      (
        inv',
        omega (arith, id, strings', bounds, count-view r.1),
        omega (arith, strings', bounds, count-view r.1, count-view p),
      ),
    )
