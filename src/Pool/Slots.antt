-- ===== src/Pool/Slots.antt =====
-- When a string pool of muggin.c is well formed, and the list of strings that it stands for.
use plmuggin.Base.{
  ℕ, zero, suc, ◌≤◌, ◌<◌, ◌≡◌, ◌≢◌, refl, ap, ap₂, true, false, inl, inr, Option, none, some, List,
  [], ◌∷◌, ◌++◌, arith, ◌==◌, if◌then◌else◌, Bytes, length, set, replicate, All, All-append,
  Bool-cases, Option-cases, ==_iff, subst,
}
use plmuggin.Pool.{Pool, capacity, count, position, at}
use plmuggin.Result.{ok}
use plmuggin.Str.Equality.{str_eq_symm, str_eq_trans}
use plmuggin.Str.{str_eq}

-- The string in a slot; empty for an empty slot, and out of range.
abbrev pub slot : List Bytes → ℕ → Bytes
slot [] i = []
slot (e ∷ slots) zero = e
slot (e ∷ slots) (suc i) = slot slots i

abbrev pub strings : List Bytes → List ℕ → List Bytes
strings slots [] = []
strings slots (i ∷ idx) = slot slots i ∷ strings slots idx

-- What a pool stands for: its strings, in the order of their ids.
abbrev pub view : Pool → List Bytes
view p = strings p.slots p.idx

-- How many slots hold a string.
abbrev pub filled : List Bytes → ℕ
filled [] = 0
filled ([] ∷ slots) = filled slots
filled ((c ∷ e) ∷ slots) = suc (filled slots)

-- No string of the list is `s` for str_eq.
abbrev pub Fresh : Bytes → List Bytes → Type 0
Fresh s = All (λ x. str_eq x s ≡ false)

-- No two strings of the list are the same for str_eq.
abbrev pub Distinct : List Bytes → Type 0
Distinct [] = Unit
Distinct (x ∷ xs) = All (λ y. str_eq x y ≡ false) xs × Distinct xs

pub record IsPool (p : Pool) : Type 0 where
  pub roomy : 2 ≤ capacity p
  -- each id leads to a slot that holds a string, and each such slot has an id
  pub used : All (λ i. slot p.slots i ≢ []) p.idx
  pub owned : (i : ℕ) → slot p.slots i ≢ [] → (id : ℕ) × (position p.idx i ≡ some id)
  pub distinct : Distinct (view p)
  pub counted : filled p.slots ≡ count p

-- The first string of the list that is `s` for str_eq.
abbrev pub find_string : List Bytes → Bytes → Option ℕ
find_string [] s = none
find_string (x ∷ xs) s =
    if str_eq x s then some 0 else elim (find_string xs s) [ none ↦ none | some id ↦ some (suc id) ]

-- Interning in a list: the place of the string, which is added at the end if it is new.
abbrev pub intern : List Bytes → Bytes → ℕ × List Bytes
intern xs s = elim (find_string xs s) [ some id ↦ (id, xs) | none ↦ (length xs, xs ++ s ∷ []) ]

pub at-append :
    {A : Type 0} (before : List A) (a : A) (s : List A)
    → at (before ++ (a ∷ s)) (length before) ≡ ok a
unfolding at
at-append [] a s = refl
at-append (x ∷ before) a s = at-append before a s

pub at-slot : (slots : List Bytes) (i : ℕ) → i < length slots → at slots i ≡ ok (slot slots i)
unfolding at
at-slot [] i h = absurd (omega arith)
at-slot (e ∷ slots) zero h = refl
at-slot (e ∷ slots) (suc i) h = at-slot slots i (omega arith)

pub lt_of_slot : (slots : List Bytes) (i : ℕ) → slot slots i ≢ [] → i < length slots
lt_of_slot [] i h = absurd (h refl)
lt_of_slot (e ∷ slots) zero h = omega arith
lt_of_slot (e ∷ slots) (suc i) h = omega (arith, lt_of_slot slots i h)

pub slot-set_self :
    (slots : List Bytes) (i : ℕ) (s : Bytes) → i < length slots → slot (set slots i s) i ≡ s
slot-set_self [] i s h = absurd (omega arith)
slot-set_self (e ∷ slots) zero s h = refl
slot-set_self (e ∷ slots) (suc i) s h = slot-set_self slots i s (omega arith)

pub slot-set_ne :
    (slots : List Bytes) (i j : ℕ) (s : Bytes) → i ≢ j → slot (set slots i s) j ≡ slot slots j
slot-set_ne [] i j s h = refl
slot-set_ne (e ∷ slots) zero zero s h = absurd (h refl)
slot-set_ne (e ∷ slots) zero (suc j) s h = refl
slot-set_ne (e ∷ slots) (suc i) zero s h = refl
slot-set_ne (e ∷ slots) (suc i) (suc j) s h = slot-set_ne slots i j s (λ e. h (ap suc e))

pub slot-replicate : (n i : ℕ) → slot (replicate n []) i ≡ []
slot-replicate zero i = refl
slot-replicate (suc n) zero = refl
slot-replicate (suc n) (suc i) = slot-replicate n i

pub filled-replicate : (n : ℕ) → filled (replicate n []) ≡ 0
filled-replicate zero = refl
filled-replicate (suc n) = filled-replicate n

pub filled-set :
    (slots : List Bytes) (i : ℕ) (s : Bytes)
    → i < length slots
    → slot slots i ≡ []
    → s ≢ []
    → filled (set slots i s) ≡ suc (filled slots)
filled-set [] i s h e n = absurd (omega arith)
filled-set ([] ∷ slots) zero [] h e n = absurd (n refl)
filled-set ([] ∷ slots) zero (c ∷ s) h e n = refl
filled-set ((d ∷ x) ∷ slots) zero s h e n = cc
filled-set ([] ∷ slots) (suc i) s h e n = filled-set slots i s (omega arith) e n
filled-set ((d ∷ x) ∷ slots) (suc i) s h e n = ap suc (filled-set slots i s (omega arith) e n)

pub free_slot :
    (slots : List Bytes)
    → filled slots < length slots
    → (i : ℕ) × (i < length slots) × (slot slots i ≡ [])
free_slot [] h = absurd (omega arith)
free_slot ([] ∷ slots) h = (0, omega arith, refl)
free_slot ((c ∷ e) ∷ slots) h =
    let (i, lt, free) = free_slot slots (omega arith) in (suc i, omega arith, free)

pub length-strings : (slots : List Bytes) (idx : List ℕ) → length (strings slots idx) ≡ length idx
length-strings slots [] = refl
length-strings slots (i ∷ idx) = ap suc (length-strings slots idx)

pub strings-append :
    (slots : List Bytes) (a b : List ℕ)
    → strings slots (a ++ b) ≡ strings slots a ++ strings slots b
strings-append slots [] b = refl
strings-append slots (i ∷ a) b = ap (◌∷◌ (slot slots i)) (strings-append slots a b)

-- A write to an empty slot changes no string that has an id.
pub strings-set :
    (slots : List Bytes) (idx : List ℕ) (i : ℕ) (s : Bytes)
    → slot slots i ≡ []
    → All (λ j. slot slots j ≢ []) idx
    → strings (set slots i s) idx ≡ strings slots idx
strings-set slots [] i s e u = refl
strings-set slots (j ∷ idx) i s e (n, u) =
    ap₂ ◌∷◌ (slot-set_ne slots i j s (λ p. n (rw (← p) e))) (strings-set slots idx i s e u)

pub position-append :
    (a b : List ℕ) (i : ℕ) {id : ℕ} → position a i ≡ some id → position (a ++ b) i ≡ some id
unfolding position
position-append [] b i h = cc
position-append (j ∷ a) b i {id} h = elim (Option-cases (position a i)) [
  | inl miss ↦ ground arith
  | inr (n, hit) ↦ ground (arith, position-append a b i hit)
]

pub position-last : (a : List ℕ) (i : ℕ) → (id : ℕ) × (position (a ++ i ∷ []) i ≡ some id)
unfolding position
position-last [] i = (0, ground arith)
position-last (j ∷ a) i =
    let (n, hit) = position-last a i in
    elim (Bool-cases (j == i)) [ inl e ↦ (0, rw e) | inr e ↦ (suc n, rw (e, hit)) ]

pub find_string-Fresh : (xs : List Bytes) (s : Bytes) → Fresh s xs → find_string xs s ≡ none
find_string-Fresh [] s h = refl
find_string-Fresh (x ∷ xs) s (h, hs) = rw (h, find_string-Fresh xs s hs)

pub Fresh-find_string : (xs : List Bytes) (s : Bytes) → find_string xs s ≡ none → Fresh s xs
Fresh-find_string [] s h = tt
Fresh-find_string (x ∷ xs) s h = (ground arith, Fresh-find_string xs s (ground arith))

pub Distinct-append :
    (xs : List Bytes) (s : Bytes) → Distinct xs → Fresh s xs → Distinct (xs ++ s ∷ [])
Distinct-append [] s d f = (tt, tt)
Distinct-append (x ∷ xs) s (h, d) (g, f) =
    (All-append (λ y. str_eq x y ≡ false) xs (s ∷ []) h (g, tt), Distinct-append xs s d f)

pub All-strings {κ} :
    (P : Bytes → Type κ) (slots : List Bytes) (idx : List ℕ) (i : ℕ) {id : ℕ}
    → position idx i ≡ some id
    → All P (strings slots idx)
    → P (slot slots i)
unfolding position
All-strings P slots [] i h a = cc
All-strings P slots (j ∷ idx) i h (a, as') = elim (Bool-cases (j == i)) [
  | inl same ↦ subst (λ k. P (slot slots k)) ((==_iff j i).0 same) a
  | inr other ↦ elim (Option-cases (position idx i)) [
    | inl miss ↦ absurd (ground arith)
    | inr (n, hit) ↦ All-strings P slots idx i hit as'
  ]
]

-- The string in the slot with a given id is the first that equals it.
pub find_string-position :
    (slots : List Bytes) (idx : List ℕ) (i : ℕ) (s : Bytes) {id : ℕ}
    → Distinct (strings slots idx)
    → str_eq (slot slots i) s ≡ true
    → position idx i ≡ some id
    → find_string (strings slots idx) s ≡ some id
unfolding position
find_string-position slots [] i s d e h = cc
find_string-position slots (j ∷ idx) i s {id} (a, d) e h = elim (Bool-cases (j == i)) [
  | inl same ↦ let ji : j ≡ i = (==_iff j i).0 same in ground (arith, ap (slot slots) ji)
  | inr other ↦ elim (Option-cases (position idx i)) [
    | inl miss ↦ absurd (ground arith)
    | inr (n, hit) ↦
        let differs = All-strings (λ y. str_eq (slot slots j) y ≡ false) slots idx i hit a in
        ground (
          arith,
          find_string-position slots idx i s d e hit,
          str_eq_trans (slot slots j) s (slot slots i),
          str_eq_symm (slot slots i) s,
        )
  ]
]

pub find_string-lt :
    (xs : List Bytes) (s : Bytes) {id : ℕ} → find_string xs s ≡ some id → id < length xs
find_string-lt [] s h = cc
find_string-lt (x ∷ xs) s {id} h = elim (Option-cases (find_string xs s)) [
  | inl miss ↦ ground arith
  | inr (n, hit) ↦ ground (arith, find_string-lt xs s hit)
]

pub All-position {κ} :
    (P : ℕ → Type κ) (idx : List ℕ) (i : ℕ) {id : ℕ} → position idx i ≡ some id → All P idx → P i
unfolding position
All-position P [] i h a = cc
All-position P (j ∷ idx) i h (a, as') = elim (Bool-cases (j == i)) [
  | inl same ↦ subst P ((==_iff j i).0 same) a
  | inr other ↦ elim (Option-cases (position idx i)) [
    | inl miss ↦ absurd (ground arith)
    | inr (n, hit) ↦ All-position P idx i hit as'
  ]
]
