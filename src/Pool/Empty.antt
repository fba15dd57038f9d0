-- ===== src/Pool/Empty.antt =====
-- The string pool of muggin.c and the empty string, which an empty slot holds too.
use plmuggin.Base.{
  ℕ, zero, suc, ◌+◌, ◌%◌, ◌<◌, ◌≡◌, ◌≢◌, refl, true, false, inl, inr, none, [], ◌∷◌, arith, ◌==◌,
  Bytes, Bool-cases, Option-cases,
}
use plmuggin.Pool.Intern.{filled-le, rehash_lem}
use plmuggin.Pool.Search.{wrap, mod_wrap, nil_cases, Taken, Taken-suc, not-Taken, start-hash}
use plmuggin.Pool.Slots.{slot, filled, IsPool, at-slot, All-position}
use plmuggin.Pool.{
  Pool, capacity, count, position, lookup_from, string_pool_lookup, string_pool_use,
}
use plmuggin.Result.{fail, raised}
use plmuggin.Str.{str_eq, str_hash}

str_eq_cons_nil : (e : Bytes) → e ≢ [] → str_eq e [] ≡ false
unfolding str_eq
str_eq_cons_nil [] n = absurd (n refl)
str_eq_cons_nil (c ∷ e) n = ground arith

str_eq_nil_nil : str_eq [] [] ≡ true
unfolding str_eq
str_eq_nil_nil = refl

module _ (p : Pool) (inv : IsPool p) where
  free_position : (i : ℕ) → slot p.slots i ≡ [] → position p.idx i ≡ none
  free_position i free = elim (Option-cases (position p.idx i)) [
    | inl e ↦ e
    | inr (id, e) ↦ absurd (All-position (λ j. slot p.slots j ≢ []) p.idx i e inv.used free)
  ]

  module _ (room : filled p.slots < capacity p) (first : ℕ) (inside : first < capacity p) where
    lookup_from_nil :
        (rounds d i : ℕ)
        → d + rounds ≡ capacity p
        → i ≡ wrap (first + d) (capacity p)
        → Taken p first inside d
        → lookup_from rounds p [] first i ≡ fail raised
    unfolding lookup_from
    lookup_from_nil zero d i sum here taken =
        let all : d ≡ capacity p = omega arith in
        absurd (not-Taken p first inside room (λ k h. taken k (rw all h)))
    lookup_from_nil (suc rounds) d i sum here taken =
        let lt : i < capacity p = ground arith in
        let next : (i + 1) % capacity p ≡ wrap (i + 1) (capacity p) = mod_wrap i (capacity p) lt in
        elim (nil_cases (slot p.slots i)) [
          | inl free ↦ rw (at-slot p.slots i lt, free, str_eq_nil_nil, free_position i free)
          | inr full ↦
              let taken' = Taken-suc p first inside d i here taken full.1 in
              elim (Bool-cases (wrap (i + 1) (capacity p) == first)) [
                | inl last ↦
                    let all : suc d ≡ capacity p = ground arith in
                    absurd (not-Taken p first inside room (λ k h. taken' k (rw all h)))
                | inr more ↦
                    rw (at-slot p.slots i lt, str_eq_cons_nil _ full.1, next, more)
                      (lookup_from_nil rounds (suc d) (wrap (i + 1) (capacity p)) (omega arith)
                        (ground arith) taken')
              ]
        ]

string_pool_lookup_nil :
    (p : Pool) → IsPool p → count p < capacity p → string_pool_lookup p [] ≡ fail raised
unfolding string_pool_lookup
string_pool_lookup_nil p inv room =
    let h : 0 < capacity p = omega (arith, inv.roomy) in
    let lt : str_hash [] % capacity p < capacity p = grind arith in
    rw (start-hash [] p.slots h) (
      lookup_from_nil p inv (rw inv.counted room) (str_hash [] % capacity p) lt (capacity p) 0
        (str_hash [] % capacity p) (omega arith) (ground (arith, lt)) (λ k g. elim g [ ]))

-- Interning the empty string in a well-formed pool raises the error that the code words as a bug of its hashing.
pub string_pool_use_nil : (p : Pool) → IsPool p → string_pool_use p [] ≡ fail raised
unfolding string_pool_use
string_pool_use_nil p inv = elim (Bool-cases (count p == capacity p)) [
  | inl full ↦
      let (q, run, (inv', v, room)) = rehash_lem p inv in
      rw (full, run, string_pool_lookup_nil q inv' room)
  | inr roomy ↦
      rw (roomy, string_pool_lookup_nil p inv (ground (arith, filled-le p.slots, inv.counted)))
]
