-- ===== src/Str/Split.antt =====
-- Where str_splitat and str_indexof cut a text, and how long the slices of str.h are.
use plmuggin.Base.{
  ◌∙◌, ℕ, ◌+◌, ◌≤◌, ◌≡◌, ◌≢◌, refl, true, false, [], ◌∷◌, ◌++◌, append_assoc, append-nil, none,
  some, arith, Bytes, Lacks, length, length-append, length-drop, length-take, ◌==◌, All, All-append,
  inl, inr, Bool-cases, ap, ◌-◌, min,
}
use plmuggin.Str.{
  any_of, split_from, str_splitat, str_ltrim, str_rtrim, str_trim, str_drop, str_take, index_from,
  str_indexof,
}

-- No byte of the text is one of `chars`.
abbrev pub Avoids : Bytes → Bytes → Type 0
Avoids chars = All (λ c. any_of chars c ≡ false)

-- `a` and `b` are `s` cut at its first byte among `chars`, which neither holds; or `s` has none of
-- them, and is `a` whole.
pub data Splits (chars s a b : Bytes) : Type 0 where
  at : (c : ℕ) → any_of chars c ≡ true → Avoids chars a → s ≡ a ++ (c ∷ b) → Splits chars s a b
  whole : Avoids chars s → a ≡ s → b ≡ [] → Splits chars s a b

split_from-Splits :
    (chars before s : Bytes)
    → Avoids chars before
    → let r = split_from chars before s in Splits chars (before ++ s) r.0 r.1
unfolding split_from
split_from-Splits chars before [] h = whole (rw append-nil h) (rw append-nil) refl
split_from-Splits chars before (c ∷ s) h = elim (Bool-cases (any_of chars c)) [
  | inl hit ↦ rw hit (at c hit h refl)
  | inr miss ↦
      let ih =
        split_from-Splits chars (before ++ c ∷ []) s (All-append _ before (c ∷ []) h (miss, tt)) in
      rw miss (rw (append_assoc before (c ∷ []) s) at ih)
]

-- str_splitat fails on the empty text only, and otherwise cuts at the first separator.
pub str_splitat-Splits :
    (s chars : Bytes)
    → s ≢ []
    → (a b : Bytes) × (str_splitat s chars ≡ some (a, b)) × Splits chars s a b
unfolding str_splitat
str_splitat-Splits [] chars h = absurd (h refl)
str_splitat-Splits (c ∷ s) chars h = (_, _, refl, split_from-Splits chars [] (c ∷ s) tt)

pub length-Splits :
    {chars s a b : Bytes} → s ≢ [] → Splits chars s a b → length a + length b ≤ length s
length-Splits {a} {b} ne (at c hit h e) = rw e (omega (arith, length-append a (c ∷ b)))
length-Splits ne (whole h e f) = rw (e, f) (omega arith)

index_from-some :
    (n : ℕ) (s : Bytes) (ch : ℕ) {i : ℕ}
    → index_from n s ch ≡ some i
    → (a b : Bytes) × (s ≡ a ++ (ch ∷ b)) × Lacks ch a × (i ≡ n + length a)
unfolding index_from
index_from-some n [] ch h = cc
index_from-some n (c ∷ s) ch {i} h = elim (Bool-cases (c == ch)) [
  | inl hit ↦ ([], s, ground arith, tt, ground arith)
  | inr miss ↦
      let (a, b, e, l, m) = index_from-some (n + 1) s ch (rw miss at h) in
      (c ∷ a, b, ap (◌∷◌ c) e, (ground arith, l), omega arith)
]

index_from-none : (n : ℕ) (s : Bytes) (ch : ℕ) → index_from n s ch ≡ none → Lacks ch s
unfolding index_from
index_from-none n [] ch h = tt
index_from-none n (c ∷ s) ch h = elim (Bool-cases (c == ch)) [
  | inl hit ↦ absurd (ground arith)
  | inr miss ↦ (ground arith, index_from-none (n + 1) s ch (rw miss at h))
]

-- The index that str_indexof gives is that of the first occurrence.
pub str_indexof-some :
    (s : Bytes) (ch : ℕ) {i : ℕ}
    → str_indexof s ch ≡ some i
    → (a b : Bytes) × (s ≡ a ++ (ch ∷ b)) × Lacks ch a × (i ≡ length a)
unfolding str_indexof
str_indexof-some s ch h =
    let (a, b, e, l, m) = index_from-some 0 s ch h in (a, b, e, l, omega arith)

pub str_indexof-none : (s : Bytes) (ch : ℕ) → str_indexof s ch ≡ none → Lacks ch s
unfolding str_indexof
str_indexof-none s ch h = index_from-none 0 s ch h

index_from-append :
    (n : ℕ) (a b : Bytes) (ch : ℕ)
    → Lacks ch a
    → index_from n (a ++ (ch ∷ b)) ch ≡ some (n + length a)
unfolding index_from
index_from-append n [] b ch l = ground arith
index_from-append n (c ∷ a) b ch (l, ls) = ground (arith, index_from-append (n + 1) a b ch ls)

pub str_indexof-append :
    (a b : Bytes) (ch : ℕ) → Lacks ch a → str_indexof (a ++ (ch ∷ b)) ch ≡ some (length a)
unfolding str_indexof
str_indexof-append a b ch l = ground (arith, index_from-append 0 a b ch l)

index_from-Lacks : (n : ℕ) (s : Bytes) (ch : ℕ) → Lacks ch s → index_from n s ch ≡ none
unfolding index_from
index_from-Lacks n [] ch l = refl
index_from-Lacks n (c ∷ s) ch (l, ls) = ground (arith, index_from-Lacks (n + 1) s ch ls)

pub str_indexof-Lacks : (s : Bytes) (ch : ℕ) → Lacks ch s → str_indexof s ch ≡ none
unfolding str_indexof
str_indexof-Lacks s ch l = index_from-Lacks 0 s ch l

pub length-str_ltrim : (s : Bytes) → length (str_ltrim s) ≤ length s
unfolding str_ltrim
length-str_ltrim [] = omega arith
length-str_ltrim (c ∷ s) = ground (arith, length-str_ltrim s)

pub length-str_rtrim : (s : Bytes) → length (str_rtrim s) ≤ length s
unfolding str_rtrim
length-str_rtrim s = omega (arith, length-take _ s)

pub length-str_trim : (s : Bytes) → length (str_trim s) ≤ length s
unfolding str_trim
length-str_trim s = omega (arith, length-str_ltrim (str_rtrim s), length-str_rtrim s)

pub length-str_drop : (s : Bytes) (n : ℕ) → length (str_drop s n) ≡ length s - n
unfolding str_drop
length-str_drop s n = ground (arith, length-drop n s)

pub length-str_take : (s : Bytes) (n : ℕ) → length (str_take s n) ≡ min n (length s)
unfolding str_take
length-str_take s n = ground (arith, length-take n s)

split_from-at :
    (chars before a : Bytes) (c : ℕ) (b : Bytes)
    → Avoids chars a
    → any_of chars c ≡ true
    → split_from chars before (a ++ (c ∷ b)) ≡ (before ++ a, b)
unfolding split_from
split_from-at chars before [] c b h e = rw (e, append-nil before) refl
split_from-at chars before (x ∷ a) c b (h, hs) e = rw h (
    split_from-at chars (before ++ x ∷ []) a c b hs e
    ∙ ap (λ w. (w, b)) (append_assoc before (x ∷ []) a))

split_from-whole :
    (chars before s : Bytes) → Avoids chars s → split_from chars before s ≡ (before ++ s, [])
unfolding split_from
split_from-whole chars before [] h = rw append-nil refl
split_from-whole chars before (x ∷ s) (h, hs) = rw h (
    split_from-whole chars (before ++ x ∷ []) s hs
    ∙ ap (λ w. (w, [])) (append_assoc before (x ∷ []) s))

-- str_splitat on a text whose first separator is known, and on one with none.
pub str_splitat-at :
    (chars a : Bytes) (c : ℕ) (b : Bytes)
    → Avoids chars a
    → any_of chars c ≡ true
    → str_splitat (a ++ (c ∷ b)) chars ≡ some (a, b)
unfolding str_splitat
str_splitat-at chars [] c b h e = ap some (split_from-at chars [] [] c b h e)
str_splitat-at chars (x ∷ a) c b h e = ap some (split_from-at chars [] (x ∷ a) c b h e)

pub str_splitat-whole :
    (chars s : Bytes) → s ≢ [] → Avoids chars s → str_splitat s chars ≡ some (s, [])
unfolding str_splitat
str_splitat-whole chars [] ne h = absurd (ne refl)
str_splitat-whole chars (x ∷ s) ne h = ap some (split_from-whole chars [] (x ∷ s) h)
