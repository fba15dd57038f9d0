-- ===== src/Str/Trim.antt =====
-- str_trim of str.h leaves a text alone that neither begins nor ends with a space.
use plmuggin.Base.{
  ℕ, suc, ◌≡◌, refl, sym, ap, ◌∙◌, false, [], ◌∷◌, ◌++◌, append-nil, arith, Bytes, length, take,
  length-append, take-append,
}
use plmuggin.Str.{char_at, is_space, str_ltrim, str_rtrim, str_trim, rtrim_length}

-- The text begins and ends with bytes that are no space.
abbrev pub IsTrimmed : Bytes → Type 0
IsTrimmed s =
    (is_space (char_at s 0) ≡ false)
    × (t : Bytes) × (c : ℕ) × (s ≡ t ++ (c ∷ []))
    × (is_space c ≡ false)

char_at-append : (s : Bytes) (c : ℕ) → char_at (s ++ (c ∷ [])) (length s) ≡ c
unfolding char_at
char_at-append [] c = refl
char_at-append (x ∷ s) c = char_at-append s c

str_rtrim-last :
    (s : Bytes) (c : ℕ) → is_space c ≡ false → str_rtrim (s ++ (c ∷ [])) ≡ s ++ (c ∷ [])
unfolding str_rtrim rtrim_length
str_rtrim-last s c e =
    let whole : Bytes = s ++ (c ∷ []) in
    let n : length whole ≡ suc (length s) = omega (arith, length-append s (c ∷ [])) in
    let kept : rtrim_length (suc (length s)) whole ≡ suc (length s) =
      rw (rtrim_length, char_at-append s c, e) refl in
    ap (λ k. take (rtrim_length k whole) whole) n
    ∙ ap (λ k. take k whole) (kept ∙ sym n)
    ∙ ap (take (length whole)) (sym (append-nil whole))
    ∙ take-append whole []

str_ltrim-first : (s : Bytes) → is_space (char_at s 0) ≡ false → str_ltrim s ≡ s
unfolding str_ltrim char_at
str_ltrim-first [] e = refl
str_ltrim-first (c ∷ s) e = rw e refl

pub str_trim-IsTrimmed : (s : Bytes) → IsTrimmed s → str_trim s ≡ s
unfolding str_trim
str_trim-IsTrimmed s (first, t, c, e, last) =
    let kept : str_rtrim s ≡ s = ap str_rtrim e ∙ str_rtrim-last t c last ∙ sym e in
    ap str_ltrim kept ∙ str_ltrim-first s first
