-- ===== src/Parser/Safety/Attribute.antt =====
-- muggin_read_attribute of muggin.c is safe; with an attribute it takes some of the input.
use plmuggin.Base.{
  ℕ, suc, ◌-◌, ◌≤◌, ◌<◌, ◌≡◌, ap, sym, ◌∙◌, Option, none, some, [], ◌∷◌, arith, Bytes, length, inl,
  inr, Bool-cases, ◌==◌, if◌then◌else◌, subst,
}
use plmuggin.Parser.Attribute.{
  value_end, raw_value, quoted_value, attribute_value, muggin_read_attribute,
}
use plmuggin.Parser.Lexical.{valid_attr}
use plmuggin.Parser.Monad.{
  Ctx, expected_equals, expected_attribute_name, unterminated_quoted_string,
}
use plmuggin.Parser.Safety.Lexical.{muggin_read_constant-Meets}
use plmuggin.Parser.Safety.Rules.{
  Meets, returns, faults, Meets-bind, Meets-weaken, IsCtx, Later, Later-refl, Later-trans,
  Later-input, Later-error, parse_error-Meets, on_option-Meets, some_cancel,
}
use plmuggin.Parser.Safety.Text.{muggin_contents_from_str-Meets}
use plmuggin.Pool.{count}
use plmuggin.Str.Split.{length-str_drop, length-str_ltrim, str_splitat-Splits, length-Splits}
use plmuggin.Str.{str_take, str_drop, str_ltrim, char_at, str_splitat}
use plmuggin.Template.Scope.{AttrIn}
use plmuggin.Template.{Attr, at_contents}

-- An attribute, if there is one, has its ids in the pools of the later context.
abbrev pub AttrRead : Ctx → Option Attr → Ctx → Type 0
AttrRead c r c' =
    Later c c' × ((a : Attr) → r ≡ some a → AttrIn (count c'.constants) (count c'.names) a)

AttrRead-none : {c c' : Ctx} → Later c c' → AttrRead c none c'
AttrRead-none l = (l, λ a e. cc)

AttrRead-some :
    {c c' : Ctx} (a : Attr)
    → Later c c'
    → AttrIn (count c'.constants) (count c'.names) a
    → AttrRead c (some a) c'
AttrRead-some {c'} a l h =
    (l, λ b e. subst (AttrIn (count c'.constants) (count c'.names)) (some_cancel e) h)

pub length_rest :
    (s chars : Bytes) {r : Bytes × Bytes} → str_splitat s chars ≡ some r → length r.1 ≤ length s
length_rest [] chars h = unfold str_splitat in (cc)
length_rest (x ∷ s) chars {r} h =
    let (a', b', e, cut) = str_splitat-Splits (x ∷ s) chars (cc) in
    let same : (a', b') ≡ r = some_cancel (sym e ∙ h) in
    omega (arith, ap (λ (q : Bytes × Bytes). length q.1) same, length-Splits (cc) cut)

raw_value-Meets :
    (name : ℕ) (c : Ctx)
    → IsCtx c
    → name < count c.constants
    → Meets (AttrRead c) (raw_value name c)
unfolding raw_value
raw_value-Meets name c v lt =
    on_option-Meets _ _ (value_end (suc (length c.input)) c.input 0) c (faults tt) λ end _.
      let n = if end.1 == b')' then end.0 - 1 else end.0 in
      let s = str_drop c.input n in
      let c₁ : Ctx = record c { input = s } in
      let l : Later c c₁ =
        Later-input s (Later-refl v) (omega (arith, length-str_drop c.input n)) in
      Meets-bind _ (muggin_contents_from_str-Meets (str_take c.input (end.0 - 1)) c₁ l.valid)
        (λ cs c₂ (l₂, h). returns (
          AttrRead-some (record { name = name; value = at_contents cs }) (Later-trans l l₂)
            (omega (arith, lt, l₂.constants_le), h)))

quoted_value-Meets :
    (name : ℕ) (c : Ctx)
    → IsCtx c
    → name < count c.constants
    → Meets (AttrRead c) (quoted_value name c)
unfolding quoted_value
quoted_value-Meets name c v lt =
    on_option-Meets _ _ (str_splitat c.input (b'"' ∷ [])) c
      (parse_error-Meets unterminated_quoted_string c
        (AttrRead-none (Later-error _ (Later-refl v))))
      λ cut e. Meets-bind _ (muggin_contents_from_str-Meets cut.0 c v) (λ cs c₂ (l₂, h). returns (
        AttrRead-some (record { name = name; value = at_contents cs })
          (Later-input cut.1 l₂ (length_rest c.input (b'"' ∷ []) e))
          (omega (arith, lt, l₂.constants_le), h)))

attribute_value-Meets :
    (name : ℕ) (c : Ctx)
    → IsCtx c
    → name < count c.constants
    → Meets (AttrRead c) (attribute_value name c)
unfolding attribute_value
attribute_value-Meets name c v lt =
    let s = str_ltrim c.input in
    let trimmed = length-str_ltrim c.input in
    let l₁ : Later c (record c { input = s }) = Later-input s (Later-refl v) trimmed in
    let t = str_ltrim (str_drop s 1) in
    let cut = length-str_ltrim (str_drop s 1) in
    let dropped = length-str_drop s 1 in
    let l₂ : Later c (record c { input = t }) =
      Later-input t (Later-refl v) (omega (arith, trimmed, cut, dropped)) in
    let u = str_drop t 1 in
    let l₃ : Later c (record c { input = u }) =
      Later-input u (Later-refl v) (omega (arith, trimmed, cut, dropped, length-str_drop t 1)) in
    elim (Bool-cases (char_at s 0 == b'=')) [
      | inr other ↦
          rw other (parse_error-Meets expected_equals _ (AttrRead-none (Later-error _ l₁)))
      | inl equals ↦ elim (Bool-cases (char_at t 0 == b'"')) [
        | inl quote ↦
            rw (equals, quote)
              (Meets-weaken (quoted_value-Meets name (record c { input = u }) l₃.valid lt)
                (λ a c' (l, h). (Later-trans l₃ l, h)))
        | inr raw ↦
            rw (equals, raw)
              (Meets-weaken (raw_value-Meets name (record c { input = t }) l₂.valid lt)
                (λ a c' (l, h). (Later-trans l₂ l, h)))
      ]
    ]

-- The attribute is one of the later context, whose input is shorter.
abbrev pub AttrTaken : Ctx → Option Attr → Ctx → Type 0
AttrTaken c r c' =
    Later c c'
    × ((a : Attr)
        → r ≡ some a
        → AttrIn (count c'.constants) (count c'.names) a × (length c'.input < length c.input))

pub muggin_read_attribute-Meets :
    (c : Ctx) → IsCtx c → Meets (AttrTaken c) (muggin_read_attribute c)
unfolding muggin_read_attribute
muggin_read_attribute-Meets c v =
    let s = str_ltrim c.input in
    let trimmed = length-str_ltrim c.input in
    let l₁ : Later c (record c { input = s }) = Later-input s (Later-refl v) trimmed in
    elim (Bool-cases (char_at s 0 == b')')) [
      | inl closed ↦ rw closed (returns (l₁, λ a e. cc))
      | inr more ↦ rw more (
          Meets-bind _ (muggin_read_constant-Meets valid_attr (record c { input = s }) l₁.valid)
            (λ r c₂ (l₂, read).
              on_option-Meets _ _ r c₂
                (parse_error-Meets expected_attribute_name c₂
                  (Later-error _ (Later-trans l₁ l₂), λ a e. cc))
                (λ id e.
                  let (lt, shorter) = read id e in
                  Meets-weaken (attribute_value-Meets id c₂ l₂.valid lt) (λ a c' (l, h). (
                    Later-trans l₁ (Later-trans l₂ l),
                    λ b e. (h b e, omega (arith, l.shorter, shorter, trimmed)),
                  )))))
    ]
