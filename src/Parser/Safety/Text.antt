-- ===== src/Parser/Safety/Text.antt =====
-- muggin_contents_from_str of muggin.c is safe, and its loop ends.
use plmuggin.Base.{
  ℕ, zero, suc, ◌+◌, ◌≤◌, ◌<◌, ◌≡◌, ◌≢◌, refl, ap, some, [], ◌∷◌, arith, Bytes, length, inl, inr,
  Bool-cases, Option-cases, ltb, ltb→lt, ◌==◌, if◌then◌else◌, All-append, length-append,
}
use plmuggin.Parser.Monad.{Ctx}
use plmuggin.Parser.Text.{
  muggin_contents_add, muggin_contents_add_str, mustache, reference, add_before, add_rest,
  contents_from, muggin_contents_from_str,
}
use plmuggin.Parser.Safety.Rules.{
  Meets, returns, faults, Meets-bind, Meets-weaken, IsCtx, Later, Later-refl, Later-trans,
  muggin_use_constant-Meets, muggin_use_name-Meets,
}
use plmuggin.Pool.{count}
use plmuggin.Str.Split.{length-str_take, length-str_drop, length-str_ltrim, str_indexof-some}
use plmuggin.Str.{str_take, str_drop, str_ltrim, str_indexof, char_at}
use plmuggin.Template.Scope.{IdIn, ContentsIn, ContentsIn-mono, push-IsArray}
use plmuggin.Template.{Contents, ContentType, ct_constant, ct_name, Content}

-- The contents are those of a later context.
abbrev pub TextIn : Ctx → Contents → Ctx → Type 0
TextIn c cs c' = Later c c' × ContentsIn (count c'.constants) (count c'.names) cs

pub TextIn-Later : {a b c : Ctx} (cs : Contents) → Later a b → TextIn b cs c → TextIn a cs c
TextIn-Later cs l (m, h) = (Later-trans l m, h)

pub ContentsIn-Later :
    {a b : Ctx} (cs : Contents)
    → Later a b
    → ContentsIn (count a.constants) (count a.names) cs
    → ContentsIn (count b.constants) (count b.names) cs
ContentsIn-Later cs l h = ContentsIn-mono l.constants_le l.names_le cs h

pub muggin_contents_add-Meets :
    (cs : Contents) (type : ContentType) (id : ℕ) (c : Ctx)
    → IsCtx c
    → ContentsIn (count c.constants) (count c.names) cs
    → IdIn (count c.constants) (count c.names) type id
    → Meets (TextIn c) (muggin_contents_add cs type id c)
unfolding muggin_contents_add
muggin_contents_add-Meets cs type id c v (a, items) h =
    let (b, run, (v', e)) = push-IsArray cs.contents (record { id = id; type = type }) a in
    rw run (
      returns (
        Later-refl v,
        (
          v',
          rw e (
              All-append (λ (x : Content). IdIn (count c.constants) (count c.names) x.type x.id)
                cs.contents.items _ items (h, tt)),
        ),
      ))

add_constant-Meets :
    (cs : Contents) (s : Bytes) (c : Ctx)
    → IsCtx c
    → ContentsIn (count c.constants) (count c.names) cs
    → s ≢ []
    → Meets (TextIn c) (muggin_contents_add_str cs ct_constant s c)
unfolding muggin_contents_add_str
add_constant-Meets cs s c v h ne =
    Meets-bind _ (muggin_use_constant-Meets s c v ne) (λ id c₁ (l, _, lt).
      Meets-weaken
        (muggin_contents_add-Meets cs ct_constant id c₁ l.valid (ContentsIn-Later cs l h) lt)
        (λ cs' c₂ t. TextIn-Later cs' l t))

add_name-Meets :
    (cs : Contents) (s : Bytes) (c : Ctx)
    → IsCtx c
    → ContentsIn (count c.constants) (count c.names) cs
    → Meets (TextIn c) (muggin_contents_add_str cs ct_name s c)
unfolding muggin_contents_add_str
add_name-Meets cs s c v h = Meets-bind _ (muggin_use_name-Meets s c v) (λ id c₁ (l, _, lt).
    Meets-weaken (muggin_contents_add-Meets cs ct_name id c₁ l.valid (ContentsIn-Later cs l h) lt)
      (λ cs' c₂ t. TextIn-Later cs' l t))

mustache_bound : (s : Bytes) {i : ℕ} → mustache s ≡ some i → i < length s
unfolding mustache
mustache_bound s {i} h = elim (Option-cases (str_indexof s b'{')) [
  | inl miss ↦ absurd (ground arith)
  | inr (j, hit) ↦
      let (a, b, e, _, m) = str_indexof-some s b'{' hit in
      let same : i ≡ j = ground arith in
      omega (arith, same, m, ap length e, length-append a (b'{' ∷ b))
]

reference-Meets :
    (s : Bytes) (c : Ctx)
    → IsCtx c
    → Meets (λ r c'. Later c c' × (length r.1 ≤ length s)) (reference s c)
unfolding reference
reference-Meets s c v = elim (Option-cases (str_indexof s b'}')) [
  | inl miss ↦ rw (miss, reference) (faults tt)
  | inr (i, hit) ↦ elim (Bool-cases (char_at s (i + 1) == b'}')) [
    | inl closed ↦
        rw (hit, closed, reference)
          (returns (Later-refl v, omega (arith, length-str_drop s (i + 2))))
    | inr open' ↦ rw (hit, open', reference) (faults tt)
  ]
]

add_before-Meets :
    (cs : Contents) (s : Bytes) (i : ℕ) (c : Ctx)
    → IsCtx c
    → ContentsIn (count c.constants) (count c.names) cs
    → i < length s
    → Meets (TextIn c) (add_before cs s i c)
unfolding add_before
add_before-Meets cs s i c v h lt = elim (Bool-cases (ltb 0 i)) [
  | inl some_before ↦
      let taken = length-str_take s i in
      rw some_before (
        add_constant-Meets cs (str_take s i) c v h
          (λ z. absurd (omega (arith, taken, ap length z, ltb→lt 0 i some_before))))
  | inr none_before ↦ rw none_before (returns (Later-refl v, h))
]

add_rest-Meets :
    (cs : Contents) (s : Bytes) (c : Ctx)
    → IsCtx c
    → ContentsIn (count c.constants) (count c.names) cs
    → Meets (TextIn c) (add_rest cs s c)
unfolding add_rest
add_rest-Meets cs [] c v h = returns (Later-refl v, h)
add_rest-Meets cs (x ∷ s) c v h = add_constant-Meets cs (x ∷ s) c v h (cc)

contents_from-Meets :
    (fuel : ℕ) (cs : Contents) (s : Bytes) (c : Ctx)
    → IsCtx c
    → ContentsIn (count c.constants) (count c.names) cs
    → length s < fuel
    → Meets (TextIn c) (contents_from fuel cs s c)
unfolding contents_from
contents_from-Meets zero cs s c v h lt = absurd (omega arith)
contents_from-Meets (suc fuel) cs s c v h lt = elim (Option-cases (mustache s)) [
  | inl miss ↦ rw (miss, contents_from) (add_rest-Meets cs s c v h)
  | inr (i, hit) ↦
      let inside = mustache_bound s hit in
      let behind = if ltb 0 i then str_drop s i else s in
      let short : length behind ≤ length s = ground (arith, length-str_drop s i) in
      let rest = str_ltrim (str_drop behind 2) in
      let shorter : length rest < length s =
        omega (arith, length-str_ltrim (str_drop behind 2), length-str_drop behind 2, short) in
      rw (hit, contents_from)
        (Meets-bind _ (add_before-Meets cs s i c v h inside) (λ cs₁ c₁ (l₁, h₁).
          Meets-bind _ (reference-Meets rest c₁ l₁.valid) (λ named c₂ (l₂, le).
            Meets-bind _ (add_name-Meets cs₁ named.0 c₂ l₂.valid (ContentsIn-Later cs₁ l₂ h₁))
              (λ cs₂ c₃ (l₃, h₃).
                Meets-weaken
                  (contents_from-Meets fuel cs₂ named.1 c₃ l₃.valid h₃ (omega (arith, le, shorter)))
                  (λ cs₃ c₄ t. TextIn-Later cs₃ (Later-trans l₁ (Later-trans l₂ l₃)) t)))))
]

pub muggin_contents_from_str-Meets :
    (s : Bytes) (c : Ctx) → IsCtx c → Meets (TextIn c) (muggin_contents_from_str s c)
unfolding muggin_contents_from_str
muggin_contents_from_str-Meets s c v =
    contents_from-Meets (suc (length s)) _ s c v ((omega arith, inl refl), tt) (omega arith)
