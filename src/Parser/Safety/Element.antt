-- ===== src/Parser/Safety/Element.antt =====
-- The line of an element, up to its children, is read safely (muggin_parse_node of muggin.c).
use plmuggin.Base.{
  ℕ, zero, suc, ◌≤◌, ◌<◌, ◌≡◌, ◌≢◌, refl, Option, none, some, List, [], ◌∷◌, arith, Bytes, codes,
  length, length-append, true, ltb, inl, inr, Bool-cases, ◌==◌, All, All-append, subst,
}
use plmuggin.Parser.Lexical.{valid_id, valid_class}
use plmuggin.Parser.Monad.{
  Ctx, M, pure, lift, on_option, id_twice, cannot_read_id, cannot_read_class, too_many_classes,
}
use plmuggin.Parser.Safety.Attribute.{muggin_read_attribute-Meets}
use plmuggin.Parser.Safety.Lexical.{muggin_read_constant-Meets}
use plmuggin.Parser.Safety.Rules.{
  Meets, returns, Meets-bind, Meets-weaken, IsCtx, Later, Later-refl, Later-trans, Later-input,
  Later-error, parse_error-Meets, on_option-Meets, some_cancel, muggin_use_constant-Meets,
}
use plmuggin.Parser.Safety.Text.{TextIn, TextIn-Later, muggin_contents_add-Meets}
use plmuggin.Parser.Tree.{
  string_at, max_classes, Heading, read_id, read_class, id_or_class, add_id, add_all, add_classes,
  read_attributes,
}
use plmuggin.Pool.Slots.{slot, IsPool, at-slot, lt_of_slot}
use plmuggin.Pool.{Pool, count, at}
use plmuggin.Result.{ok}
use plmuggin.Str.Split.{length-str_drop}
use plmuggin.Str.{str_drop, char_at}
use plmuggin.Template.Scope.{
  ElementIn, AttrIn, ContentsIn, ElementIn-mono, muggin_add_attribute-ElementIn,
}
use plmuggin.Template.{
  Content, empty_array, Attr, Node, Contents, ct_constant, muggin_add_attribute,
}

at-lt :
    (idx : List ℕ) (P : ℕ → Type 0) (id : ℕ)
    → id < length idx
    → All P idx
    → (i : ℕ) × (at idx id ≡ ok i) × P i
unfolding at
at-lt [] P id lt a = absurd (omega arith)
at-lt (i ∷ idx) P zero lt (h, _) = (i, refl, h)
at-lt (i ∷ idx) P (suc id) lt (_, a) = at-lt idx P id (omega arith) a

-- Every id of a well-formed pool has its string.
pub string_at-Returns :
    (p : Pool) (id : ℕ) → IsPool p → id < count p → (s : Bytes) × (string_at p id ≡ ok s)
unfolding string_at
string_at-Returns p id inv lt =
    let (i, run, full) = at-lt p.idx (λ i. slot p.slots i ≢ []) id lt inv.used in
    (slot p.slots i, rw (run, string_at) (at-slot p.slots i (lt_of_slot p.slots i full)))

-- The node is an element with its ids in the pools of the later context.
abbrev pub ElemIn : Ctx → Node → Ctx → Type 0
ElemIn c n c' = Later c c' × ElementIn (count c'.constants) (count c'.names) n

pub ElemIn-Later : {a b c : Ctx} (n : Node) → Later a b → ElemIn b n c → ElemIn a n c
ElemIn-Later n l (m, h) = (Later-trans l m, h)

pub ElementIn-Later :
    {a b : Ctx} {n : Node}
    → Later a b
    → ElementIn (count a.constants) (count a.names) n
    → ElementIn (count b.constants) (count b.names) n
ElementIn-Later l h = ElementIn-mono l.constants_le l.names_le h

abbrev pub HeadingIn : ℕ → Heading → Type 0
HeadingIn n h =
    ((i : ℕ) → h.id ≡ some i → i < n)
    × All (λ i. i < n) h.classes
    × (length h.classes ≤ max_classes)

All-lt_mono : {m n : ℕ} (is : List ℕ) → m ≤ n → All (λ i. i < m) is → All (λ i. i < n) is
All-lt_mono [] le a = tt
All-lt_mono (i ∷ is) le (h, a) = (omega arith, All-lt_mono is le a)

pub HeadingIn-mono : {m n : ℕ} (h : Heading) → m ≤ n → HeadingIn m h → HeadingIn n h
HeadingIn-mono h le (f, a, room) = ((λ i e. omega (arith, f i e)), All-lt_mono h.classes le a, room)

abbrev HeadingTaken : Ctx → Option Heading → Ctx → Type 0
HeadingTaken c r c' =
    Later c c'
    × ((h : Heading)
        → r ≡ some h
        → HeadingIn (count c'.constants) h × (length c'.input < length c.input))

read_id-Meets :
    (h : Heading) (c : Ctx)
    → IsCtx c
    → HeadingIn (count c.constants) h
    → Meets (HeadingTaken c) (read_id h c)
unfolding read_id
read_id-Meets h c v hin =
    let s = str_drop c.input 1 in
    let le = length-str_drop c.input 1 in
    let l₁ : Later c (record c { input = s }) = Later-input s (Later-refl v) (omega (arith, le)) in
    on_option-Meets _ _ h.id c
      (Meets-bind _ (muggin_read_constant-Meets valid_id (record c { input = s }) l₁.valid)
        (λ r c₂ (l₂, read).
          on_option-Meets _ _ r c₂
            (parse_error-Meets cannot_read_id c₂ (Later-error _ (Later-trans l₁ l₂), λ h' e. cc))
            (λ i e.
              let (lt, shorter) = read i e in
              returns (
                Later-trans l₁ l₂,
                λ h' e'.
                    subst
                      (λ x. HeadingIn (count c₂.constants) x × (length c₂.input < length c.input))
                      (some_cancel e')
                      (
                        (
                          (λ j k. let same : i ≡ j = some_cancel k in omega (arith, lt, same)),
                          All-lt_mono h.classes l₂.constants_le hin.1,
                          hin.2,
                        ),
                        omega (arith, shorter, le),
                      ),
              ))))
      (λ _ _. parse_error-Meets id_twice c (Later-error _ (Later-refl v), λ h' e. cc))

read_class-Meets :
    (h : Heading) (c : Ctx)
    → IsCtx c
    → HeadingIn (count c.constants) h
    → Meets (HeadingTaken c) (read_class h c)
unfolding read_class
read_class-Meets h c v hin =
    let s = str_drop c.input 1 in
    let le = length-str_drop c.input 1 in
    let l₁ : Later c (record c { input = s }) = Later-input s (Later-refl v) (omega (arith, le)) in
    Meets-bind _ (muggin_read_constant-Meets valid_class (record c { input = s }) l₁.valid)
      (λ r c₂ (l₂, read).
        on_option-Meets _ _ r c₂
          (parse_error-Meets cannot_read_class c₂ (Later-error _ (Later-trans l₁ l₂), λ h' e. cc))
          (λ i e. elim (Bool-cases (length h.classes == 64)) [
            | inl full ↦ rw full (
                parse_error-Meets too_many_classes c₂
                  (Later-error _ (Later-trans l₁ l₂), λ h' e'. cc))
            | inr room ↦
                let (lt, shorter) = read i e in
                let free : ltb (length h.classes) max_classes ≡ true = ground (arith, hin.2) in
                rw (room, free)
                  (returns (
                    Later-trans l₁ l₂,
                    λ h' e'.
                        subst
                          (λ x.
                            HeadingIn (count c₂.constants) x × (length c₂.input < length c.input))
                          (some_cancel e')
                          (
                            (
                              (λ j k. omega (arith, hin.0 j k, l₂.constants_le)),
                              All-append (λ i. i < count c₂.constants) h.classes (i ∷ [])
                                  (All-lt_mono h.classes l₂.constants_le hin.1) (lt, tt),
                              ground (arith, hin.2, length-append h.classes (i ∷ [])),
                            ),
                            omega (arith, shorter, le),
                          ),
                  ))
          ]))

abbrev pub HeadingRead : Ctx → Option Heading → Ctx → Type 0
HeadingRead c r c' = Later c c' × ((h : Heading) → r ≡ some h → HeadingIn (count c'.constants) h)

-- One more round of `id_or_class`.
heading_again :
    (next : Heading → M (Option Heading)) (c : Ctx)
    → ((h : Heading) (d : Ctx)
        → IsCtx d
        → HeadingIn (count d.constants) h
        → length d.input < length c.input
        → Meets (HeadingRead d) (next h d))
    → (r : Option Heading) (c' : Ctx) → HeadingTaken c r c'
    → Meets (HeadingRead c) (on_option (pure none) next r c')
heading_again next c rec r c' (l, t) = on_option-Meets _ _ r c' (returns (l, λ h e. cc)) (λ h e.
    let (hin, shorter) = t h e in
    Meets-weaken (rec h c' l.valid hin shorter) (λ r' d (m, k). (Later-trans l m, k)))

pub id_or_class-Meets :
    (fuel : ℕ) (h : Heading) (c : Ctx)
    → IsCtx c
    → HeadingIn (count c.constants) h
    → length c.input < fuel
    → Meets (HeadingRead c) (id_or_class fuel h c)
unfolding id_or_class
id_or_class-Meets zero h c v hin lt = absurd (omega arith)
id_or_class-Meets (suc fuel) h c v hin lt =
    let rec =
      λ (h' : Heading) (d : Ctx) (w : IsCtx d) (k : HeadingIn (count d.constants) h')
          (m : length d.input < length c.input).
        id_or_class-Meets fuel h' d w k (omega arith) in
    elim (Bool-cases (char_at c.input 0 == b'#')) [
      | inl sharp ↦
          rw sharp (Meets-bind _ (read_id-Meets h c v hin) (heading_again (id_or_class fuel) c rec))
      | inr other ↦ elim (Bool-cases (char_at c.input 0 == b'.')) [
        | inl dot ↦
            rw (other, dot)
              (Meets-bind _ (read_class-Meets h c v hin) (heading_again (id_or_class fuel) c rec))
        | inr plain ↦
            rw (other, plain)
              (returns
                (Later-refl v, λ h' e. subst (HeadingIn (count c.constants)) (some_cancel e) hin))
      ]
    ]

-- Adding an attribute to an element of the context.
pub attribute_added :
    (n : Node) (a : Attr) (c d : Ctx)
    → Later c d
    → ElementIn (count d.constants) (count d.names) n
    → AttrIn (count d.constants) (count d.names) a
    → Meets (ElemIn c) (lift (muggin_add_attribute n a) d)
attribute_added n a c d l h ain =
    let (n', run, h') = muggin_add_attribute-ElementIn _ _ a h ain in rw run (returns (l, h'))

id_name : codes "id" ≢ []
id_name = cc

class_name : codes "class" ≢ []
class_name = cc

pub add_id-Meets :
    (o : Option ℕ) (n : Node) (c : Ctx)
    → IsCtx c
    → ElementIn (count c.constants) (count c.names) n
    → ((i : ℕ) → o ≡ some i → i < count c.constants)
    → Meets (ElemIn c) (add_id o n c)
unfolding add_id
add_id-Meets none n c v h k = returns (Later-refl v, h)
add_id-Meets (some i) n c v h k =
    Meets-bind _ (muggin_use_constant-Meets (codes "id") c v id_name) (λ name c₂ (l, _, lt).
      attribute_added n _ c c₂ l (ElementIn-Later l h)
        (lt, omega (arith, k i refl, l.constants_le)))

add_all-Meets :
    (is : List ℕ) (cs : Contents) (c : Ctx)
    → IsCtx c
    → ContentsIn (count c.constants) (count c.names) cs
    → All (λ i. i < count c.constants) is
    → Meets (TextIn c) (add_all is cs c)
unfolding add_all
add_all-Meets [] cs c v h a = returns (Later-refl v, h)
add_all-Meets (i ∷ is) cs c v h (lt, a) =
    Meets-bind _ (muggin_contents_add-Meets cs ct_constant i c v h lt) (λ cs₂ c₂ (l, h₂).
      Meets-weaken (add_all-Meets is cs₂ c₂ l.valid h₂ (All-lt_mono is l.constants_le a))
        (λ cs₃ c₃ t. TextIn-Later cs₃ l t))

pub add_classes-Meets :
    (is : List ℕ) (n : Node) (c : Ctx)
    → IsCtx c
    → ElementIn (count c.constants) (count c.names) n
    → All (λ i. i < count c.constants) is
    → Meets (ElemIn c) (add_classes is n c)
unfolding add_classes
add_classes-Meets [] n c v h a = returns (Later-refl v, h)
add_classes-Meets (i ∷ []) n c v h (k, _) =
    Meets-bind _ (muggin_use_constant-Meets (codes "class") c v class_name) (λ name c₂ (l, _, lt).
      attribute_added n _ c c₂ l (ElementIn-Later l h) (lt, omega (arith, k, l.constants_le)))
add_classes-Meets (i ∷ j ∷ is) n c v h a =
    Meets-bind _ (muggin_use_constant-Meets (codes "class") c v class_name) (λ name c₂ (l, _, lt).
      Meets-bind _
        (add_all-Meets (i ∷ j ∷ is) (record { contents = empty_array Content; separator = b' ' }) c₂
          l.valid ((omega arith, inl refl), tt) (All-lt_mono (i ∷ j ∷ is) l.constants_le a))
        (λ cs c₃ (l₂, hcs).
          let l₃ = Later-trans l l₂ in
          attribute_added n _ c c₃ l₃ (ElementIn-Later l₃ h)
            (omega (arith, lt, l₂.constants_le), hcs)))

pub read_attributes-Meets :
    (fuel : ℕ) (n : Node) (c : Ctx)
    → IsCtx c
    → ElementIn (count c.constants) (count c.names) n
    → length c.input < fuel
    → Meets (ElemIn c) (read_attributes fuel n c)
unfolding read_attributes
read_attributes-Meets zero n c v h lt = absurd (omega arith)
read_attributes-Meets (suc fuel) n c v h lt =
    Meets-bind _ (muggin_read_attribute-Meets c v) (λ r c₂ (l, read).
      on_option-Meets _ _ r c₂ (returns (l, ElementIn-Later l h)) (λ a e.
        let (ain, shorter) = read a e in
        let (n', run, h') = muggin_add_attribute-ElementIn _ _ a (ElementIn-Later l h) ain in
        rw run (
          Meets-weaken (read_attributes-Meets fuel n' c₂ l.valid h' (omega arith))
            (λ m d t. ElemIn-Later m l t))))
