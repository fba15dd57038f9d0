-- ===== src/Parser/Safety/Line.antt =====
-- The line of a node, up to its children, is read safely, and takes some of the input.
use plmuggin.Base.{
  ℕ, suc, ◌<◌, ◌≡◌, refl, Option, none, some, [], ◌∷◌, arith, Bytes, length, inl, inr, Bool-cases,
  ◌==◌, subst,
}
use plmuggin.Parser.Lexical.{valid_tag}
use plmuggin.Parser.Monad.{Ctx, expected_closing_paren}
use plmuggin.Parser.Safety.Attribute.{length_rest}
use plmuggin.Parser.Safety.Element.{
  string_at-Returns, ElemIn, ElemIn-Later, ElementIn-Later, HeadingIn, HeadingIn-mono,
  id_or_class-Meets, add_id-Meets, add_classes-Meets, read_attributes-Meets,
}
use plmuggin.Parser.Safety.Lexical.{muggin_check_indent-Meets, muggin_read_constant-Meets}
use plmuggin.Parser.Safety.Rules.{
  Meets, returns, faults, Meets-bind, Meets-weaken, IsCtx, Later, Later-refl, Later-trans,
  Later-input, Later-error, parse_error-Meets, on_option-Meets, some_cancel,
}
use plmuggin.Parser.Safety.Text.{muggin_contents_from_str-Meets}
use plmuggin.Parser.Tree.{
  constant, Heading, attribute_list, rest_of_line, add_text, text_node, element_body, element_line,
  node_line,
}
use plmuggin.Pool.{count}
use plmuggin.Str.Split.{length-str_drop, length-str_trim}
use plmuggin.Str.{str_drop, str_trim, char_at, str_splitat}
use plmuggin.Template.Scope.{
  ElementIn, is_element, element, none_left, text, muggin_add_child-ElementIn,
}
use plmuggin.Template.{Node, node_text, children_count}

-- If there is a node, it is an element of the later context.
abbrev pub ElemRead : Ctx → Option Node → Ctx → Type 0
ElemRead c r c' =
    Later c c' × ((n : Node) → r ≡ some n → ElementIn (count c'.constants) (count c'.names) n)

ElemRead-none : {c c' : Ctx} → Later c c' → ElemRead c none c'
ElemRead-none l = (l, λ n e. cc)

ElemRead-some : {c c' : Ctx} (n : Node) → ElemIn c n c' → ElemRead c (some n) c'
ElemRead-some {c'} n (l, h) =
    (l, λ m e. subst (ElementIn (count c'.constants) (count c'.names)) (some_cancel e) h)

ElemRead-Later : {a b c : Ctx} (r : Option Node) → Later a b → ElemRead b r c → ElemRead a r c
ElemRead-Later r l (m, h) = (Later-trans l m, h)

attribute_list-Meets :
    (n : Node) (c : Ctx)
    → IsCtx c
    → ElementIn (count c.constants) (count c.names) n
    → Meets (ElemRead c) (attribute_list n c)
unfolding attribute_list
attribute_list-Meets n c v h =
    let s = str_drop c.input 1 in
    let le = length-str_drop c.input 1 in
    let l₁ : Later c (record c { input = s }) = Later-input s (Later-refl v) (omega (arith, le)) in
    elim (Bool-cases (char_at c.input 0 == b'(')) [
      | inr plain ↦ rw plain (returns (ElemRead-some n (Later-refl v, h)))
      | inl paren ↦ rw paren (
          Meets-bind _
            (read_attributes-Meets (suc (length c.input)) n (record c { input = s }) l₁.valid h
              (omega (arith, le)))
            (λ n₂ c₂ (l₂, h₂).
              let l = Later-trans l₁ l₂ in
              elim (Bool-cases (char_at c₂.input 0 == b')')) [
                | inr open' ↦
                    rw open' (
                      parse_error-Meets expected_closing_paren c₂ (ElemRead-none (Later-error _ l)))
                | inl closed ↦ rw closed (
                    returns (
                      ElemRead-some n₂ (
                        Later-input (str_drop c₂.input 1) l
                            (omega (arith, length-str_drop c₂.input 1, l.shorter)),
                        h₂,
                      )))
              ]))
    ]

rest_of_line-Meets : (c : Ctx) → IsCtx c → Meets (λ _ c'. Later c c') (rest_of_line c)
unfolding rest_of_line
rest_of_line-Meets c v =
    on_option-Meets _ _ (str_splitat c.input (b'\n' ∷ [])) c
      (returns (Later-input [] (Later-refl v) (omega arith)))
      (λ cut e. returns (Later-input cut.1 (Later-refl v) (length_rest c.input (b'\n' ∷ []) e)))

add_text-Meets :
    (s : Bytes) (n : Node) (c : Ctx)
    → IsCtx c
    → ElementIn (count c.constants) (count c.names) n
    → Meets (ElemIn c) (add_text s n c)
unfolding add_text
add_text-Meets [] n c v h = returns (Later-refl v, h)
add_text-Meets (x ∷ s) n c v h =
    Meets-bind _ (muggin_contents_from_str-Meets (x ∷ s) c v) (λ cs c₂ (l, hcs).
      let (n', run, h') =
        muggin_add_child-ElementIn _ _ (node_text cs) (ElementIn-Later l h) (text hcs) in
      rw run (returns (l, h')))

element_body-Meets :
    (n : Node) (h : Heading) (c : Ctx)
    → IsCtx c
    → ElementIn (count c.constants) (count c.names) n
    → HeadingIn (count c.constants) h
    → Meets (ElemRead c) (element_body n h c)
unfolding element_body
element_body-Meets n h c v nin hin =
    Meets-bind _ (add_id-Meets h.id n c v nin hin.0) (λ n₁ c₁ (l₁, h₁).
      Meets-bind _
        (add_classes-Meets h.classes n₁ c₁ l₁.valid h₁ (HeadingIn-mono h l₁.constants_le hin).1)
        (λ n₂ c₂ (l₂, h₂).
          Meets-bind _ (attribute_list-Meets n₂ c₂ l₂.valid h₂) (λ r c₃ (l₃, listed).
            let l = Later-trans l₁ (Later-trans l₂ l₃) in
            on_option-Meets _ _ r c₃ (returns (ElemRead-none l)) (λ n₃ e.
              Meets-bind _ (rest_of_line-Meets c₃ l₃.valid) (λ content c₄ l₄.
                Meets-bind _
                  (add_text-Meets content n₃ c₄ l₄.valid (ElementIn-Later l₄ (listed n₃ e)))
                  (λ n₄ c₅ t.
                    returns (ElemRead-some n₄ (ElemIn-Later n₄ (Later-trans l l₄) t))))))))

constant-Meets :
    (id : ℕ) (c : Ctx)
    → IsCtx c
    → id < count c.constants
    → Meets (λ _ c'. Later c c') (constant id c)
unfolding constant
constant-Meets id c v lt =
    let (s, run) = string_at-Returns c.constants id v.constants lt in
    rw (run, constant) (returns (Later-refl v))

element_line-Meets :
    (tag : ℕ) (c : Ctx)
    → IsCtx c
    → tag < count c.constants
    → Meets (ElemRead c) (element_line tag c)
unfolding element_line
element_line-Meets tag c v lt = Meets-bind _ (constant-Meets tag c v lt) (λ name c₁ l₁.
    Meets-bind _
      (id_or_class-Meets (suc (length c₁.input)) (record { id = none; classes = [] }) c₁ l₁.valid
        ((λ i e. cc), tt, omega arith) (omega arith))
      (λ r c₂ (l₂, read).
        let l = Later-trans l₁ l₂ in
        on_option-Meets _ _ r c₂ (returns (ElemRead-none l)) (λ h e.
          Meets-weaken
            (element_body-Meets _ h c₂ l₂.valid
              (is_element (
                element (omega (arith, lt, l.constants_le)) (omega arith, inl refl) tt
                  (unfold children_count in omega arith) none_left))
              (read h e))
            (λ r' c₃ t. ElemRead-Later r' l t))))

-- A node has taken some of the input.
abbrev pub LineRead : Ctx → Option Node → Ctx → Type 0
LineRead c r c' =
    Later c c'
    × ((n : Node)
        → r ≡ some n
        → ElementIn (count c'.constants) (count c'.names) n × (length c'.input < length c.input))

text_node-Meets : {Q : Option Node → Ctx → Type 0} (c : Ctx) → IsCtx c → Meets Q (text_node c)
unfolding text_node
text_node-Meets c v =
    let s = str_trim (str_drop c.input 1) in
    let l : Later c (record c { input = s }) =
      Later-input s (Later-refl v)
        (omega (arith, length-str_trim (str_drop c.input 1), length-str_drop c.input 1)) in
    Meets-bind _ (rest_of_line-Meets (record c { input = s }) l.valid) (λ _ _ _. faults tt)

pub node_line-Meets : (c : Ctx) → IsCtx c → Meets (LineRead c) (node_line c)
unfolding node_line
node_line-Meets c v = Meets-bind _ (muggin_check_indent-Meets c.indent c v) (λ here c₁ l₁.
    elim (Bool-cases here) [
      | inr elsewhere ↦ rw elsewhere (returns (l₁, λ n e. cc))
      | inl same ↦ rw same (elim (Bool-cases (char_at c₁.input 0 == b'|')) [
        | inl bar ↦ rw bar (text_node-Meets c₁ l₁.valid)
        | inr tag ↦ rw tag (
            Meets-bind _ (muggin_read_constant-Meets valid_tag c₁ l₁.valid) (λ r c₂ (l₂, read).
              on_option-Meets _ _ r c₂ (returns (Later-trans l₁ l₂, λ n e. cc)) (λ id e.
                let (lt, shorter) = read id e in
                Meets-weaken (element_line-Meets id c₂ l₂.valid lt) (λ r' c₃ (l₃, t). (
                  Later-trans l₁ (Later-trans l₂ l₃),
                  λ n e'. (t n e', omega (arith, l₃.shorter, shorter, l₁.shorter)),
                )))))
      ])
    ])
