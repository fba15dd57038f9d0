-- ===== src/Parser/Safety/Tree.antt =====
-- muggin_parse of muggin.c is safe: its recursion ends, and the template is well formed.
use plmuggin.Base.{
  ℕ, zero, suc, ◌+◌, ◌<◌, ◌≡◌, refl, subst, Option, none, some, arith, Bytes, length,
}
use plmuggin.Parser.Monad.{Ctx}
use plmuggin.Parser.Safety.Line.{node_line-Meets}
use plmuggin.Parser.Safety.Element.{ElemIn, ElemIn-Later, ElementIn-Later}
use plmuggin.Parser.Safety.Rules.{
  IsAllowed, Meets, returns, faults, Meets-bind, Meets-weaken, IsCtx, Later, Later-trans,
  on_option-Meets, some_cancel,
}
use plmuggin.Parser.Tree.{
  muggin_parse_node, parse_children, parse_fuel, new_ctx, template_of, muggin_skip_metadata,
  muggin_parse,
}
use plmuggin.Pool.Intern.{empty_pool-IsPool}
use plmuggin.Pool.Slots.{IsPool}
use plmuggin.Pool.{count}
use plmuggin.Result.{Fault, Result, ok, fail}
use plmuggin.Str.{str_ltrim}
use plmuggin.Template.Scope.{ElementIn, NodeIn, NodeIn-ElementIn, muggin_add_child-ElementIn}
use plmuggin.Template.{Node, Template}

Later-indent :
    {c d : Ctx}
    → Later (record c { indent = c.indent + 2 }) d
    → Later c (record d { indent = c.indent })
Later-indent l = record {
  valid = record { constants = l.valid.constants; names = l.valid.names };
  constants_le = l.constants_le;
  names_le = l.names_le;
  shorter = l.shorter;
  level = refl;
}

-- A node has taken some of the input, and is one of the later context.
abbrev NodeTaken : Ctx → Option Node → Ctx → Type 0
NodeTaken c r c' =
    Later c c'
    × ((n : Node)
        → r ≡ some n
        → ElementIn (count c'.constants) (count c'.names) n × (length c'.input < length c.input))

mutual
  unfolding muggin_parse_node

  node-Meets :
      (fuel : ℕ) (c : Ctx)
      → IsCtx c
      → length c.input + length c.input < fuel
      → Meets (NodeTaken c) (muggin_parse_node fuel c)
  node-Meets zero c v lt = absurd (omega arith)
  node-Meets (suc fuel) c v lt = Meets-bind _ (node_line-Meets c v) (λ r c₁ (l₁, line).
      on_option-Meets _ _ r c₁ (returns (l₁, λ n e. cc)) (λ n e.
        let (h, shorter) = line n e in
        let c₂ : Ctx = record c₁ { indent = c₁.indent + 2 } in
        let w : IsCtx c₂ = record { constants = l₁.valid.constants; names = l₁.valid.names } in
        Meets-bind _ (children-Meets fuel n c₂ w h (omega arith)) (λ n' c₃ (l₃, h').
          let l = Later-trans l₁ (Later-indent l₃) in
          returns (
            l,
            λ m e'. (
              subst (ElementIn (count c₃.constants) (count c₃.names)) (some_cancel e') h',
              omega (arith, l₃.shorter, shorter),
            ),
          ))))

  children-Meets :
      (fuel : ℕ) (n : Node) (c : Ctx)
      → IsCtx c
      → ElementIn (count c.constants) (count c.names) n
      → length c.input + length c.input + 1 < fuel
      → Meets (ElemIn c) (parse_children fuel n c)
  children-Meets zero n c v h lt = absurd (omega arith)
  children-Meets (suc fuel) n c v h lt =
      Meets-bind _ (node-Meets fuel c v (omega arith)) (λ r c₁ (l₁, read).
        on_option-Meets _ _ r c₁ (returns (l₁, ElementIn-Later l₁ h)) (λ m e.
          let (hm, shorter) = read m e in
          let (n', run, h') =
            muggin_add_child-ElementIn _ _ m (ElementIn-Later l₁ h) (NodeIn-ElementIn _ _ hm) in
          rw run (
            Meets-weaken (children-Meets fuel n' c₁ l₁.valid h' (omega arith))
              (λ k c₂ t. ElemIn-Later k l₁ t))))

-- The pools of a template are well formed, and its tree has the ids of these pools only.
pub record IsTemplate (t : Template) : Type 0 where
  pub constants : IsPool t.constants
  pub names : IsPool t.names
  pub root : NodeIn (count t.constants) (count t.names) t.root

-- How muggin_parse may end: with NULL, with a good template, or in a fault of the given ones.
pub data Parsed : Result (Option Template) → Type 0 where
  refused : Parsed (ok none)
  parsed : {t : Template} → IsTemplate t → Parsed (ok (some t))
  stopped : {e : Fault} → IsAllowed e → Parsed (fail e)

template_of-Parsed :
    (c : Ctx) (r : Result (Option Node × Ctx)) → Meets (NodeTaken c) r → Parsed (template_of r)
unfolding template_of
template_of-Parsed c _ (faults h) = stopped h
template_of-Parsed c _ (returns {a = none} h) = refused
template_of-Parsed c _ (returns {a = some n} (l, h)) = parsed (record {
  constants = l.valid.constants;
  names = l.valid.names;
  root = NodeIn-ElementIn _ _ ((h n refl).0);
})

-- On every text muggin_parse ends without running out of the recursion of two calls for each
-- byte: it returns NULL, or a template with two well-formed pools and a tree that has only
-- ids of these pools and whose arrays hold what is in them, or it stops in one of three faults:
-- an error raised on purpose, the write through the unset contents of a text node, and the
-- endless search for the end of a value. It neither reads nor writes outside an array.
pub muggin_parse-Parsed : (text : Bytes) → Parsed (muggin_parse text)
unfolding muggin_parse
muggin_parse-Parsed text =
    let s = str_ltrim (muggin_skip_metadata text) in
    template_of-Parsed (new_ctx s) _ (
      node-Meets (parse_fuel s) (new_ctx s)
        (record { constants = empty_pool-IsPool; names = empty_pool-IsPool }) (omega arith))
