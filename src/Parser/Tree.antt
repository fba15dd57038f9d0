-- ===== src/Parser/Tree.antt =====
-- muggin_parse_node, muggin_skip_metadata and muggin_parse of muggin.c.
use plmuggin.Base.{
  ℕ, zero, suc, ◌+◌, not, ◌&&◌, Option, none, some, List, [], ◌∷◌, ◌++◌, ◌==◌, if◌then◌else◌, Bytes,
  length, codes, ltb,
}
use plmuggin.Parser.Attribute.{muggin_read_attribute}
use plmuggin.Parser.Lexical.{
  valid_tag, valid_id, valid_class, is_void_element, muggin_check_indent, muggin_read_constant,
}
use plmuggin.Parser.Monad.{
  Ctx, M, ◌>>=◌, ◌>>◌, pure, fault, lift, input, set_input, indent, set_indent, parse_error,
  on_option, muggin_use_constant, id_twice, cannot_read_id, cannot_read_class, too_many_classes,
  expected_closing_paren,
}
use plmuggin.Parser.Text.{muggin_contents_add, muggin_contents_from_str}
use plmuggin.Pool.{Pool, at, empty_pool}
use plmuggin.Result.{Result, ok, fail, out_of_bounds, uninitialised, out_of_fuel}
use plmuggin.Str.{char_at, str_drop, str_ltrim, str_trim, str_splitat}
use plmuggin.Template.{
  empty_array, ct_constant, Content, Contents, Attr, at_constant, at_contents, Node, node_text,
  node_element, nil, Template, muggin_add_attribute, muggin_add_child,
}

-- CONSTANT and NAME: the string with an id
unfoldable pub string_at : Pool → ℕ → Result Bytes
unfolding at
string_at p id = elim (at p.idx id) [ ok i ↦ at p.slots i | fail e ↦ fail e ]

-- CONSTANT(ctx->t, id)
unfoldable pub constant : ℕ → M Bytes
unfolding string_at
constant id c = lift (string_at c.constants id) c

-- the elements of class_constants
abbrev pub max_classes : ℕ
max_classes = 64

-- has_id with id_constant, and class_constants as far as it is written; `classes` is the length of
-- the list
pub record Heading : Type 0 where
  pub id : Option ℕ
  pub classes : List ℕ

-- '#' at `id_or_class`
unfoldable pub read_id : Heading → M (Option Heading)
unfolding on_option
read_id h =
    on_option
      (do
        s ← input
        set_input (str_drop s 1)
        id ← muggin_read_constant valid_id
        on_option (parse_error cannot_read_id) (λ i. pure (some (record h { id = some i }))) id)
      (λ _. parse_error id_twice) h.id

-- class_constants[classes++] = class
unfoldable pub write_class : ℕ → Heading → M (Option Heading)
write_class class h =
    if ltb (length h.classes) max_classes
    then pure (some (record h { classes = h.classes ++ class ∷ [] }))
    else fault out_of_bounds

-- '.' at `id_or_class`
unfoldable pub read_class : Heading → M (Option Heading)
unfolding on_option write_class
read_class h = do
  s ← input
  set_input (str_drop s 1)
  class ← muggin_read_constant valid_class
  on_option (parse_error cannot_read_class)
      (λ i. if length h.classes == 64 then parse_error too_many_classes else write_class i h) class

-- the loop `id_or_class`; `none` is the way to `fail`
unfoldable pub id_or_class : ℕ → Heading → M (Option Heading)
unfolding read_id read_class on_option
id_or_class zero h = fault out_of_fuel
id_or_class (suc fuel) h = do
  s ← input
  if char_at s 0 == b'#'
      then (read_id h >>= on_option (pure none) (λ h'. id_or_class fuel h'))
      else if char_at s 0 == b'.'
      then (read_class h >>= on_option (pure none) (λ h'. id_or_class fuel h'))
      else pure (some h)

unfoldable pub add_id : Option ℕ → Node → M Node
unfolding muggin_add_attribute
add_id none n = pure n
add_id (some i) n = do
  name ← muggin_use_constant (codes "id")
  lift (muggin_add_attribute n (record { name = name; value = at_constant i }))

unfoldable pub add_all : List ℕ → Contents → M Contents
unfolding muggin_contents_add
add_all [] contents = pure contents
add_all (i ∷ is) contents = do
  contents' ← muggin_contents_add contents ct_constant i
  add_all is contents'

unfoldable pub add_classes : List ℕ → Node → M Node
unfolding muggin_add_attribute add_all
add_classes [] n = pure n
add_classes (i ∷ []) n = do
  name ← muggin_use_constant (codes "class")
  lift (muggin_add_attribute n (record { name = name; value = at_constant i }))
add_classes (i ∷ j ∷ is) n = do
  name ← muggin_use_constant (codes "class")
  contents ← add_all (i ∷ j ∷ is) (record { contents = empty_array Content; separator = b' ' })
  lift (muggin_add_attribute n (record { name = name; value = at_contents contents }))

-- `while(muggin_read_attribute(…)) muggin_add_attribute(…)`
unfoldable pub read_attributes : ℕ → Node → M Node
unfolding muggin_add_attribute on_option
read_attributes zero n = fault out_of_fuel
read_attributes (suc fuel) n = do
  attr ← muggin_read_attribute
  on_option (pure n) (λ a. lift (muggin_add_attribute n a) >>= λ n'. read_attributes fuel n') attr

-- the parenthesised attributes, if any; `none` is the way to `fail`
unfoldable pub attribute_list : Node → M (Option Node)
unfolding read_attributes
attribute_list n = do
  s ← input
  if not (char_at s 0 == b'(') then pure (some n) else do
    set_input (str_drop s 1)
    n' ← read_attributes (suc (length s)) n
    s' ← input
    if not (char_at s' 0 == b')')
        then parse_error expected_closing_paren
        else (do set_input (str_drop s' 1); pure (some n'))

-- the rest of a line, trimmed, with the input set behind it
unfoldable pub rest_of_line : M Bytes
unfolding on_option
rest_of_line = do
  s ← input
  on_option (do set_input []; pure (str_trim s))
      (λ (line, rest). do set_input rest; pure (str_trim line)) (str_splitat s (b'\n' ∷ []))

unfoldable pub add_text : Bytes → Node → M Node
unfolding muggin_add_child
add_text [] n = pure n
add_text (c ∷ s) n = do
  contents ← muggin_contents_from_str (c ∷ s)
  lift (muggin_add_child n (node_text contents))

-- A line that begins with '|'. The node is allocated, and its `contents`, to which
-- muggin_contents_from_str then writes, is left as the allocation gave it.
unfoldable pub text_node : M (Option Node)
text_node = do s ← input; set_input (str_trim (str_drop s 1)); _ ← rest_of_line; fault uninitialised

-- an element behind its heading, up to its children; `none` is the way to `fail`
unfoldable pub element_body : Node → Heading → M (Option Node)
unfolding add_id add_classes attribute_list rest_of_line add_text on_option
element_body start h = do
  n₁ ← add_id h.id start
  n₂ ← add_classes h.classes n₁
  listed ← attribute_list n₂
  on_option (pure none) (λ n₃. do content ← rest_of_line; n₄ ← add_text content n₃; pure (some n₄))
      listed

-- an element behind its tag, up to its children
unfoldable pub element_line : ℕ → M (Option Node)
unfolding constant is_void_element id_or_class element_body on_option
element_line tag = do
  name ← constant tag
  s ← input
  heading ← id_or_class (suc (length s)) (record { id = none; classes = [] })
  on_option (pure none)
      (element_body (node_element tag (empty_array Attr) nil 0 (is_void_element name))) heading

-- what muggin_parse_node reads before the children
unfoldable pub node_line : M (Option Node)
unfolding text_node element_line on_option
node_line = do
  level ← indent
  here ← muggin_check_indent level
  if not here then pure none else do
    s ← input
    if char_at s 0 == b'|'
        then text_node
        else do tag ← muggin_read_constant valid_tag; on_option (pure none) element_line tag

-- muggin_parse_node and its loop over the children; `none` is false
unfoldable mutual
  unfolding node_line on_option

  pub muggin_parse_node : ℕ → M (Option Node)
  muggin_parse_node zero = fault out_of_fuel
  muggin_parse_node (suc fuel) = do
    line ← node_line
    on_option (pure none)
        (λ n. do
          current_indent ← indent
          set_indent (current_indent + 2)
          n' ← parse_children fuel n
          set_indent current_indent
          pure (some n'))
        line

  pub parse_children : ℕ → Node → M Node
  parse_children zero n = fault out_of_fuel
  parse_children (suc fuel) n = do
    child ← muggin_parse_node fuel
    on_option (pure n) (λ m. lift (muggin_add_child n m) >>= λ n'. parse_children fuel n') child

-- the loop of muggin_skip_metadata, with the two bytes before `s`; `none` where no "---" is met
unfoldable pub metadata_end : ℕ → ℕ → Bytes → Option Bytes
metadata_end d₁ d₂ [] = none
metadata_end d₁ d₂ (d₃ ∷ s) =
    let rest = metadata_end d₂ d₃ s in
    if d₃ == b'-' && d₂ == b'-' && d₁ == b'-' then some s else rest

unfoldable pub muggin_skip_metadata : Bytes → Bytes
unfolding metadata_end
muggin_skip_metadata s = elim (metadata_end (char_at s 0) (char_at s 1) (str_drop s 2)) [
  | none ↦ s
  | some rest ↦ str_ltrim rest
]

-- two calls for each byte at most, and one more that fails
abbrev pub parse_fuel : Bytes → ℕ
parse_fuel s = length s + length s + 3

-- the end of muggin_parse: the template with the root, or `none` for NULL
unfoldable pub template_of : Result (Option Node × Ctx) → Result (Option Template)
template_of (fail e) = fail e
template_of (ok (none, c)) = ok none
template_of (ok (some root, c)) =
    ok (some (record { constants = c.constants; names = c.names; root = root }))

-- the context in which muggin_parse begins
abbrev pub new_ctx : Bytes → Ctx
new_ctx s = record {
  constants = empty_pool;
  names = empty_pool;
  indent = 0;
  input = s;
  error = none;
}

unfoldable pub muggin_parse : Bytes → Result (Option Template)
unfolding muggin_parse_node muggin_skip_metadata template_of
muggin_parse text =
    let s = str_ltrim (muggin_skip_metadata text) in
    template_of (muggin_parse_node (parse_fuel s) (new_ctx s))
