-- ===== src/Parser/Lexical.antt =====
-- Indentation and names: muggin_read_indent, muggin_check_indent, the valid_ predicates,
-- is_void_element and muggin_read_constant of muggin.c.
use plmuggin.Base.{
  ℕ, suc, ◌+◌, Bool, true, false, not, ◌&&◌, ◌||◌, Option, none, some, List, [], ◌∷◌, ltb, leb,
  ◌==◌, if◌then◌else◌, Bytes, codes,
}
use plmuggin.Parser.Monad.{M, ◌>>=◌, ◌>>◌, pure, input, set_input, muggin_use_constant}
use plmuggin.Str.{str_eq, str_take}

-- the loop of muggin_read_indent: the indent and what is left of the input
unfoldable pub indent_of : ℕ → Bytes → ℕ × Bytes
indent_of n [] = (n, [])
indent_of n (c ∷ s) =
    let rest = indent_of (if c == b' ' then n + 1 else n + 8) s in
    if c == b' ' || c == b'\t' then rest else (n, c ∷ s)

unfoldable pub muggin_read_indent : M ℕ
unfolding indent_of
muggin_read_indent = do s ← input; let r = indent_of 0 s; set_input r.1; pure r.0

unfoldable pub muggin_check_indent : ℕ → M Bool
unfolding muggin_read_indent
muggin_check_indent expected = do
  orig_input ← input
  actual ← muggin_read_indent
  if expected == actual then pure true else do set_input orig_input; pure false

abbrev within : ℕ → ℕ → ℕ → Bool
within lo hi c = leb lo c && leb c hi

unfoldable pub valid_tag : ℕ → Bool → Bool
valid_tag ch first =
    if within b'a' b'z' ch
    then true
    else if within b'A' b'Z' ch
    then true
    else if not first
    then within b'0' b'9' ch || ch == b':' || ch == b'-'
    else false

unfoldable pub valid_attr : ℕ → Bool → Bool
unfolding valid_tag
valid_attr ch first =
    if ch == b'_' then true else if ch == b':' && not first then true else valid_tag ch first

abbrev pub valid_id : ℕ → Bool → Bool
valid_id = valid_tag

abbrev pub valid_class : ℕ → Bool → Bool
valid_class = valid_tag

abbrev pub void_elements : List Bytes
void_elements =
    codes "area"
    ∷ codes "base"
    ∷ codes "br"
    ∷ codes "col"
    ∷ codes "embed"
    ∷ codes "hr"
    ∷ codes "img"
    ∷ codes "input"
    ∷ codes "link"
    ∷ codes "meta"
    ∷ codes "param"
    ∷ codes "source"
    ∷ codes "track"
    ∷ codes "wbr"
    ∷ []

abbrev any_str_eq : List Bytes → Bytes → Bool
any_str_eq [] tag = false
any_str_eq (e ∷ es) tag = str_eq tag e || any_str_eq es tag

unfoldable pub is_void_element : Bytes → Bool
is_void_element = any_str_eq void_elements

-- the loop of muggin_read_constant: how many bytes it takes, and what is left of the input
unfoldable pub span : (ℕ → Bool → Bool) → Bool → Bytes → ℕ × Bytes
span valid first [] = (0, [])
span valid first (c ∷ s) =
    let rest = span valid false s in if valid c first then (suc rest.0, rest.1) else (0, c ∷ s)

-- muggin_read_constant: the id of the constant, or `none` for false
unfoldable pub muggin_read_constant : (ℕ → Bool → Bool) → M (Option ℕ)
unfolding span
muggin_read_constant valid = do
  orig ← input
  let r = span valid true orig
  set_input r.1
  if ltb 0 r.0 then (do id ← muggin_use_constant (str_take orig r.0); pure (some id)) else pure none
