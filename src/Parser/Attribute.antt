-- ===== src/Parser/Attribute.antt =====
-- muggin_read_attribute of muggin.c.
use plmuggin.Base.{
  ℕ, zero, suc, ◌+◌, ◌-◌, Bool, not, ◌||◌, Option, none, some, [], ◌∷◌, ◌==◌, if◌then◌else◌, Bytes,
  length,
}
use plmuggin.Parser.Lexical.{valid_attr, muggin_read_constant}
use plmuggin.Parser.Monad.{
  M, ◌>>=◌, ◌>>◌, pure, fault, input, set_input, parse_error, on_option, expected_attribute_name,
  expected_equals, unterminated_quoted_string,
}
use plmuggin.Parser.Text.{muggin_contents_from_str}
use plmuggin.Result.{endless}
use plmuggin.Str.{char_at, str_drop, str_take, str_ltrim, str_splitat}
use plmuggin.Template.{Attr, at_contents}

-- the test that ends the loop over an unquoted value
abbrev pub ends_value : ℕ → Bool
ends_value ch = ch == b' ' || ch == b'\t' || ch == b'\n' || ch == b')'

-- The loop `do ch = str_char_at(input, len++) while(…)`, for `rounds` rounds from `len` on: the
-- length that it leaves and the byte that ended it, or `none` if it is still running.
unfoldable pub value_end : ℕ → Bytes → ℕ → Option (ℕ × ℕ)
value_end zero s len = none
value_end (suc rounds) s len =
    let rest = value_end rounds s (len + 1) in
    let ch = char_at s len in if ends_value ch then some (len + 1, ch) else rest

-- The unquoted value. A round behind the end of the input reads the NUL byte, and so do all that
-- follow, so the loop ends within the rounds given or not at all.
unfoldable pub raw_value : ℕ → M (Option Attr)
unfolding value_end on_option
raw_value name = do
  s ← input
  on_option (fault endless)
      (λ (len, ch). do
        set_input (str_drop s (if ch == b')' then len - 1 else len))
        contents ← muggin_contents_from_str (str_take s (len - 1))
        pure (some (record { name = name; value = at_contents contents })))
      (value_end (suc (length s)) s 0)

-- the quoted value, behind its opening quote
unfoldable pub quoted_value : ℕ → M (Option Attr)
unfolding on_option
quoted_value name = do
  s ← input
  on_option (parse_error unterminated_quoted_string)
      (λ (val, rest). do
        contents ← muggin_contents_from_str val
        set_input rest
        pure (some (record { name = name; value = at_contents contents })))
      (str_splitat s (b'"' ∷ []))

-- '=' and the value behind an attribute's name
unfoldable pub attribute_value : ℕ → M (Option Attr)
unfolding raw_value quoted_value
attribute_value name = do
  s ← input
  set_input (str_ltrim s)
  if not (char_at (str_ltrim s) 0 == b'=') then parse_error expected_equals else do
    set_input (str_ltrim (str_drop (str_ltrim s) 1))
    v ← input
    if char_at v 0 == b'"' then (do set_input (str_drop v 1); quoted_value name) else raw_value name

-- muggin_read_attribute: the attribute, or `none` for false
unfoldable pub muggin_read_attribute : M (Option Attr)
unfolding attribute_value on_option
muggin_read_attribute = do
  s ← input
  set_input (str_ltrim s)
  if char_at (str_ltrim s) 0 == b')' then pure none else do
    name ← muggin_read_constant valid_attr
    on_option (parse_error expected_attribute_name) attribute_value name
