-- ===== src/Parser/Text.antt =====
-- Text with {{ mustache }} references: muggin_contents_add, muggin_contents_add_str and
-- muggin_contents_from_str of muggin.c.
use plmuggin.Base.{
  ℕ, zero, suc, ◌+◌, Option, none, some, [], ◌∷◌, ltb, ◌==◌, if◌then◌else◌, Bytes, length,
}
use plmuggin.Parser.Monad.{M, ◌>>=◌, pure, fault, lift, muggin_use_constant, muggin_use_name}
use plmuggin.Result.{raised, out_of_fuel}
use plmuggin.Str.{char_at, str_drop, str_take, str_indexof, str_ltrim, str_rtrim}
use plmuggin.Template.{empty_array, push, ContentType, ct_constant, ct_name, Content, Contents}

-- muggin_contents_add, which returns true: `_grow` gets its memory
unfoldable pub muggin_contents_add : Contents → ContentType → ℕ → M Contents
unfolding push
muggin_contents_add contents type id = do
  grown ← lift (push contents.contents (record { id = id; type = type }))
  pure (record contents { contents = grown })

unfoldable pub muggin_contents_add_str : Contents → ContentType → Bytes → M Contents
unfolding muggin_contents_add
muggin_contents_add_str contents ct_constant content = do
  id ← muggin_use_constant content
  muggin_contents_add contents ct_constant id
muggin_contents_add_str contents ct_name content = do
  id ← muggin_use_name content
  muggin_contents_add contents ct_name id

-- Is there a "{{" at the first '{' of the text, and where?
unfoldable pub mustache : Bytes → Option ℕ
mustache s = elim (str_indexof s b'{') [
  | none ↦ none
  | some i ↦ if char_at s (i + 1) == b'{' then some i else none
]

-- The name behind "{{", and what follows its "}}"; an error where that is missing.
unfoldable pub reference : Bytes → M (Bytes × Bytes)
reference s = elim (str_indexof s b'}') [
  | none ↦ fault raised
  | some i ↦
      if char_at s (i + 1) == b'}'
      then pure (str_rtrim (str_take s i), str_drop s (i + 2))
      else fault raised
]

-- the constant before "{{"
unfoldable pub add_before : Contents → Bytes → ℕ → M Contents
unfolding muggin_contents_add_str
add_before contents s i =
    if ltb 0 i then muggin_contents_add_str contents ct_constant (str_take s i) else pure contents

-- the rest of the text, with no reference in it
unfoldable pub add_rest : Contents → Bytes → M Contents
unfolding muggin_contents_add_str
add_rest contents [] = pure contents
add_rest contents (c ∷ s) = muggin_contents_add_str contents ct_constant (c ∷ s)

-- the loop `again`, with a round for each reference
unfoldable pub contents_from : ℕ → Contents → Bytes → M Contents
unfolding mustache reference add_before add_rest muggin_contents_add_str
contents_from zero contents s = fault out_of_fuel
contents_from (suc fuel) contents s = elim (mustache s) [
  | none ↦ add_rest contents s
  | some i ↦ do
    contents' ← add_before contents s i
    let behind = if ltb 0 i then str_drop s i else s
    named ← reference (str_ltrim (str_drop behind 2))
    contents'' ← muggin_contents_add_str contents' ct_name named.0
    contents_from fuel contents'' named.1
]

-- muggin_contents_from_str
unfoldable pub muggin_contents_from_str : Bytes → M Contents
unfolding contents_from
muggin_contents_from_str s =
    contents_from (suc (length s)) (record { contents = empty_array Content; separator = 0 }) s
