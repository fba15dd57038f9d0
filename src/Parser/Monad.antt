-- ===== src/Parser/Monad.antt =====
-- The context that the parsing functions of muggin.c pass around, and what they do to it.
use plmuggin.Base.{ℕ, Option, none, some, Bytes}
use plmuggin.Pool.{Pool, string_pool_use}
use plmuggin.Result.{Fault, Result, ok, fail}

-- the messages of PARSE_ERROR
pub data ParseError : Type 0 where
  expected_attribute_name expected_equals unterminated_quoted_string : ParseError
  id_twice cannot_read_id cannot_read_class too_many_classes : ParseError
  expected_closing_paren : ParseError

-- _ctx, with the pools of its template
pub record Ctx : Type 0 where
  pub constants : Pool
  pub names : Pool
  pub indent : ℕ
  pub input : Bytes
  pub error : Option (ParseError × Bytes)

abbrev pub M : Type 0 → Type 0
M A = Ctx → Result (A × Ctx)

infixl 5 ◌>>=◌ ◌>>◌
abbrev pub ◌>>=◌ : {A B : Type 0} → M A → (A → M B) → M B
◌>>=◌ m f c = elim (m c) [ ok (a, c') ↦ f a c' | fail e ↦ fail e ]

abbrev pub ◌>>◌ : {B : Type 0} → M (Unit {0}) → M B → M B
m >> k = m >>= λ _. k

abbrev pub pure : {A : Type 0} → A → M A
pure a c = ok (a, c)

abbrev pub fault : {A : Type 0} → Fault → M A
fault e c = fail e

abbrev pub lift : {A : Type 0} → Result A → M A
lift r c = elim r [ ok a ↦ ok (a, c) | fail e ↦ fail e ]

-- The branch on whether a value was read.
unfoldable pub on_option : {A B : Type 0} → M B → (A → M B) → Option A → M B
on_option missing found none = missing
on_option missing found (some a) = found a

-- ctx->input
abbrev pub input : M Bytes
input c = ok (c.input, c)

abbrev pub set_input : Bytes → M (Unit {0})
set_input s c = ok (tt, record c { input = s })

abbrev pub indent : M ℕ
indent c = ok (c.indent, c)

abbrev pub set_indent : ℕ → M (Unit {0})
set_indent n c = ok (tt, record c { indent = n })

-- PARSE_ERROR, on the way to a function's `return false`
unfoldable pub parse_error : {A : Type 0} → ParseError → M (Option A)
parse_error e c = ok (none, record c { error = some (e, c.input) })

unfoldable pub muggin_use_constant : Bytes → M ℕ
muggin_use_constant s c = elim (string_pool_use c.constants s) [
  | ok (id, p) ↦ ok (id, record c { constants = p })
  | fail e ↦ fail e
]

unfoldable pub muggin_use_name : Bytes → M ℕ
muggin_use_name s c = elim (string_pool_use c.names s) [
  | ok (id, p) ↦ ok (id, record c { names = p })
  | fail e ↦ fail e
]
