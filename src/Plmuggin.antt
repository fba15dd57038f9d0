-- ===== src/Plmuggin.antt =====
-- The entry points of the extension, plmuggin.c: the language handler and load_template. The catalogs,
-- SPI and the conversion of the result are PostgreSQL's. elog(ERROR, …) leaves the function, and
-- PG_FINALLY of the handler throws the error again.
pub mod Arguments
pub mod Document
use plmuggin.Base.{
  ℕ, zero, suc, ◌+◌, Bool, true, Option, none, some, List, [], ◌∷◌, if◌then◌else◌, Bytes, codes,
}
use plmuggin.Parser.Tree.{muggin_parse}
use plmuggin.Pool.{at}
use plmuggin.Render.{
  Binding, Values, Database, muggin_scope_new, muggin_scope_bind, c_string, muggin_render,
}
use plmuggin.Result.{Result, ok, fail, raised, out_of_bounds, ◌>>=◌}
use plmuggin.Strbuf.Palloc.{palloc}
use plmuggin.Strbuf.{Strbuf, strbuf_new}
use plmuggin.Template.{Template}

-- What the catalog and get_func_arg_info say of a function: `numargs` counts its OUT arguments too,
-- `proargtypes` holds the types of its IN arguments, and there are no names at all where no argument
-- has one.
pub record Procedure : Type 0 where
  pub prosrc : Option Bytes
  pub numargs : ℕ
  pub argnames : Option (List Bytes)
  pub proargtypes : List ℕ
  pub prorettype : ℕ

-- PostgreSQL around a call. The input function of a type takes a C string and may raise an error.
pub record Server : Type 0 where
  pub procedure : ℕ → Option Procedure
  pub spi_connect : Bool
  pub input_function : ℕ → Option (Bytes → Result ℕ)
  pub database : Database

-- fcinfo; `isnull` of the arguments is not looked at
pub record Call : Type 0 where
  pub fn_oid : ℕ
  pub args : List ℕ

-- SearchSysCache1 and SysCacheGetAttr, whose failure is an elog(ERROR, …)
unfoldable pub expect_found {ℓ} : {A : Type ℓ} → Option A → Result A
expect_found none = fail raised
expect_found (some a) = ok a

-- `argnames[i]`, up to its NUL; the array is NULL where no argument has a name
unfoldable pub argument_name : Procedure → ℕ → Result Bytes
unfolding at c_string
argument_name p i = elim p.argnames [
  | none ↦ fail out_of_bounds
  | some names ↦ do name ← at names i; ok (c_string name)
]

-- the loop that binds the arguments, from the argument `i` on, of which `left` are left
unfoldable pub bind_arguments : ℕ → ℕ → Template → Procedure → List ℕ → Values → Result Values
unfolding at argument_name muggin_scope_bind
bind_arguments zero i t p args vs = ok vs
bind_arguments (suc left) i t p args vs = do
  argtype ← at p.proargtypes i
  name ← argument_name p i
  value ← at args i
  vs' ← muggin_scope_bind t vs name (record { oid = argtype; value = value; need_escape = true })
  bind_arguments left (i + 1) t p args vs'

-- the rendered text, a C string, as a value of the type that the function returns
unfoldable pub result_datum :
    Option (Bytes → Result ℕ) → Database → Template → Values → Strbuf → Result ℕ
unfolding expect_found muggin_render c_string
result_datum input db t vs rendered = do
  result_in_func ← expect_found input
  st ← muggin_render db t vs rendered
  result_in_func (c_string (st.1.text))

unfoldable pub plmuggin_func_handler : Server → Call → Result ℕ
unfolding strbuf_new expect_found c_string muggin_parse muggin_scope_new bind_arguments result_datum
plmuggin_func_handler server call = do
  rendered ← expect_found (strbuf_new palloc)
  p ← expect_found (server.procedure call.fn_oid)
  source ← expect_found p.prosrc
  connected ← expect_found (if server.spi_connect then some true else none)
  parsed ← muggin_parse (c_string source)
  t ← expect_found parsed
  vs ← bind_arguments p.numargs 0 t p call.args (muggin_scope_new t)
  result_datum (server.input_function p.prorettype) server.database t vs rendered

-- the entry point; nothing stands in its PG_FINALLY
unfoldable pub plmuggin_call_handler : Server → Call → Result ℕ
unfolding plmuggin_func_handler
plmuggin_call_handler server call = plmuggin_func_handler server call

abbrev pub text_oid : ℕ
text_oid = 25

-- load_template, where `cstring` is CStringGetDatum of the name; an entry that is found has one
-- column. No code calls the function that muggin_parse is given.
unfoldable pub load_template : Database → (Bytes → ℕ) → Bytes → Result Bytes
unfolding c_string
load_template db cstring name =
    elim (db.execute
      (codes "SELECT prosrc  FROM pg_proc WHERE proname = $0 ORDER BY oid DESC LIMIT 1")
      ((text_oid, cstring name) ∷ [])) [
        | none ↦ fail raised
        | some table ↦ elim table.rows [
          | [] ↦ fail raised
          | row ∷ _ ↦ elim table.columns [
            | [] ↦ fail out_of_bounds
            | (_, type) ∷ _ ↦ ok (c_string (db.output type (row 1)))
          ]
        ]
      ]
