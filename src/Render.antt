-- ===== src/Render.antt =====
-- The renderer of muggin.c: muggin_scope_new, muggin_scope_bind, muggin_render and what they call.
-- The output functions of the column types and SPI are the database's, and the buffers are palloc's.
pub mod Html
pub mod Parsed
use plmuggin.Base.{
  ℕ, zero, suc, ◌+◌, Bool, true, false, not, ◌&&◌, Option, none, some, List, [], ◌∷◌, ◌++◌, ltb,
  ◌==◌, if◌then◌else◌, Bytes, codes, length, set, replicate,
}
use plmuggin.Parser.Tree.{string_at}
use plmuggin.Pool.{count, at, string_pool_lookup}
use plmuggin.Result.{Result, ok, fail, raised, out_of_bounds, uninitialised, ◌>>=◌}
use plmuggin.Strbuf.Palloc.{palloc}
use plmuggin.Strbuf.{
  Strbuf, strbuf_new, strbuf_append_str, strbuf_append_char, strbuf_append_str_escaped,
  strbuf_append_int,
}
use plmuggin.Template.{
  ContentType, ct_constant, ct_name, Content, Contents, AttrValue, at_constant, at_contents, Attr,
  Node, Nodes, nil, cons, node_text, node_element, Template,
}

-- m_Binding, once it is written: muggin_scope_bind_idx always sets BF_HAS_VALUE. `need_escape` is
-- the other flag.
pub record Binding : Type 0 where
  pub oid : ℕ
  pub value : ℕ
  pub need_escape : Bool

-- m_Scope.values: `none` is an entry that was allocated and never written.
abbrev pub Values : Type 0
Values = List (Option Binding)

-- SPITupleTable: the names and the types of the columns, and for each row the datum of a column,
-- counted from 1.
pub record Table : Type 0 where
  pub columns : List (Bytes × ℕ)
  pub rows : List (ℕ → ℕ)

-- The output function of a type, whose result is a C string, and SPI_execute_with_args: `none`
-- where its result is below 1 or where it gives no table.
pub record Database : Type 0 where
  pub output : ℕ → ℕ → Bytes
  pub execute : Bytes → List (ℕ × ℕ) → Option Table

-- muggin_scope_new
unfoldable pub muggin_scope_new : Template → Values
muggin_scope_new t = replicate (count t.names) none

unfoldable pub muggin_scope_bind_idx : Values → ℕ → Binding → Result Values
muggin_scope_bind_idx vs idx b =
    if ltb idx (length vs) then ok (set vs idx (some b)) else fail out_of_bounds

-- muggin_scope_bind: a name that the template does not have leaves the scope as it is
unfoldable pub muggin_scope_bind : Template → Values → Bytes → Binding → Result Values
unfolding muggin_scope_bind_idx
muggin_scope_bind t vs name b = do
  found ← string_pool_lookup t.names name
  elim found [ none ↦ ok vs | some idx ↦ muggin_scope_bind_idx vs idx b ]

-- `scope->values[id]` and the test of its flags
unfoldable pub binding : Values → ℕ → Result Binding
unfolding at
binding vs id = do b ← at vs id; elim b [ none ↦ fail uninitialised | some v ↦ ok v ]

-- the appends, whose result the renderer does not look at
unfoldable pub put_str : Bytes → Strbuf → Result Strbuf
unfolding strbuf_append_str
put_str s sb = do r ← strbuf_append_str palloc sb s; ok (r.1)

unfoldable pub put_char : ℕ → Strbuf → Result Strbuf
unfolding strbuf_append_char
put_char ch sb = do r ← strbuf_append_char palloc sb ch; ok (r.1)

unfoldable pub put_escaped : Bytes → Strbuf → Result Strbuf
unfolding strbuf_append_str_escaped
put_escaped s sb = do r ← strbuf_append_str_escaped palloc sb s; ok (r.1)

unfoldable pub put_int : ℕ → Strbuf → Result Strbuf
unfolding strbuf_append_int
put_int i sb = do r ← strbuf_append_int palloc sb i; ok (r.1)

-- CONSTANT(ctx->t, id), appended
unfoldable pub put_constant : Template → ℕ → Strbuf → Result Strbuf
unfolding put_str string_at
put_constant t id sb = do s ← string_at t.constants id; put_str s sb

-- the separator, before all but the first
unfoldable pub separate : ℕ → Bool → Strbuf → Result Strbuf
unfolding put_char
separate separator first sb =
    if not first && not (separator == 0) then put_char separator sb else ok sb

-- the value of a binding as text, escaped where its flag says so
unfoldable pub put_value : Database → Binding → Strbuf → Result Strbuf
unfolding put_escaped put_str
put_value db b sb =
    if b.need_escape
    then put_escaped (db.output b.oid b.value) sb
    else put_str (db.output b.oid b.value) sb

-- the switch of muggin_render_contents
unfoldable pub render_content :
    Database → Template → Values → ContentType → ℕ → Strbuf → Result Strbuf
unfolding put_constant binding put_value
render_content db t vs ct_constant id sb = put_constant t id sb
render_content db t vs ct_name id sb = do b ← binding vs id; put_value db b sb

unfoldable pub render_list :
    Database → Template → Values → ℕ → Bool → List Content → Strbuf → Result Strbuf
unfolding separate render_content
render_list db t vs separator first [] sb = ok sb
render_list db t vs separator first (c ∷ cs) sb = do
  sb₁ ← separate separator first sb
  sb₂ ← render_content db t vs c.type c.id sb₁
  render_list db t vs separator false cs sb₂

unfoldable pub muggin_render_contents :
    Database → Template → Values → Contents → Strbuf → Result Strbuf
unfolding render_list
muggin_render_contents db t vs cs = render_list db t vs cs.separator true cs.contents.items

-- the switch of `query`, with the arguments so far: a name becomes `$1`, `$2`, …
unfoldable pub query_content :
    Template → Values → ContentType → ℕ → List (ℕ × ℕ) → Strbuf → Result (List (ℕ × ℕ) × Strbuf)
unfolding put_constant binding put_char put_int
query_content t vs ct_constant id args sb = do sb' ← put_constant t id sb; ok (args, sb')
query_content t vs ct_name id args sb = do
  b ← binding vs id
  sb₁ ← put_char b'$' sb
  sb₂ ← put_int (length args + 1) sb₁
  ok (args ++ (b.oid, b.value) ∷ [], sb₂)

unfoldable pub query_list :
    Template
    → Values
    → ℕ
    → Bool
    → List Content
    → List (ℕ × ℕ)
    → Strbuf
    → Result (List (ℕ × ℕ) × Strbuf)
unfolding separate query_content
query_list t vs separator first [] args sb = ok (args, sb)
query_list t vs separator first (c ∷ cs) args sb = do
  sb₁ ← separate separator first sb
  (args', sb₂) ← query_content t vs c.type c.id args sb₁
  query_list t vs separator false cs args' sb₂

-- what a C string holds: the bytes before the first NUL
unfoldable pub c_string : Bytes → Bytes
c_string [] = []
c_string (zero ∷ s) = []
c_string (suc c ∷ s) = suc c ∷ c_string s

-- query, with the table that it leaves in SPI_tuptable
unfoldable pub query : Database → Template → Values → Contents → Result (Option Table)
unfolding query_list put_char c_string strbuf_new
query db t vs cs = elim (strbuf_new palloc) [
  | none ↦ fail out_of_bounds
  | some sb ↦ do
    (args, sb₁) ← query_list t vs cs.separator true cs.contents.items [] sb
    sb₂ ← put_char 0 sb₁
    ok (db.execute (c_string sb₂.text) args)
]

-- the switch over the type of an attribute
unfoldable pub render_value : Database → Template → Values → ℕ → AttrValue → Strbuf → Result Strbuf
unfolding put_char put_constant put_str muggin_render_contents
render_value db t vs name (at_constant id) sb = do
  sb₁ ← put_char b' ' sb
  sb₂ ← put_constant t name sb₁
  sb₃ ← put_str (codes "=\"") sb₂
  sb₄ ← put_constant t id sb₃
  put_char b'"' sb₄
render_value db t vs name (at_contents cs) sb = do
  sb₁ ← put_char b' ' sb
  sb₂ ← put_constant t name sb₁
  sb₃ ← put_str (codes "=\"") sb₂
  sb₄ ← muggin_render_contents db t vs cs sb₃
  put_char b'"' sb₄
render_value db t vs name _ sb = ok sb

-- `ctx->has_query && name == ctx->mq_idx`
unfoldable pub is_query : Option ℕ → ℕ → Bool
is_query none name = false
is_query (some mq_idx) name = name == mq_idx

-- the loop over the attributes, with the last "m:q" before them
unfoldable pub render_attributes :
    Database
    → Template
    → Values
    → Option ℕ
    → List Attr
    → Option AttrValue
    → Strbuf
    → Result (Option AttrValue × Strbuf)
unfolding is_query render_value
render_attributes db t vs mq [] last sb = ok (last, sb)
render_attributes db t vs mq (a ∷ as') last sb =
    let rest = render_attributes db t vs mq as' (some a.value) sb in
    if is_query mq a.name then rest else (do
      sb₁ ← render_value db t vs a.name a.value sb
      render_attributes db t vs mq as' last sb₁)

-- the contents of "m:q"; another member of the union would be read as a pointer
unfoldable pub query_contents : AttrValue → Result Contents
query_contents (at_contents cs) = ok cs
query_contents _ = fail out_of_bounds

-- the variable of each column, where the template has one
unfoldable pub resolve : Template → List (Bytes × ℕ) → Result (List (Option ℕ × ℕ))
resolve t [] = ok []
resolve t ((name, type) ∷ columns) = do
  found ← string_pool_lookup t.names name
  rest ← resolve t columns
  ok ((found, type) ∷ rest)

-- binds the columns of a row, from column `col` on
unfoldable pub bind_row : List (Option ℕ × ℕ) → ℕ → (ℕ → ℕ) → Values → Result Values
unfolding muggin_scope_bind_idx
bind_row [] col row vs = ok vs
bind_row ((none, type) ∷ columns) col row vs = bind_row columns (col + 1) row vs
bind_row ((some idx, type) ∷ columns) col row vs = do
  vs' ← muggin_scope_bind_idx vs idx (record { oid = type; value = row col; need_escape = true })
  bind_row columns (col + 1) row vs'

-- the scope and the output
abbrev pub State : Type 0
State = Values × Strbuf

-- the loop over the rows, each of which renders the children
unfoldable pub render_rows :
    (State → Result State) → List (Option ℕ × ℕ) → List (ℕ → ℕ) → State → Result State
unfolding bind_row
render_rows children columns [] st = ok st
render_rows children columns (row ∷ rows) st = do
  vs ← bind_row columns 1 row (st.0)
  st' ← children (vs, st.1)
  render_rows children columns rows st'

-- the children: once, or for every row of the query
unfoldable pub render_children :
    Database → Template → Option AttrValue → (State → Result State) → State → Result State
unfolding query query_contents resolve render_rows
render_children db t none children st = children st
render_children db t (some a) children st = do
  cs ← query_contents a
  table ← query db t (st.0) cs
  elim table [
    | none ↦ fail raised
    | some found ↦ do columns ← resolve t found.columns; render_rows children columns found.rows st
  ]

-- `</`, the tag and `>`
unfoldable pub close_tag : Template → ℕ → Strbuf → Result Strbuf
unfolding put_str put_constant put_char
close_tag t tag sb = do
  sb₁ ← put_str (codes "</") sb
  sb₂ ← put_constant t tag sb₁
  put_char b'>' sb₂

unfoldable mutual
  unfolding muggin_render_contents put_char put_constant render_attributes render_children close_tag

  pub muggin_render_node : Database → Template → Option ℕ → Node → State → Result State
  muggin_render_node db t mq (node_text cs) st = do
    sb ← muggin_render_contents db t (st.0) cs (st.1)
    ok (st.0, sb)
  muggin_render_node db t mq (node_element tag attributes children capacity void) st =
      let inner : State → Result State = render_nodes db t mq children in
      do
        sb₁ ← put_char b'<' (st.1)
        sb₂ ← put_constant t tag sb₁
        (last, sb₃) ← render_attributes db t (st.0) mq attributes.items none sb₂
        sb₄ ← put_char b'>' sb₃
        if void then ok (st.0, sb₄) else do
          st' ← render_children db t last inner (st.0, sb₄)
          sb₅ ← close_tag t tag (st'.1)
          ok (st'.0, sb₅)

  pub render_nodes : Database → Template → Option ℕ → Nodes → State → Result State
  render_nodes db t mq nil st = ok st
  render_nodes db t mq (cons n ns) st = do
    st' ← muggin_render_node db t mq n st
    render_nodes db t mq ns st'

-- muggin_render: the scope and the buffer that it leaves
unfoldable pub muggin_render : Database → Template → Values → Strbuf → Result State
unfolding put_str put_char muggin_render_node
muggin_render db t vs to = do
  mq ← string_pool_lookup t.constants (codes "m:q")
  sb ← put_str (codes "<!DOCTYPE html>\n") to
  st ← muggin_render_node db t mq t.root (vs, sb)
  sb' ← put_char 0 (st.1)
  ok (st.0, sb')
