-- ===== src/Mugshot/Endpoint.antt =====
-- The endpoints that mugshot/mugshot.c reads from the catalog: the text of a route, and the row that describes
-- a function. `text` is the buffer of the connection.
pub mod Route
use plmuggin.Base.{
  ℕ, zero, suc, ◌+◌, ◌-◌, ◌*◌, Bool, true, false, ◌||◌, Option, none, some, List, [], ◌∷◌, ltb,
  ◌==◌, if◌then◌else◌, Bytes, codes, length, take, drop,
}
use plmuggin.Mugshot.Http.{
  Method, get, head, post, put, delete, options, patch, HttpContentType, text_html, text_css,
  application_json, application_octet_stream,
}
use plmuggin.Mugshot.Worker.{EndpointArg, Endpoint}
use plmuggin.Pgwire.Value.{PgVal, get_i32, pg_value}
use plmuggin.Result.{Result, ok, fail, out_of_bounds, out_of_fuel, ◌>>=◌}
use plmuggin.Str.{str_startswith, str_drop, str_eq, str_splitat, char_at}

-- mugshot_http_method_string, in the order of the enum
abbrev pub method_names : List (Method × Bytes)
method_names =
    (get, codes "GET")
    ∷ (head, codes "HEAD")
    ∷ (post, codes "POST")
    ∷ (put, codes "PUT")
    ∷ (delete, codes "DELETE")
    ∷ (options, codes "OPTIONS")
    ∷ (patch, codes "PATCH")
    ∷ []

-- the loop of mugshot_read_method
unfoldable pub read_method_from : List (Method × Bytes) → Bytes → Option (Method × Bytes)
unfolding str_startswith str_drop
read_method_from [] route = none
read_method_from ((m, name) ∷ names) route =
    let later = read_method_from names route in
    if str_startswith route name then some (m, str_drop route (length name)) else later

-- mugshot_read_method: *method and the rest of *route, or `none` for false
unfoldable pub mugshot_read_method : Bytes → Option (Method × Bytes)
unfolding read_method_from
mugshot_read_method route = read_method_from method_names route

-- mugshot_read_content_type
unfoldable pub mugshot_read_content_type : Bytes → Option HttpContentType
unfolding str_eq
mugshot_read_content_type ct =
    if str_eq ct (codes "text") || str_eq ct (codes "text/html")
    then some text_html
    else if str_eq ct (codes "text/css")
    then some text_css
    else if str_eq ct (codes "bytea") || str_eq ct (codes "application/octet-stream")
    then some application_octet_stream
    else if str_eq ct (codes "application/json")
    then some application_json
    else none

-- a slice of the buffer
unfoldable pub slice : Bytes → ℕ → ℕ → Result Bytes
slice text pos len =
    if ltb (length text) (pos + len) then fail out_of_bounds else ok (take len (drop pos text))

-- the values of a PgVal that is not a success: all are 0
unfoldable pub value_or_zero : Option PgVal → PgVal
value_or_zero none = record { is_null = false; len = 0; buf_pos = 0 }
value_or_zero (some v) = v

-- `pg_value(conn, row, field)`, whose success is not looked at
unfoldable pub field : Bytes → Option ℕ → ℕ → Result PgVal
unfolding pg_value value_or_zero
field text row n = pg_value text row n >>= λ v. ok (value_or_zero v)

-- the loop over the types of the arguments, each behind a length, and the loop over their names
unfoldable pub read_args : ℕ → Bytes → ℕ → ℕ → Result (List EndpointArg)
unfolding get_i32 slice
read_args zero text types names = ok []
read_args (suc n) text types names = do
  oid ← get_i32 text (types + 4)
  len ← get_i32 text names
  name ← slice text (names + 4) len
  rest ← read_args n text (types + 8) (names + 4 + len)
  ok (record { name = name; oid = oid; path = false } ∷ rest)

-- the arguments with a name are in the path
unfoldable pub mark_arg : Bytes → List EndpointArg → List EndpointArg
unfolding str_eq
mark_arg name [] = []
mark_arg name (a ∷ args) =
    (if str_eq name a.name then record a { path = true } else a) ∷ mark_arg name args

-- the loop over the parts of the route
unfoldable pub mark_path : ℕ → Bytes → List EndpointArg → Result (List EndpointArg)
unfolding mark_arg str_splitat char_at
mark_path zero route args = fail out_of_fuel
mark_path (suc fuel) route args = elim (str_splitat route (codes "/")) [
  | none ↦ ok args
  | some (part, rest) ↦
      mark_path fuel rest (if char_at part 0 == b':' then mark_arg (str_drop part 1) args else args)
]

-- the part of mugshot_read_endpoint behind the arguments, with `none` for false
unfoldable pub read_route :
    Bytes → Bytes → Bytes → List EndpointArg → Bytes → Result (Option Endpoint)
unfolding mugshot_read_content_type mugshot_read_method mark_path
read_route schema content_type route args name = elim (mugshot_read_content_type content_type) [
  | none ↦ ok none
  | some type ↦ elim (mugshot_read_method route) [
    | none ↦ ok none
    | some (method, path) ↦ do
      marked ← mark_path (suc (length path)) path args
      ok (
          some (record {
            method = method;
            name = name;
            schema = schema;
            path = path;
            content_type = type;
            args = marked;
          }))
  ]
]

-- mugshot_read_endpoint, with memory for the arguments; the data of an array is 20 bytes behind its start
unfoldable pub mugshot_read_endpoint : Bytes → Bytes → Option ℕ → Result (Option Endpoint)
unfolding field read_args read_route get_i32 slice
mugshot_read_endpoint schema text row = do
  count ← field text row 0
  nargs ← get_i32 text count.buf_pos
  types ← field text row 1
  names ← field text row 2
  args ← read_args nargs text (types.buf_pos + 20) (names.buf_pos + 20)
  type_field ← field text row 3
  content_type ← slice text type_field.buf_pos type_field.len
  route_field ← field text row 4
  route ← slice text route_field.buf_pos route_field.len
  name_field ← field text row 5
  name ← slice text name_field.buf_pos name_field.len
  read_route schema content_type route args name
