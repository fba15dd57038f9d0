-- ===== src/Tests.antt =====
-- Runs of the modelled code on concrete inputs, and the theorems applied to them.
mod Page
mod Extension
mod Session
mod Serve
mod Digest
mod Http
mod Wire
mod Settings
use plmuggin.Base.{
  Option, ◌*◌, ◌↔◌, ℕ, ◌<◌, ◌≤◌, ◌≡◌, refl, Bool, true, false, none, some, inl, List, [], ◌∷◌, ◌++◌,
  arith, Bytes, codes, length, set, replicate, All, Lacks,
}
use plmuggin.Base.{of_8}
use plmuggin.Mugshot.Arena.{Arena, Allocates, mugshot_arena_alloc, mugshot_arena_alloc-Allocates}
use plmuggin.Mugshot.Route.{
  lookup, get_form_parameter, get_form_parameter-lookup, mugshot_path_match,
  mugshot_path_match-Returns, mugshot_path_match-literal,
}
use plmuggin.Mugshot.Base64.{
  base64_encode, base64_decode_mut, base64_decode_mut-base64_encode, base64_encode_room,
}
use plmuggin.Parser.Safety.Tree.{Parsed, muggin_parse-Parsed}
use plmuggin.Parser.Tree.{muggin_parse}
use plmuggin.Pgwire.Frames.{
  message, query_messages, pg_put_query-query_messages, pg_put_query-Returns,
}
use plmuggin.Pgwire.Value.{pg_value}
use plmuggin.Str.Url.{str_urldecode, urlencode, str_urldecode-urlencode}
use plmuggin.Pgwire.Read.{read_msg, read_msg-message}
use plmuggin.Pgwire.{Conn, pg_put_query}
use plmuggin.Pool.Empty.{string_pool_use_nil}
use plmuggin.Pool.Intern.{empty_pool-IsPool, string_pool_use-intern, rehash_lem}
use plmuggin.Pool.Search.{string_pool_lookup-find_string}
use plmuggin.Pool.Slots.{IsPool, view, intern, find_string}
use plmuggin.Pool.{Pool, empty_pool, count, capacity, string_pool_lookup, string_pool_use, rehash}
use plmuggin.Render.Html.{all_bound, node_html}
use plmuggin.Render.Parsed.{muggin_render-muggin_parse}
use plmuggin.Render.{Binding, Database, State, muggin_render}
use plmuggin.Result.{Result, ok, fail, raised, Returns}
use plmuggin.Str.Split.{Splits, str_splitat-Splits, str_indexof-some}
use plmuggin.Str.{str_splitat, str_indexof}
use plmuggin.Strbuf.Append.{Appends, strbuf_append_str-Appends}
use plmuggin.Strbuf.Escape.{
  escaped, Escapes, Inert, strbuf_append_str_escaped-Escapes, escaped-Inert, escaped-injective,
}
use plmuggin.Strbuf.{Strbuf, strbuf_append_str, strbuf_append_str_escaped}
use plmuggin.Template.Scope.{IsArray, push-IsArray}
use plmuggin.Template.{
  Array, push, Content, ct_constant, ct_name, at_constant, at_contents, Node, node_text,
  node_element, nil, cons, Template,
}
use plmuggin.Tests.Page.{
  page, page_constants, page_root, page_template, parse_page, less, one_bound, fresh_buffer,
}

muggin_parse-Parsed_example : Parsed (muggin_parse page)
muggin_parse-Parsed_example = muggin_parse-Parsed page

muggin_render-muggin_parse_example :
    Returns (muggin_render less page_template (all_bound one_bound) fresh_buffer) (λ st.
      st.1.text
      ≡ []
        ++ (codes "<!DOCTYPE html>\n"
            ++ (node_html less (view page_constants) one_bound page_root ++ (0 ∷ []))))
unfolding plmuggin.Str.str_eq
muggin_render-muggin_parse_example =
    muggin_render-muggin_parse page less one_bound fresh_buffer parse_page refl refl (omega arith)

string_pool_use-intern_example :
    Returns
      (string_pool_use empty_pool (codes "div"))
      (λ r. IsPool r.1 × ((r.0, view r.1) ≡ intern (view empty_pool) (codes "div")))
string_pool_use-intern_example =
    string_pool_use-intern empty_pool (codes "div") empty_pool-IsPool (cc)

string_pool_lookup-find_string_example :
    string_pool_lookup empty_pool (codes "div") ≡ ok (find_string (view empty_pool) (codes "div"))
string_pool_lookup-find_string_example =
    string_pool_lookup-find_string empty_pool empty_pool-IsPool (codes "div") (cc)

strbuf_append_str_escaped-Escapes_example :
    Returns
      (strbuf_append_str_escaped (λ n. false) (record { capacity = 7; text = [] }) (codes "<a>"))
      (Escapes (record { capacity = 7; text = [] }) (codes "<a>"))
strbuf_append_str_escaped-Escapes_example =
    strbuf_append_str_escaped-Escapes (λ n. false) (record { capacity = 7; text = [] })
      (codes "<a>") (omega arith)

escaped-Inert_example : All Inert (escaped (codes "<\"'>"))
escaped-Inert_example = escaped-Inert (codes "<\"'>")

escaped-injective_example : codes "a<b" ≡ codes "a<b"
escaped-injective_example = escaped-injective (codes "a<b") (codes "a<b") refl

strbuf_append_str-Appends_example :
    Returns
      (strbuf_append_str (λ n. false) (record { capacity = 2; text = codes "a" }) (codes "bc"))
      (Appends (record { capacity = 2; text = codes "a" }) (codes "bc"))
strbuf_append_str-Appends_example =
    strbuf_append_str-Appends (λ n. false) (record { capacity = 2; text = codes "a" }) (omega arith)
      (codes "bc")

str_splitat-Splits_example :
    (a b : Bytes) × (str_splitat (codes "k=v") (codes "=") ≡ some (a, b))
    × Splits (codes "=") (codes "k=v") a b
str_splitat-Splits_example = str_splitat-Splits (codes "k=v") (codes "=") (cc)

indexof_brace : str_indexof (codes "a{b{") b'{' ≡ some 1
unfolding str_indexof
indexof_brace = refl

abbrev fresh_conn : Conn
fresh_conn = record { buf_size = 4096; text = [] }

pg_put_query-query_messages_example :
    (d : Conn) × (pg_put_query (λ n. true) (codes "SELECT $1") (25 ∷ []) (codes "x" ∷ []) fresh_conn
      ≡ ok (true, d))
    × (d.text ≡ [] ++ query_messages (codes "SELECT $1") (25 ∷ []) (codes "x" ∷ []))
    × (length d.text ≤ d.buf_size)
pg_put_query-query_messages_example =
    pg_put_query-query_messages (λ n. true) (codes "SELECT $1") (25 ∷ []) (codes "x" ∷ [])
      fresh_conn (λ n. refl) (omega arith)

pg_put_query-Returns_example :
    (r : Bool × Conn) × (pg_put_query (λ n. false) (codes "SELECT 1") [] [] fresh_conn ≡ ok r)
pg_put_query-Returns_example =
    pg_put_query-Returns (λ n. false) (codes "SELECT 1") [] [] fresh_conn (omega arith)

read_msg-message_example :
    (size : ℕ) × (read_msg (λ n. true) fresh_conn (message b'Z' (b'I' ∷ []) ++ [])
      ≡ some (
        record { type = b'Z'; len = 1; payload = 0 },
        record { buf_size = size; text = b'I' ∷ [] },
        [],
      ))
read_msg-message_example =
    read_msg-message (λ n. true) fresh_conn b'Z' (b'I' ∷ []) [] (λ n. refl) (omega arith)

encode_hello : base64_encode (codes "hello") 9 ≡ some (codes "aGVsbG8=")
unfolding base64_encode
encode_hello = refl

base64_decode_mut-base64_encode_example :
    base64_decode_mut (codes "aGVsbG8=") ≡ some (codes "hello")
base64_decode_mut-base64_encode_example =
    base64_decode_mut-base64_encode (codes "hello") 9
      (omega arith, (omega arith, (omega arith, (omega arith, (omega arith, tt))))) encode_hello

abbrev small_arena : Arena
small_arena = record { start = 4096; cur = 4100; limit = 4200 }

mugshot_arena_alloc-Allocates_example :
    (r : Option ℕ × Arena) × (mugshot_arena_alloc (λ n. 0) small_arena 8 8 3 ≡ ok r)
    × Allocates small_arena 8 (3 * 8) r
unfolding plmuggin.Mugshot.Arena.padding
mugshot_arena_alloc-Allocates_example =
    mugshot_arena_alloc-Allocates (λ n. 0) small_arena 8 8 3
      (record { has_memory = λ e. ground arith; used = omega arith; inside = omega arith })
      (of_8 refl) (omega arith) (omega arith)

abbrev fields : List (Bytes × Bytes)
fields = (codes "a", codes "1") ∷ (codes "b", codes "x=y") ∷ []

get_form_parameter-lookup_example :
    get_form_parameter (codes "a=1&b=x=y") (codes "b") ≡ ok (lookup fields (codes "b"))
get_form_parameter-lookup_example = get_form_parameter-lookup fields (codes "b") (
  ((refl, tt), (refl, (refl, (refl, tt)))),
  (((refl, tt), (refl, (refl, (refl, (refl, (refl, tt)))))), tt),
)

route_with_name :
    mugshot_path_match (codes "/item/:id") (codes "id" ∷ []) (codes "/item/42")
    ≡ ok (true, some (codes "42") ∷ [])
unfolding mugshot_path_match plmuggin.Str.str_eq plmuggin.Str.str_drop
route_with_name = refl

mugshot_path_match-literal_example :
    Returns
      (mugshot_path_match (codes "/a") [] (codes "/b"))
      (λ r. ((r.0 ≡ true) ↔ (codes "/b" ≡ codes "/a")) × (r.1 ≡ replicate 0 none))
mugshot_path_match-literal_example =
    mugshot_path_match-literal (codes "/a") [] (codes "/b")
      ((λ e. ground arith), ((λ e. ground arith), tt))

-- a row of three fields: NULL, `hi` and the empty text
abbrev row : Bytes
row = 0 ∷ 3 ∷ 255 ∷ 255 ∷ 255 ∷ 255 ∷ 0 ∷ 0 ∷ 0 ∷ 2 ∷ b'h' ∷ b'i' ∷ 0 ∷ 0 ∷ 0 ∷ 0 ∷ []

second_field :
    pg_value row (some 0) 1 ≡ ok (some (record { is_null = false; len = 2; buf_pos = 10 }))
unfolding pg_value
second_field = refl

first_field : pg_value row (some 0) 0 ≡ ok (some (record { is_null = true; len = 0; buf_pos = 0 }))
unfolding pg_value
first_field = refl

no_field : pg_value row (some 0) 3 ≡ ok none
unfolding pg_value
no_field = refl

decode_percent : str_urldecode (codes "a%20%C3b") ≡ some (b'a' ∷ 32 ∷ 195 ∷ b'b' ∷ [])
unfolding str_urldecode
decode_percent = refl

-- a byte from 128 on is refused where it is not encoded
decode_signed : str_urldecode (b'a' ∷ 195 ∷ []) ≡ none
unfolding str_urldecode
decode_signed = refl

str_urldecode-urlencode_example :
    str_urldecode (urlencode (b'a' ∷ 37 ∷ 195 ∷ [])) ≡ some (b'a' ∷ 37 ∷ 195 ∷ [])
str_urldecode-urlencode_example =
    str_urldecode-urlencode (b'a' ∷ 37 ∷ 195 ∷ []) (omega arith, (omega arith, (omega arith, tt)))
