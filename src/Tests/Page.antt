-- ===== src/Tests/Page.antt =====
-- A template, what muggin_parse makes of it, and what is rendered from it.
use plmuggin.Base.{
  ◌≡◌, refl, true, false, none, some, List, [], ◌∷◌, ◌++◌, Bytes, codes, set, replicate,
}
use plmuggin.Parser.Tree.{muggin_parse}
use plmuggin.Pool.{Pool, string_pool_lookup, string_pool_use}
use plmuggin.Render.Html.{all_bound}
use plmuggin.Render.{Binding, Database, State, muggin_render}
use plmuggin.Result.{Result, ok, fail}
use plmuggin.Str.{str_splitat, str_indexof}
use plmuggin.Strbuf.{Strbuf, strbuf_append_str, strbuf_append_str_escaped}
use plmuggin.Template.{
  Array, push, Content, ct_constant, ct_name, at_constant, at_contents, Node, node_text,
  node_element, nil, cons, Template,
}

abbrev pub page : Bytes
page = codes "p#x(title=a) hi {{n}}"

abbrev pub page_constants : Pool
page_constants = record {
  slots =
      set
        (set
          (set (set (set (set (replicate 64 []) 21 (codes "p")) 29 (codes "x")) 50 (codes "id")) 39
            (codes "title"))
          6 (codes "a"))
        54 (codes "hi ");
  idx = 21 ∷ 29 ∷ 50 ∷ 39 ∷ 6 ∷ 54 ∷ [];
}

abbrev pub page_root : Node
page_root =
    node_element 0
      (record {
        items =
            record { name = 2; value = at_constant 1 }
            ∷ record {
              name = 3;
              value = at_contents (record {
                contents = record {
                  items = record { id = 4; type = ct_constant } ∷ [];
                  capacity = 64;
                };
                separator = 0;
              });
            }
            ∷ [];
        capacity = 64;
      })
      (cons
        (node_text (record {
          contents = record {
            items = record { id = 5; type = ct_constant } ∷ record { id = 0; type = ct_name } ∷ [];
            capacity = 64;
          };
          separator = 0;
        }))
        nil)
      8 false

abbrev pub page_template : Template
page_template = record {
  constants = page_constants;
  names = record { slots = set (replicate 64 []) 19 (codes "n"); idx = 19 ∷ [] };
  root = page_root;
}

pub parse_page : muggin_parse page ≡ ok (some page_template)
unfolding muggin_parse plmuggin.Str.str_ltrim plmuggin.Str.str_drop
    plmuggin.Parser.Lexical.muggin_check_indent plmuggin.Str.char_at
    plmuggin.Parser.Lexical.muggin_read_constant plmuggin.Parser.Lexical.valid_tag
    plmuggin.Parser.Monad.muggin_use_constant string_pool_use plmuggin.Str.str_hash
    plmuggin.Str.str_take plmuggin.Str.str_eq plmuggin.Parser.Attribute.muggin_read_attribute
    plmuggin.Parser.Lexical.valid_attr plmuggin.Parser.Text.muggin_contents_from_str str_indexof
    str_splitat plmuggin.Str.str_trim plmuggin.Parser.Monad.muggin_use_name
    plmuggin.Parser.Monad.on_option plmuggin.Parser.Monad.parse_error
    plmuggin.Template.muggin_add_attribute plmuggin.Template.muggin_add_child push
    plmuggin.Template.snoc plmuggin.Template.children_count plmuggin.Template.grow_children
    plmuggin.Parser.Lexical.is_void_element plmuggin.Str.str_rtrim plmuggin.Str.is_space
parse_page = refl

-- a database in which every value reads `<`
abbrev pub less : Database
less = record { output = λ oid value. codes "<"; execute = λ sql args. none }

abbrev pub one_bound : List Binding
one_bound = record { oid = 25; value = 7; need_escape = true } ∷ []

abbrev pub fresh_buffer : Strbuf
fresh_buffer = record { capacity = 256; text = [] }

text_of : Result State → Bytes
text_of (ok st) = st.1.text
text_of (fail e) = []

render_page :
    text_of (muggin_render less page_template (all_bound one_bound) fresh_buffer)
    ≡ codes "<!DOCTYPE html>\n<p id=\"x\" title=\"a\">hi &lt;</p>" ++ 0 ∷ []
unfolding text_of muggin_render string_pool_lookup plmuggin.Str.str_hash plmuggin.Str.str_eq
    plmuggin.Strbuf.entity
render_page = refl
