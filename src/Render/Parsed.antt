-- ===== src/Render/Parsed.antt =====
-- muggin_parse and muggin_render of muggin.c, one behind the other.
use plmuggin.Base.{◌≡◌, subst, none, some, List, ◌∷◌, [], ◌++◌, Bytes, codes, length}
use plmuggin.Parser.Safety.Tree.{IsTemplate, Parsed, parsed, muggin_parse-Parsed}
use plmuggin.Parser.Tree.{muggin_parse}
use plmuggin.Pool.Slots.{view, find_string}
use plmuggin.Pool.{count}
use plmuggin.Render.Html.{all_bound, node_html, muggin_render-node_html}
use plmuggin.Render.{Binding, Database, muggin_render}
use plmuggin.Result.{ok, Returns}
use plmuggin.Strbuf.Append.{IsValid}
use plmuggin.Strbuf.{Strbuf}
use plmuggin.Template.{Template}

pub Parsed-IsTemplate : {t : Template} → Parsed (ok (some t)) → IsTemplate t
Parsed-IsTemplate (parsed h) = h

-- Where muggin_parse returns a template for a text, every name of it is bound and no constant of it
-- is "m:q", muggin_render ends normally and appends the document type, the document of the tree
-- and a NUL byte to every buffer that fits its memory.
pub muggin_render-muggin_parse :
    (text : Bytes) {t : Template} (db : Database) (bs : List Binding) (to : Strbuf)
    → muggin_parse text ≡ ok (some t)
    → length bs ≡ count t.names
    → find_string (view t.constants) (codes "m:q") ≡ none
    → IsValid to
    → Returns (muggin_render db t (all_bound bs) to) (λ st.
      st.1.text
      ≡ to.text
        ++ (codes "<!DOCTYPE html>\n" ++ (node_html db (view t.constants) bs t.root ++ (0 ∷ []))))
muggin_render-muggin_parse text {t} db bs to run bound plain v =
    let h = Parsed-IsTemplate (subst Parsed run (muggin_parse-Parsed text)) in
    muggin_render-node_html db t bs to h.constants h.root bound plain v
