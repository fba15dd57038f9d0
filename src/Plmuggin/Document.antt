-- ===== src/Plmuggin/Document.antt =====
-- A call of a template function, from the source in the catalog to the value that is returned.
use plmuggin.Base.{
  ℕ, zero, suc, ◌≡◌, arith, refl, sym, ap, subst, ◌∙◌, true, if◌then◌else◌, Option, none, some,
  List, [], ◌∷◌, ◌++◌, append_assoc, Bytes, codes, length, length-map, map, All, Lacks,
}
use plmuggin.Parser.Safety.Tree.{Parsed, muggin_parse-Parsed}
use plmuggin.Parser.Tree.{muggin_parse}
use plmuggin.Plmuggin.Arguments.{
  Argument, IsNamed, Takes, variables, unset, c_string-Lacks, bind_arguments-variables,
}
use plmuggin.Plmuggin.{
  Procedure, Server, expect_found, result_datum, plmuggin_func_handler, plmuggin_call_handler,
}
use plmuggin.Pool.Slots.{view, find_string, length-strings}
use plmuggin.Pool.{count}
use plmuggin.Render.Html.{all_bound, node_html}
use plmuggin.Render.Parsed.{Parsed-IsTemplate, muggin_render-muggin_parse}
use plmuggin.Render.{Binding, c_string}
use plmuggin.Result.{Result, ok, ◌>>=◌}
use plmuggin.Strbuf.{Strbuf}
use plmuggin.Template.{Template}

-- The document of a template, where the variables have the values `bs`.
abbrev pub document : Server → Template → List Binding → Bytes
document server t bs =
    codes "<!DOCTYPE html>\n" ++ node_html server.database (view t.constants) bs t.root

c_string-nul : (s : Bytes) → c_string (s ++ 0 ∷ []) ≡ c_string s
unfolding c_string
c_string-nul [] = refl
c_string-nul (zero ∷ s) = refl
c_string-nul (suc c ∷ s) = ap (◌∷◌ (suc c)) (c_string-nul s)

bind-ok : {A B : Type 0} {r : Result A} {a : A} → r ≡ ok a → (k : A → Result B) → (r >>= k) ≡ k a
bind-ok e k = rw e refl

bind-expect_found :
    {A B : Type 0} {o : Option A} {a : A}
    → o ≡ some a
    → (k : A → Result B) → (expect_found o >>= k) ≡ k a
unfolding expect_found
bind-expect_found e k = rw e refl

length-all_bound : (bs : List Binding) → length (all_bound bs) ≡ length bs
length-all_bound [] = refl
length-all_bound (b ∷ bs) = ap suc (length-all_bound bs)

-- A call of the function whose source parses to a template without queries, with named arguments
-- that give every variable of the template a value, returns what the input function of its return
-- type makes of the document, up to a NUL byte in it: the arguments stand escaped in the places of
-- the variables that have their names.
pub plmuggin_call_handler-document :
    (server : Server) (oid : ℕ) (p : Procedure) (source : Bytes) {t : Template}
    (as' : List Argument) (bs : List Binding) (input : Bytes → Result ℕ)
    → server.spi_connect ≡ true
    → server.procedure oid ≡ some p
    → p.prosrc ≡ some source
    → Lacks 0 source
    → Takes p as'
    → All IsNamed as'
    → server.input_function p.prorettype ≡ some input
    → muggin_parse source ≡ ok (some t)
    → find_string (view t.constants) (codes "m:q") ≡ none
    → map (variables as' unset) (view t.names) ≡ all_bound bs
    → plmuggin_call_handler server (record { fn_oid = oid; args = map (λ a. a.value) as' })
      ≡ input (c_string (document server t bs))
unfolding plmuggin_call_handler plmuggin_func_handler expect_found result_datum
plmuggin_call_handler-document server oid p source {t} as' bs input up found src lacks takes named
      result parse plain values =
    let fresh : Strbuf = record { capacity = 256; text = [] } in
    let count' : length bs ≡ count t.names =
      sym (length-all_bound bs)
      ∙ ap length (sym values)
      ∙ length-map (variables as' unset) (view t.names)
      ∙ length-strings t.names.slots t.names.idx in
    let h = Parsed-IsTemplate (subst Parsed parse (muggin_parse-Parsed source)) in
    let bound = bind_arguments-variables t p h.names as' takes named in
    let (st, run, text) =
      muggin_render-muggin_parse source server.database bs fresh parse count' plain (omega arith) in
    let end : c_string st.1.text ≡ c_string (document server t bs) =
      ap c_string (text ∙ sym (append_assoc (codes "<!DOCTYPE html>\n") _ (0 ∷ [])))
      ∙ c_string-nul (document server t bs) in
    bind-expect_found found _
    ∙ bind-expect_found src _
    ∙ bind-expect_found (ap (λ b. if b then some true else none) up) _
    ∙ bind-ok (ap muggin_parse (c_string-Lacks source lacks) ∙ parse) _
    ∙ bind-ok (bound ∙ ap ok values) _
    ∙ bind-expect_found result _
    ∙ bind-ok run _
    ∙ ap input end
