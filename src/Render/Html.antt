-- ===== src/Render/Html.antt =====
-- What muggin_render of muggin.c writes for a template without queries: the document, described
-- independently of buffers and of the hash tables of the pools.
use plmuggin.Base.{
  ℕ, zero, suc, ◌<◌, ◌≡◌, ◌≢◌, refl, ap, subst, ◌∙◌, Bool, true, false, not, ◌&&◌, Option, none,
  some, List, [], ◌∷◌, ◌++◌, append_assoc, append-nil, arith, ◌==◌, if◌then◌else◌, Bytes, codes,
  length, All, Bool-cases, inl, inr, sym,
}
use plmuggin.Parser.Tree.{string_at}
use plmuggin.Pool.Search.{string_pool_lookup-find_string}
use plmuggin.Pool.Slots.{IsPool, slot, strings, view, at-slot, lt_of_slot, find_string}
use plmuggin.Pool.{Pool, count, at}
use plmuggin.Render.{
  Binding, Values, Database, binding, put_str, put_char, put_escaped, put_constant, separate,
  put_value, render_content, render_list, muggin_render_contents, render_value, is_query,
  render_attributes, render_children, close_tag, State, muggin_render_node, render_nodes,
  muggin_render,
}
use plmuggin.Result.{Result, ok, ◌>>=◌, Returns}
use plmuggin.Strbuf.Append.{IsValid}
use plmuggin.Strbuf.Escape.{escaped}
use plmuggin.Strbuf.Palloc.{
  Extends, append_str-Extends, append_char-Extends, append_str_escaped-Extends,
}
use plmuggin.Strbuf.{Strbuf}
use plmuggin.Template.Scope.{
  NodeIn, NodesIn, text, element, none_left, more, ContentsIn, IdIn, AttrIn, ValueIn,
}
use plmuggin.Template.{
  ContentType, ct_constant, ct_name, Content, Contents, AttrValue, at_string, at_int, at_double,
  at_bool, at_variable, at_constant, at_contents, Attr, Node, Nodes, nil, cons, node_text,
  node_element, Template,
}

-- The scope in which every name is bound.
abbrev pub all_bound : List Binding → Values
all_bound [] = []
all_bound (b ∷ bs) = some b ∷ all_bound bs

-- The string with an id.
abbrev pub text_at : List Bytes → ℕ → Bytes
text_at [] id = []
text_at (s ∷ xs) zero = s
text_at (s ∷ xs) (suc id) = text_at xs id

abbrev pub value_html : Database → Binding → Bytes
value_html db b =
    if b.need_escape then escaped (db.output b.oid b.value) else db.output b.oid b.value

-- The value of the name with an id.
abbrev pub value_at : Database → List Binding → ℕ → Bytes
value_at db [] id = []
value_at db (b ∷ bs) zero = value_html db b
value_at db (b ∷ bs) (suc id) = value_at db bs id

-- What stands between two pieces.
abbrev pub gap : ℕ → Bool → Bytes
gap separator first = if not first && not (separator == 0) then separator ∷ [] else []

-- The document of a template, where `xs` are its constants.
module _ (db : Database) (xs : List Bytes) (bs : List Binding) where
  abbrev pub content_html : ContentType → ℕ → Bytes
  content_html ct_constant id = text_at xs id
  content_html ct_name id = value_at db bs id

  abbrev pub list_html : ℕ → Bool → List Content → Bytes
  list_html separator first [] = []
  list_html separator first (c ∷ cs) =
      gap separator first ++ (content_html c.type c.id ++ list_html separator false cs)

  abbrev pub contents_html : Contents → Bytes
  contents_html cs = list_html cs.separator true cs.contents.items

  abbrev pub attribute_html : ℕ → Bytes → Bytes
  attribute_html name value =
      (b' ' ∷ []) ++ (text_at xs name ++ (codes "=\"" ++ (value ++ (b'"' ∷ []))))

  abbrev pub attr_html : ℕ → AttrValue → Bytes
  attr_html name (at_constant id) = attribute_html name (text_at xs id)
  attr_html name (at_contents cs) = attribute_html name (contents_html cs)
  attr_html name _ = []

  abbrev pub attrs_html : List Attr → Bytes
  attrs_html [] = []
  attrs_html (a ∷ as') = attr_html a.name a.value ++ attrs_html as'

  unfoldable mutual
    pub node_html : Node → Bytes
    node_html (node_text cs) = contents_html cs
    node_html (node_element tag attributes children capacity void) =
        (b'<' ∷ [])
        ++ (text_at xs tag
            ++ (attrs_html attributes.items
                ++ ((b'>' ∷ [])
                    ++ (if void
                        then []
                        else nodes_html children
                          ++ (codes "</" ++ (text_at xs tag ++ (b'>' ∷ [])))))))

    pub nodes_html : Nodes → Bytes
    nodes_html nil = []
    nodes_html (cons n ns) = node_html n ++ nodes_html ns

Extends-trans :
    {a b c : Strbuf} {x y : Bytes} → Extends a x b → Extends b y c → Extends a (x ++ y) c
Extends-trans {a} {x} {y} h k = record {
  valid = k.valid;
  text = k.text ∙ ap (λ w. w ++ y) h.text ∙ append_assoc a.text x y;
}

-- `m` writes `bytes` behind the text of every buffer that fits its memory.
abbrev pub Writes : (Strbuf → Result Strbuf) → Bytes → Type 0
Writes m bytes = (sb : Strbuf) → IsValid sb → Returns (m sb) (Extends sb bytes)

pub Writes-then :
    {m k : Strbuf → Result Strbuf} {x y : Bytes}
    → Writes m x
    → Writes k y
    → Writes (λ sb. m sb >>= k) (x ++ y)
Writes-then hm hk sb v =
    let (sb₁, run₁, e₁) = hm sb v in
    let (sb₂, run₂, e₂) = hk sb₁ e₁.valid in (sb₂, rw run₁ run₂, Extends-trans e₁ e₂)

Extends-refl : {sb : Strbuf} → IsValid sb → Extends sb [] sb
Extends-refl {sb} v = record { valid = v; text = sym (append-nil sb.text) }

Writes-nil : Writes (λ sb. ok sb) []
Writes-nil sb v = (sb, refl, Extends-refl v)

put_str-Writes : (s : Bytes) → Writes (put_str s) s
unfolding put_str
put_str-Writes s sb v = let (r, run, e) = append_str-Extends sb v s in (r.1, rw run refl, e)

put_char-Writes : (ch : ℕ) → Writes (put_char ch) (ch ∷ [])
unfolding put_char
put_char-Writes ch sb v = let (r, run, e) = append_char-Extends sb v ch in (r.1, rw run refl, e)

put_escaped-Writes : (s : Bytes) → Writes (put_escaped s) (escaped s)
unfolding put_escaped
put_escaped-Writes s sb v =
    let (r, run, e) = append_str_escaped-Extends sb v s in (r.1, rw run refl, e)

at-text_at :
    (slots : List Bytes) (idx : List ℕ) (id : ℕ)
    → All (λ i. slot slots i ≢ []) idx
    → id < length idx
    → (i : ℕ) × (at idx id ≡ ok i) × (at slots i ≡ ok (text_at (strings slots idx) id))
unfolding at
at-text_at slots [] id h lt = absurd (omega arith)
at-text_at slots (i ∷ idx) zero (h, hs) lt = (i, refl, at-slot slots i (lt_of_slot slots i h))
at-text_at slots (i ∷ idx) (suc id) (h, hs) lt = at-text_at slots idx id hs (omega arith)

pub string_at-text_at :
    (p : Pool) (id : ℕ) → IsPool p → id < count p → string_at p id ≡ ok (text_at (view p) id)
unfolding string_at
string_at-text_at p id inv lt =
    let (i, run, e) = at-text_at p.slots p.idx id inv.used lt in rw (run, string_at) e

binding-all_bound :
    (db : Database) (bs : List Binding) (id : ℕ)
    → id < length bs
    → (b : Binding) × (binding (all_bound bs) id ≡ ok b) × (value_html db b ≡ value_at db bs id)
unfolding binding at
binding-all_bound db [] id lt = absurd (omega arith)
binding-all_bound db (b ∷ bs) zero lt = (b, refl, refl)
binding-all_bound db (b ∷ bs) (suc id) lt = binding-all_bound db bs id (omega arith)

put_value-Writes : (db : Database) (b : Binding) → Writes (put_value db b) (value_html db b)
unfolding put_value
put_value-Writes db b sb v = elim (Bool-cases b.need_escape) [
  | inl e ↦ rw e (put_escaped-Writes (db.output b.oid b.value) sb v)
  | inr e ↦ rw e (put_str-Writes (db.output b.oid b.value) sb v)
]

separate-Writes :
    (separator : ℕ) (first : Bool) → Writes (separate separator first) (gap separator first)
unfolding separate
separate-Writes separator first sb v = elim (Bool-cases (not first && not (separator == 0))) [
  | inl e ↦ rw e (put_char-Writes separator sb v)
  | inr e ↦ rw e (Writes-nil sb v)
]

module _ (db : Database) (t : Template) (bs : List Binding) (constants : IsPool t.constants)
    (bound : length bs ≡ count t.names) (mq : Option ℕ)
    (plain : (id : ℕ) → is_query mq id ≡ false) where
  put_constant-Writes :
      (id : ℕ) → id < count t.constants → Writes (put_constant t id) (text_at (view t.constants) id)
  unfolding put_constant
  put_constant-Writes id lt sb v =
      rw (string_at-text_at t.constants id constants lt)
        (put_str-Writes (text_at (view t.constants) id) sb v)

  render_content-Writes :
      (type : ContentType) (id : ℕ)
      → IdIn (count t.constants) (count t.names) type id
      → Writes
          (render_content db t (all_bound bs) type id)
          (content_html db (view t.constants) bs type id)
  unfolding render_content
  render_content-Writes ct_constant id h sb v = put_constant-Writes id h sb v
  render_content-Writes ct_name id h sb v =
      let (b, run, e) = binding-all_bound db bs id (omega (arith, bound)) in
      rw run
        (subst (λ w. Returns (put_value db b sb) (Extends sb w)) e (put_value-Writes db b sb v))

  render_list-Writes :
      (separator : ℕ) (first : Bool) (cs : List Content)
      → All (λ c. IdIn (count t.constants) (count t.names) c.type c.id) cs
      → Writes
          (render_list db t (all_bound bs) separator first cs)
          (list_html db (view t.constants) bs separator first cs)
  unfolding render_list
  render_list-Writes separator first [] h = Writes-nil
  render_list-Writes separator first (c ∷ cs) (h, hs) =
      Writes-then (separate-Writes separator first) (
        Writes-then (render_content-Writes c.type c.id h)
          (render_list-Writes separator false cs hs))

  contents-Writes :
      (cs : Contents)
      → ContentsIn (count t.constants) (count t.names) cs
      → Writes
          (muggin_render_contents db t (all_bound bs) cs)
          (contents_html db (view t.constants) bs cs)
  unfolding muggin_render_contents
  contents-Writes cs h = render_list-Writes cs.separator true cs.contents.items h.1

  attribute-Writes :
      {m : Strbuf → Result Strbuf} {w : Bytes} (name : ℕ)
      → name < count t.constants
      → Writes m w
      → Writes
          (λ sb. put_char b' ' sb >>= λ sb₁. put_constant t name sb₁ >>= λ sb₂.
            put_str (codes "=\"") sb₂ >>= λ sb₃. m sb₃ >>= λ sb₄. put_char b'"' sb₄)
          (attribute_html db (view t.constants) bs name w)
  attribute-Writes name lt h = Writes-then (put_char-Writes b' ') (
      Writes-then (put_constant-Writes name lt)
        (Writes-then (put_str-Writes (codes "=\"")) (Writes-then h (put_char-Writes b'"'))))

  render_value-Writes :
      (name : ℕ) (a : AttrValue)
      → name < count t.constants
      → ValueIn (count t.constants) (count t.names) a
      → Writes (render_value db t (all_bound bs) name a) (attr_html db (view t.constants) bs name a)
  unfolding render_value
  render_value-Writes name (at_constant id) lt h =
      attribute-Writes name lt (put_constant-Writes id h)
  render_value-Writes name (at_contents cs) lt h = attribute-Writes name lt (contents-Writes cs h)
  render_value-Writes name (at_string s) lt h = Writes-nil
  render_value-Writes name (at_int i) lt h = Writes-nil
  render_value-Writes name (at_double d) lt h = Writes-nil
  render_value-Writes name (at_bool b) lt h = Writes-nil
  render_value-Writes name (at_variable i) lt h = Writes-nil

  attributes-Writes :
      (as' : List Attr)
      → All (AttrIn (count t.constants) (count t.names)) as'
      → (sb : Strbuf) → IsValid sb
      → Returns
          (render_attributes db t (all_bound bs) mq as' none sb)
          (λ r. (r.0 ≡ none) × Extends sb (attrs_html db (view t.constants) bs as') r.1)
  unfolding render_attributes
  attributes-Writes [] h sb v = (_, refl, (refl, Extends-refl v))
  attributes-Writes (a ∷ as') ((lt, h), hs) sb v =
      let (sb₁, run₁, e₁) = render_value-Writes a.name a.value lt h sb v in
      let (r, run₂, (q, e₂)) = attributes-Writes as' hs sb₁ e₁.valid in
      (r, rw (plain a.name, run₁) run₂, (q, Extends-trans e₁ e₂))

  close_tag-Writes :
      (tag : ℕ)
      → tag < count t.constants
      → Writes (close_tag t tag) (codes "</" ++ (text_at (view t.constants) tag ++ (b'>' ∷ [])))
  unfolding close_tag
  close_tag-Writes tag lt =
      Writes-then (put_str-Writes (codes "</"))
        (Writes-then (put_constant-Writes tag lt) (put_char-Writes b'>'))

  -- The scope is kept, and the bytes are written.
  abbrev Renders : (State → Result State) → Bytes → Type 0
  Renders m bytes =
      (sb : Strbuf)
      → IsValid sb
      → Returns (m (all_bound bs, sb)) (λ st. (st.0 ≡ all_bound bs) × Extends sb bytes st.1)

  inside-Renders :
      (tag : ℕ)
      → tag < count t.constants
      → (m : State → Result State) (w : Bytes) → Renders m w
      → (void : Bool)
      → Renders
          (λ st.
            if void
            then ok st
            else (m st >>= λ st'. close_tag t tag (st'.1) >>= λ sb. ok (st'.0, sb)))
          (if void
            then []
            else w ++ (codes "</" ++ (text_at (view t.constants) tag ++ (b'>' ∷ []))))
  inside-Renders tag lt m w h true sb v = (_, refl, (refl, Extends-refl v))
  inside-Renders tag lt m w h false sb v =
      let (s₁, run₁, (q₁, e₁)) = h sb v in
      let (sb₂, run₂, e₂) = close_tag-Writes tag lt s₁.1 e₁.valid in
      (_, rw (run₁, run₂) refl, (q₁, Extends-trans e₁ e₂))

  mutual
    unfolding muggin_render_node node_html render_children

    muggin_render_node-Renders :
        (n : Node)
        → NodeIn (count t.constants) (count t.names) n
        → Renders (muggin_render_node db t mq n) (node_html db (view t.constants) bs n)
    muggin_render_node-Renders (node_text cs) (text h) sb v =
        let (sb₁, run, e) = contents-Writes cs h sb v in (_, rw run refl, (refl, e))
    muggin_render_node-Renders (node_element tag attributes children capacity void)
          (element lt _ as' _ ns) sb v =
        let (sb₁, run₁, e₁) = put_char-Writes b'<' sb v in
        let (sb₂, run₂, e₂) = put_constant-Writes tag lt sb₁ e₁.valid in
        let (r, run₃, (q₃, e₃)) = attributes-Writes attributes.items as' sb₂ e₂.valid in
        let (sb₄, run₄, e₄) = put_char-Writes b'>' r.1 e₃.valid in
        let (st, run₅, (q₅, e₅)) =
          inside-Renders tag lt (render_nodes db t mq children)
            (nodes_html db (view t.constants) bs children) (render_nodes-Renders children ns) void
            sb₄ e₄.valid in
        (
          st,
          rw (run₁, run₂, run₃, run₄, q₃) run₅,
          (q₅, Extends-trans e₁ (Extends-trans e₂ (Extends-trans e₃ (Extends-trans e₄ e₅)))),
        )

    render_nodes-Renders :
        (ns : Nodes)
        → NodesIn (count t.constants) (count t.names) ns
        → Renders (render_nodes db t mq ns) (nodes_html db (view t.constants) bs ns)
    render_nodes-Renders nil none_left sb v = (_, refl, (refl, Extends-refl v))
    render_nodes-Renders (cons n ns) (more h hs) sb v =
        let (s₁, run₁, (q₁, e₁)) = muggin_render_node-Renders n h sb v in
        let (s₂, run₂, (q₂, e₂)) = render_nodes-Renders ns hs (s₁.1) e₁.valid in
        (
          s₂,
          rw run₁ (subst (λ w. render_nodes db t mq ns (w, s₁.1) ≡ ok s₂) (sym q₁) run₂),
          (q₂, Extends-trans e₁ e₂),
        )

-- Where every name of a well-formed template is bound and no attribute is named "m:q",
-- muggin_render ends normally and appends the document type, the document of the tree with the
-- bound values in their places, and a NUL byte, to every buffer that fits its memory.
pub muggin_render-node_html :
    (db : Database) (t : Template) (bs : List Binding) (to : Strbuf)
    → IsPool t.constants
    → NodeIn (count t.constants) (count t.names) t.root
    → length bs ≡ count t.names
    → find_string (view t.constants) (codes "m:q") ≡ none
    → IsValid to
    → Returns (muggin_render db t (all_bound bs) to) (λ st.
      st.1.text
      ≡ to.text
        ++ (codes "<!DOCTYPE html>\n" ++ (node_html db (view t.constants) bs t.root ++ (0 ∷ []))))
unfolding muggin_render is_query
muggin_render-node_html db t bs to inv h bound plain v =
    let found = string_pool_lookup-find_string t.constants inv (codes "m:q") (cc) ∙ ap ok plain in
    let (sb, run₁, e₁) = put_str-Writes (codes "<!DOCTYPE html>\n") to v in
    let (st, run₂, (_, e₂)) =
      muggin_render_node-Renders db t bs inv bound none (λ id. refl) t.root h sb e₁.valid in
    let (sb', run₃, e₃) = put_char-Writes 0 st.1 e₂.valid in
    ((st.0, sb'), rw (found, run₁, run₂, run₃) refl, (Extends-trans e₁ (Extends-trans e₂ e₃)).text)
