-- ===== src/Template/Scope.antt =====
-- Templates whose ids are all in the pools and whose arrays have the room that they say: what the
-- growing of the arrays of muggin.c keeps.
use plmuggin.Base.{
  ℕ, suc, ◌≤◌, ◌<◌, ◌≡◌, refl, ap, ◌⊎◌, inr, List, [], ◌∷◌, ◌++◌, arith, length, length-append, All,
  All-append, Bool, lt→ltb,
}
use plmuggin.Pool.{next_capacity}
use plmuggin.Result.{Returns}
use plmuggin.Template.{
  Array, grow, push, ContentType, ct_constant, ct_name, Content, Contents, AttrValue, at_string,
  at_int, at_double, at_bool, at_constant, at_variable, at_contents, Attr, Node, Nodes, nil, cons,
  node_text, node_element, muggin_add_attribute, children_count, snoc, grow_children,
  muggin_add_child,
}

-- The array has its memory: none yet, or 64 elements and more.
abbrev pub IsArray : {A : Type 0} → Array A → Type 0
IsArray a = (length a.items ≤ a.capacity) × ((a.capacity ≡ 0) ⊎ (2 ≤ a.capacity))

pub grow-lt :
    (count capacity : ℕ)
    → count ≤ capacity
    → (capacity ≡ 0) ⊎ (2 ≤ capacity)
    → (count < grow count capacity) × (2 ≤ grow count capacity)
unfolding grow next_capacity
grow-lt count capacity h k = ground arith

-- A write behind the last element of an array is within its memory after `_grow`.
pub push-IsArray :
    {A : Type 0} (a : Array A) (x : A)
    → IsArray a
    → Returns (push a x) (λ b. IsArray b × (b.items ≡ a.items ++ x ∷ []))
unfolding push
push-IsArray a x v =
    let (room, two) = grow-lt (length a.items) a.capacity v.0 v.1 in
    (
      _,
      rw (lt→ltb _ _ room),
      ((omega (arith, length-append a.items (x ∷ []), room), inr two), refl),
    )

-- The bounds are the counts of the constants and of the names.
module _ (nc nn : ℕ) where
  abbrev pub IdIn : ContentType → ℕ → Type 0
  IdIn ct_constant id = id < nc
  IdIn ct_name id = id < nn

  abbrev pub ContentsIn : Contents → Type 0
  ContentsIn cs = IsArray cs.contents × All (λ c. IdIn c.type c.id) cs.contents.items

  abbrev pub ValueIn : AttrValue → Type 0
  ValueIn (at_constant id) = id < nc
  ValueIn (at_variable id) = id < nn
  ValueIn (at_contents cs) = ContentsIn cs
  ValueIn _ = Unit

  abbrev pub AttrIn : Attr → Type 0
  AttrIn a = (a.name < nc) × ValueIn a.value

  mutual
    pub data NodeIn : Node → Type 0 where
      text : {cs : Contents} → ContentsIn cs → NodeIn (node_text cs)
      element :
          {tag : ℕ} {attributes : Array Attr} {children : Nodes} {capacity : ℕ} {void : Bool}
          → tag < nc
          → IsArray attributes
          → All AttrIn attributes.items
          → children_count children ≤ capacity
          → NodesIn children
          → NodeIn (node_element tag attributes children capacity void)

    pub data NodesIn : Nodes → Type 0 where
      none_left : NodesIn nil
      more : {n : Node} {ns : Nodes} → NodeIn n → NodesIn ns → NodesIn (cons n ns)

  NodesIn-snoc : {ns : Nodes} {n : Node} → NodesIn ns → NodeIn n → NodesIn (snoc ns n)
  unfolding snoc
  NodesIn-snoc none_left h = more h none_left
  NodesIn-snoc (more m ms) h = more m (NodesIn-snoc ms h)

  children_count-snoc :
      (ns : Nodes) (n : Node) → children_count (snoc ns n) ≡ suc (children_count ns)
  unfolding children_count snoc
  children_count-snoc nil n = refl
  children_count-snoc (cons m ms) n = ap suc (children_count-snoc ms n)

  -- An element with its tag, of which the C code knows that it is no text node.
  pub data ElementIn : Node → Type 0 where
    is_element :
        {tag : ℕ} {attributes : Array Attr} {children : Nodes} {capacity : ℕ} {void : Bool}
        → NodeIn (node_element tag attributes children capacity void)
        → ElementIn (node_element tag attributes children capacity void)

  pub NodeIn-ElementIn : {n : Node} → ElementIn n → NodeIn n
  NodeIn-ElementIn (is_element h) = h

  -- muggin_add_attribute and muggin_add_child write within the arrays of an element.
  pub muggin_add_attribute-ElementIn :
      {n : Node} (attr : Attr)
      → ElementIn n
      → AttrIn attr
      → Returns (muggin_add_attribute n attr) ElementIn
  unfolding muggin_add_attribute
  muggin_add_attribute-ElementIn attr
        (is_element (element {tag} {attributes} {children} {capacity} {void} t a as' c cs)) h =
      let (b, run, (v, items)) = push-IsArray attributes attr a in
      (
        node_element tag b children capacity void,
        rw run,
        is_element (
            element t v (rw items (All-append AttrIn attributes.items (attr ∷ []) as' (h, tt))) c
              cs),
      )

  pub muggin_add_child-ElementIn :
      {n : Node} (child : Node)
      → ElementIn n
      → NodeIn child
      → Returns (muggin_add_child n child) ElementIn
  unfolding muggin_add_child grow_children
  muggin_add_child-ElementIn child
        (is_element (element {tag} {attributes} {children} {capacity} {void} t a as' c cs)) h =
      let room : children_count children < grow_children (children_count children) capacity =
        ground arith in
      (
        node_element tag attributes (snoc children child)
            (grow_children (children_count children) capacity) void,
        rw (lt→ltb _ _ room),
        is_element (
            element t a as' (omega (arith, children_count-snoc children child, room))
              (NodesIn-snoc cs h)),
      )

-- Larger pools keep every id in range.
module _ {nc nn mc mn : ℕ} (c : nc ≤ mc) (n : nn ≤ mn) where
  IdIn-mono : (t : ContentType) (id : ℕ) → IdIn nc nn t id → IdIn mc mn t id
  IdIn-mono ct_constant id h = omega arith
  IdIn-mono ct_name id h = omega arith

  items_mono :
      (cs : List Content)
      → All (λ x. IdIn nc nn x.type x.id) cs
      → All (λ x. IdIn mc mn x.type x.id) cs
  items_mono [] h = tt
  items_mono (x ∷ cs) (h, hs) = (IdIn-mono x.type x.id h, items_mono cs hs)

  pub ContentsIn-mono : (cs : Contents) → ContentsIn nc nn cs → ContentsIn mc mn cs
  ContentsIn-mono cs h = (h.0, items_mono cs.contents.items h.1)

  ValueIn-mono : (v : AttrValue) → ValueIn nc nn v → ValueIn mc mn v
  ValueIn-mono (at_constant id) h = omega arith
  ValueIn-mono (at_variable id) h = omega arith
  ValueIn-mono (at_contents cs) h = ContentsIn-mono cs h
  ValueIn-mono (at_string s) h = tt
  ValueIn-mono (at_int i) h = tt
  ValueIn-mono (at_double d) h = tt
  ValueIn-mono (at_bool b) h = tt

  attrs_mono : (as' : List Attr) → All (AttrIn nc nn) as' → All (AttrIn mc mn) as'
  attrs_mono [] h = tt
  attrs_mono (a ∷ as') ((lt, v), hs) = ((omega arith, ValueIn-mono a.value v), attrs_mono as' hs)

  mutual
    pub NodeIn-mono : {m : Node} → NodeIn nc nn m → NodeIn mc mn m
    NodeIn-mono (text {cs} h) = text (ContentsIn-mono cs h)
    NodeIn-mono (element {attributes} t a as' k ns) =
        element (omega arith) a (attrs_mono attributes.items as') k (NodesIn-mono ns)

    pub NodesIn-mono : {ms : Nodes} → NodesIn nc nn ms → NodesIn mc mn ms
    NodesIn-mono none_left = none_left
    NodesIn-mono (more h hs) = more (NodeIn-mono h) (NodesIn-mono hs)

  pub ElementIn-mono : {m : Node} → ElementIn nc nn m → ElementIn mc mn m
  ElementIn-mono (is_element h) = is_element (NodeIn-mono h)
