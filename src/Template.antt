-- ===== src/Template.antt =====
-- The parsed template of muggin.h and the growing of its arrays (`_grow`, muggin_add_attribute,
-- muggin_add_child of muggin.c). The memory is palloc's, which raises an error and does not come
-- back where it has none: the branches for a refused allocation are never taken.
pub mod Scope
use plmuggin.Base.{
  ℕ, zero, suc, ◌+◌, ◌*◌, Bool, List, [], ◌∷◌, ◌++◌, ltb, ◌==◌, if◌then◌else◌, Bytes, length,
}
use plmuggin.Pool.{Pool, next_capacity}
use plmuggin.Result.{Result, ok, fail, raised, out_of_bounds, ◌>>=◌}

-- A dynamic array: the count is the length of the list.
pub record Array (A : Type 0) : Type 0 where
  pub items : List A
  pub capacity : ℕ

abbrev pub empty_array : (A : Type 0) → Array A
empty_array A = record { items = []; capacity = 0 }

-- `_grow`: the capacity that it leaves
unfoldable pub grow : ℕ → ℕ → ℕ
unfolding next_capacity
grow count capacity = if count == capacity then next_capacity capacity else capacity

-- `_grow` and the write behind it, which is out of bounds where the array is still full
unfoldable pub push : {A : Type 0} → Array A → A → Result (Array A)
unfolding grow
push a x =
    let capacity = grow (length a.items) a.capacity in
    if ltb (length a.items) capacity
    then ok (record { items = a.items ++ x ∷ []; capacity = capacity })
    else fail out_of_bounds

pub data ContentType : Type 0 where
  ct_constant ct_name : ContentType

-- m_Content
pub record Content : Type 0 where
  pub id : ℕ
  pub type : ContentType

-- m_Contents; the separator is 0 for none
pub record Contents : Type 0 where
  pub contents : Array Content
  pub separator : ℕ

-- The union of m_Attr. A double stands as its bit pattern, and an int64_t as its one.
pub data AttrValue : Type 0 where
  at_string : Bytes → AttrValue
  at_int at_double : ℕ → AttrValue
  at_bool : Bool → AttrValue
  at_constant at_variable : ℕ → AttrValue
  at_contents : Contents → AttrValue

pub record Attr : Type 0 where
  pub name : ℕ
  pub value : AttrValue

-- m_Node. An element has its tag, its attributes, its children with their capacity, and EF_VOID.
mutual
  pub data Node : Type 0 where
    node_text : Contents → Node
    node_element : ℕ → Array Attr → Nodes → ℕ → Bool → Node

  pub data Nodes : Type 0 where
    nil : Nodes
    cons : Node → Nodes → Nodes

pub record Template : Type 0 where
  pub constants : Pool
  pub names : Pool
  pub root : Node

-- muggin_add_attribute; on a text node it raises an error
unfoldable pub muggin_add_attribute : Node → Attr → Result Node
unfolding push
muggin_add_attribute (node_text _) attr = fail raised
muggin_add_attribute (node_element tag attributes children capacity void) attr = do
  attributes' ← push attributes attr
  ok (node_element tag attributes' children capacity void)

unfoldable pub children_count : Nodes → ℕ
children_count nil = 0
children_count (cons n ns) = suc (children_count ns)

-- the write behind the last child
unfoldable pub snoc : Nodes → Node → Nodes
snoc nil n = cons n nil
snoc (cons m ms) n = cons m (snoc ms n)

-- the capacity that muggin_add_child leaves
unfoldable pub grow_children : ℕ → ℕ → ℕ
grow_children count capacity =
    if capacity == count then (if capacity == 0 then 8 else capacity * 2) else capacity

-- muggin_add_child; on a text node it raises an error
unfoldable pub muggin_add_child : Node → Node → Result Node
unfolding children_count snoc grow_children
muggin_add_child (node_text _) child = fail raised
muggin_add_child (node_element tag attributes children capacity void) child =
    let capacity' = grow_children (children_count children) capacity in
    if ltb (children_count children) capacity'
    then ok (node_element tag attributes (snoc children child) capacity' void)
    else fail out_of_bounds
