-- ===== src/Projection/Content.antt =====
-- Building the projected document (GetResult.set and fromSubDoc in results.go). A Go map that is changed
-- in place is the map after the change; a slice is the slice that `set` returns.
use gocb.Base.{ℕ, Option, none, some, List, [], ◌∷◌, if◌then◌else◌}
use gocb.Go.Bytes.{same_bytes}
use gocb.Projection.Paths.{Part, path_parts}

-- A document under construction; a field's raw JSON is an opaque text.
mutual
  pub data Node : Type 0 where
    raw : List ℕ → Node
    object : Members → Node
    list : Items → Node

  pub data Members : Type 0 where
    no_members : Members
    member : List ℕ → Node → Members → Members

  pub data Items : Type 0 where
    no_items : Items
    item : Node → Items → Items

unfoldable pub put : List ℕ → Node → Members → Members
put k v no_members = member k v no_members
put k v (member j w m) = if same_bytes j k then member k v m else member j w (put k v m)

unfoldable pub find : List ℕ → Members → Option Node
find k no_members = none
find k (member j w m) = if same_bytes j k then some w else find k m

unfoldable pub append_item : Items → Node → Items
append_item no_items v = item v no_items
append_item (item w is) v = item w (append_item is v)

abbrev pub empty_object : Node
empty_object = object no_members

abbrev pub empty_list : Node
empty_list = list no_items

-- The content is changed by one part whose value is known. What is neither an object nor a list is
-- left alone where an array is set; where a field is set the source's type assertion fails, and a
-- panic is `none`.
unfoldable pub assign : Part → Node → Node → Option Node
assign p (object m) v =
    some (object (put p.path (if p.is_array then list (item v no_items) else v) m))
assign p (list is) v = some (
    list (
      append_item is
        (if p.is_array then list (item v no_items) else object (member p.path v no_members))))
assign p (raw b) v = if p.is_array then some (raw b) else none

-- `set`: below a part that is not the last, the inner content is always made anew.
unfoldable pub set_path : Part → List Part → Node → Node → Option Node
set_path p [] content v = assign p content v
set_path p (q ∷ rest) (object m) v =
    elim (set_path q rest (if p.is_array then empty_list else empty_object) v) [
      | none ↦ none
      | some inner ↦ some (object (put p.path inner m))
    ]
set_path p (q ∷ rest) (list is) v =
    elim (set_path q rest (if p.is_array then empty_list else empty_object) v) [
      | none ↦ none
      | some inner ↦ some (
          list (
            append_item is (if p.is_array then inner else object (member p.path inner no_members))))
    ]
set_path p (q ∷ rest) (raw b) v = if p.is_array then some (raw b) else none

abbrev pub set_parts : List Part → Node → Node → Option Node
set_parts [] content v = none
set_parts (p ∷ ps) content v = set_path p ps content v

-- A looked-up field: its path, and its bytes unless the lookup of it failed.
pub record Field : Type 0 where
  pub path : List ℕ
  pub value : Option (List ℕ)

-- The loop of `fromSubDoc`: a field that failed is left out.
unfoldable pub from_subdoc : List Field → Node → Option Node
from_subdoc [] content = some content
from_subdoc (f ∷ fs) content = elim f.value [
  | none ↦ from_subdoc fs content
  | some v ↦ elim (set_parts (path_parts f.path) content (raw v)) [
    | none ↦ none
    | some content' ↦ from_subdoc fs content'
  ]
]
