-- ===== src/Subdoc/Specs.antt =====
-- The specs of subdocument operations (subdocspecs.go). A path is a text; a value is one of `V`, a macro
-- of the server, or nil.
use gocb.Base.{ℕ, ◌-◌, ◌%◌, ◌^◌, String, Bool, false, Option, none, some, List}

-- The operations of the memcached protocol, and the zero value of an operation that nothing has set.
pub data Op : Type 0 where
  get get_doc get_count exists dict_add dict_set replace delete array_push_last : Op
  array_push_first array_insert array_add_unique counter set_doc add_doc delete_doc unset_op : Op

pub data Value (V : Type 0) : Type 0 where
  nil : Value V
  macro : List ℕ → Value V
  given : V → Value V

pub record LookupSpec : Type 0 where
  pub op : Op
  pub path : String
  pub is_xattr : Bool

pub record MutateSpec (V : Type 0) : Type 0 where
  pub op : Op
  pub create_path : Bool
  pub is_xattr : Bool
  pub path : String
  pub value : Value V
  pub multi_value : Bool

-- The options of a spec; none are empty options.
pub record Options : Type 0 where
  pub create_path : Bool
  pub is_xattr : Bool
  pub has_multiple : Bool

abbrev pub or_empty : Option Options → Options
or_empty none = record { create_path = false; is_xattr = false; has_multiple = false }
or_empty (some o) = o

unfoldable pub get_spec : String → Option Options → LookupSpec
get_spec path o = record { op = get; path = path; is_xattr = (or_empty o).is_xattr }

unfoldable pub exists_spec : String → Option Options → LookupSpec
exists_spec path o = record { op = exists; path = path; is_xattr = (or_empty o).is_xattr }

unfoldable pub count_spec : String → Option Options → LookupSpec
count_spec path o = record { op = get_count; path = path; is_xattr = (or_empty o).is_xattr }

module _ {V : Type 0} where
  -- A spec that takes one value, and may create its path.
  abbrev single : Op → String → Value V → Option Options → MutateSpec V
  single op path v o = record {
    op = op;
    create_path = (or_empty o).create_path;
    is_xattr = (or_empty o).is_xattr;
    path = path;
    value = v;
    multi_value = false;
  }

  unfoldable pub insert_spec : String → Value V → Option Options → MutateSpec V
  insert_spec path v o = single dict_add path v o

  unfoldable pub upsert_spec : String → Value V → Option Options → MutateSpec V
  upsert_spec path v o = single dict_set path v o

  unfoldable pub array_add_unique_spec : String → Value V → Option Options → MutateSpec V
  array_add_unique_spec path v o = single array_add_unique path v o

  unfoldable pub replace_spec : String → Value V → Option Options → MutateSpec V
  replace_spec path v o = record (single replace path v o) { create_path = false }

  unfoldable pub remove_spec : String → Option Options → MutateSpec V
  remove_spec path o = record (single delete path nil o) { create_path = false }

  abbrev many : Op → String → Value V → Option Options → MutateSpec V
  many op path v o = record (single op path v o) { multi_value = (or_empty o).has_multiple }

  unfoldable pub array_append_spec : String → Value V → Option Options → MutateSpec V
  array_append_spec path v o = many array_push_last path v o

  unfoldable pub array_prepend_spec : String → Value V → Option Options → MutateSpec V
  array_prepend_spec path v o = many array_push_first path v o

  unfoldable pub array_insert_spec : String → Value V → Option Options → MutateSpec V
  array_insert_spec path v o = many array_insert path v o

-- The value of a counter spec is an int64, as its pattern.
unfoldable pub increment_spec : String → ℕ → Option Options → MutateSpec ℕ
increment_spec path delta o = single counter path (given delta) o

unfoldable pub decrement_spec : String → ℕ → Option Options → MutateSpec ℕ
decrement_spec path delta o = single counter path (given ((2 ^ 64 - delta) % 2 ^ 64)) o
