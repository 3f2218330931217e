-- ===== src/Subdoc/Mutate.antt =====
-- MutateIn up to its request (MutateIn, internalMutateIn, jsonMarshalMutateSpec and
-- jsonMarshalMultiArray in kvprovider_coresubdoc.go). `marshal` is the JSON package; a JSON text is its
-- bytes, and flags are a record of Booleans.
use gocb.Base.{
  ℕ, String, ◌⊎◌, inl, inr, Bool, true, false, ◌&&◌, ◌||◌, Option, none, some, List, [], ◌∷◌,
  str_eq, ◌==◌, if◌then◌else◌,
}
use gocb.Go.Word.{lt_int64}
use gocb.KvOps.Level.{DurabilityLevel}
use gocb.KvOps.Manager.{
  OpError, Parent, Manager, new_manager, set_timeout, set_preserve_expiry, set_dura_options,
  check_ready, durability_timeout, get_deadline,
}
use gocb.KvOps.Expiry.{duration_to_expiry}
use gocb.Subdoc.Specs.{
  Op, dict_add, dict_set, replace, delete, array_push_last, array_push_first, array_insert,
  array_add_unique, set_doc, add_doc, delete_doc, Value, nil, macro, given, MutateSpec,
}

pub data StoreSemantics : Type 0 where
  replace_semantics upsert_semantics insert_semantics other_semantics : StoreSemantics

-- memd.SubdocDocFlag: the two flags that the semantics set, and all others.
pub record DocFlags : Type 0 where
  pub mk_doc : Bool
  pub add_doc_flag : Bool
  pub others : ℕ

-- memd.SubdocFlag
pub record PathFlags : Type 0 where
  pub mkdir_p : Bool
  pub xattr_path : Bool
  pub expand_macros : Bool

abbrev pub no_flags : PathFlags
no_flags = record { mkdir_p = false; xattr_path = false; expand_macros = false }

-- gocbcore.SubDocOp
pub record Mutation : Type 0 where
  pub op : Op
  pub flags : PathFlags
  pub path : String
  pub value : List ℕ

-- The errors of a MutateIn before its request, with those `E` of the JSON package.
pub data MutateError (E : Type 0) : Type 0 where
  not_ready : OpError → MutateError E
  preserve_with_expiry preserve_with_insert invalid_semantics : MutateError E
  blank_insert blank_upsert not_an_array : MutateError E
  not_marshalled : E → MutateError E

module _ {E : Type 0} where
  -- The flags of the document, for the semantics, the expiry and whether it is preserved.
  unfoldable pub doc_flags : StoreSemantics → ℕ → Bool → DocFlags → MutateError E ⊎ DocFlags
  doc_flags replace_semantics expiry preserve f =
      if lt_int64 0 expiry && preserve then inl preserve_with_expiry else inr f
  doc_flags upsert_semantics expiry preserve f = inr (record f { mk_doc = true })
  doc_flags insert_semantics expiry preserve f =
      if preserve then inl preserve_with_insert else inr (record f { add_doc_flag = true })
  doc_flags other_semantics expiry preserve f = inl invalid_semantics

  -- The operation that a blank path makes of an operation.
  unfoldable pub blank_path_op : Op → MutateError E ⊎ Op
  blank_path_op dict_add = inl blank_insert
  blank_path_op dict_set = inl blank_upsert
  blank_path_op delete = inr delete_doc
  blank_path_op replace = inr set_doc
  blank_path_op op = inr op

  unfoldable pub path_op : String → Op → MutateError E ⊎ Op
  path_op path op = if str_eq path "" then blank_path_op op else inr op

-- Does the operation write a value?
unfoldable pub writes_value : Op → Bool
writes_value dict_add = true
writes_value dict_set = true
writes_value replace = true
writes_value array_push_last = true
writes_value array_push_first = true
writes_value array_insert = true
writes_value array_add_unique = true
writes_value set_doc = true
writes_value add_doc = true
writes_value _ = false

abbrev pub null_text : List ℕ
null_text = b'n' ∷ b'u' ∷ b'l' ∷ b'l' ∷ []

-- All but the last byte.
unfoldable pub all_but_last : List ℕ → List ℕ
all_but_last [] = []
all_but_last (x ∷ []) = []
all_but_last (x ∷ y ∷ ys) = x ∷ all_but_last (y ∷ ys)

module _ {E : Type 0} where
  unfoldable pub strip_brackets : List ℕ → MutateError E ⊎ List ℕ
  strip_brackets [] = inl not_an_array
  strip_brackets (c ∷ []) = inl not_an_array
  strip_brackets (c ∷ d ∷ ds) = if c == b'[' then inr (all_but_last (d ∷ ds)) else inl not_an_array

  abbrev pub marshalled : E ⊎ List ℕ → MutateError E ⊎ List ℕ
  marshalled (inl e) = inl (not_marshalled e)
  marshalled (inr b) = inr b

  -- `jsonMarshalMultiArray`, for what marshalling has returned.
  unfoldable pub marshal_multi_array : E ⊎ List ℕ → MutateError E ⊎ List ℕ
  marshal_multi_array (inl e) = inl (not_marshalled e)
  marshal_multi_array (inr b) = strip_brackets b

module _ {V E : Type 0} (marshal : V → E ⊎ List ℕ) where
  -- `jsonMarshalMutateSpec`: the text, and with a macro two flags.
  unfoldable pub marshal_spec : Op → Bool → Value V → MutateError E ⊎ List ℕ
  marshal_spec op multi nil = inr (if writes_value op then null_text else [])
  marshal_spec op multi (macro b) = inr b
  marshal_spec op true (given v) = marshal_multi_array (marshal v)
  marshal_spec op false (given v) = marshalled (marshal v)

  abbrev pub is_macro : Value V → Bool
  is_macro (macro b) = true
  is_macro _ = false

  unfoldable pub flags_of : MutateSpec V → PathFlags
  flags_of s = record {
    mkdir_p = s.create_path;
    xattr_path = is_macro s.value || s.is_xattr;
    expand_macros = is_macro s.value;
  }

  abbrev pub mutation_with : MutateSpec V → Op → MutateError E ⊎ List ℕ → MutateError E ⊎ Mutation
  mutation_with s op (inl e) = inl e
  mutation_with s op (inr b) =
      inr (record { op = op; flags = flags_of s; path = s.path; value = b })

  abbrev pub mutation_at : MutateSpec V → MutateError E ⊎ Op → MutateError E ⊎ Mutation
  mutation_at s (inl e) = inl e
  mutation_at s (inr op) = mutation_with s op (marshal_spec op s.multi_value s.value)

  -- One round of the loop over the specs.
  unfoldable pub mutation_of : MutateSpec V → MutateError E ⊎ Mutation
  mutation_of s = mutation_at s (path_op s.path s.op)

  abbrev pub cons_mutation :
      MutateError E ⊎ Mutation → MutateError E ⊎ List Mutation → MutateError E ⊎ List Mutation
  cons_mutation (inl e) rest = inl e
  cons_mutation (inr o) (inl e) = inl e
  cons_mutation (inr o) (inr os) = inr (o ∷ os)

  -- The loop, which the first error ends.
  unfoldable pub mutations_of : List (MutateSpec V) → MutateError E ⊎ List Mutation
  mutations_of [] = inr []
  mutations_of (s ∷ ss) = cons_mutation (mutation_of s) (mutations_of ss)

-- MutateInOptions, with the durations as int64 patterns.
pub record MutateOptions : Type 0 where
  pub timeout : ℕ
  pub expiry : ℕ
  pub cas : ℕ
  pub persist_to : ℕ
  pub replicate_to : ℕ
  pub durability_level : DurabilityLevel
  pub store_semantic : StoreSemantics
  pub preserve_expiry : Bool
  pub doc_flags_given : DocFlags

-- gocbcore.MutateInOptions
pub record MutateRequest : Type 0 where
  pub flags : DocFlags
  pub cas : ℕ
  pub ops : List Mutation
  pub expiry : ℕ
  pub durability_level : ℕ
  pub durability_timeout_of : ℕ
  pub deadline : ℕ
  pub preserve_expiry : Bool

-- The manager that MutateIn sets up.
unfoldable pub mutate_manager : Parent → MutateOptions → Manager
mutate_manager parent o =
    set_dura_options o.persist_to o.replicate_to o.durability_level
      (set_preserve_expiry o.preserve_expiry (set_timeout o.timeout (new_manager parent)))

module _ (now : ℕ) (scale : ℕ → ℕ) (m : Manager) (o : MutateOptions) where
  -- The request, at the time `now`.
  unfoldable pub request_of : DocFlags → List Mutation → MutateRequest
  request_of f os = record {
    flags = f;
    cas = o.cas;
    ops = os;
    expiry = duration_to_expiry now o.expiry;
    durability_level = m.durability_level;
    durability_timeout_of = durability_timeout scale m;
    deadline = (get_deadline now m).0;
    preserve_expiry = m.preserve_ttl;
  }

  module _ {V E : Type 0} (marshal : V → E ⊎ List ℕ) (specs : List (MutateSpec V)) where
    abbrev pub with_ops : DocFlags → MutateError E ⊎ List Mutation → MutateError E ⊎ MutateRequest
    with_ops f (inl e) = inl e
    with_ops f (inr os) = inr (request_of f os)

    abbrev pub with_flags : MutateError E ⊎ DocFlags → MutateError E ⊎ MutateRequest
    with_flags (inl e) = inl e
    with_flags (inr f) = with_ops f (mutations_of marshal specs)

    -- `internalMutateIn`
    unfoldable pub internal_mutate_in : MutateError E ⊎ MutateRequest
    internal_mutate_in =
        with_flags (doc_flags o.store_semantic o.expiry m.preserve_ttl o.doc_flags_given)

    -- `MutateIn`, for a manager that is set up.
    unfoldable pub mutate_ready : Option OpError → MutateError E ⊎ MutateRequest
    mutate_ready (some e) = inl (not_ready e)
    mutate_ready none = internal_mutate_in

-- `MutateIn`, up to the request.
unfoldable pub mutate_in :
    {V E : Type 0}
    → ℕ
    → (ℕ → ℕ)
    → (V → E ⊎ List ℕ)
    → Parent
    → List (MutateSpec V)
    → MutateOptions
    → MutateError E ⊎ MutateRequest
mutate_in now scale marshal parent specs o =
    mutate_ready now scale (mutate_manager parent o) o marshal specs
      (check_ready (mutate_manager parent o))
