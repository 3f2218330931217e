-- ===== src/Subdoc/Writable.antt =====
-- Which requests MutateIn makes (kvprovider_coresubdoc.go).
use gocb.Base.{
  ℕ, String, ◌≡◌, refl, ap, ap₂, ◌∙◌, ◌⊎◌, inl, inr, Bool, true, false, not, ◌&&◌, Option, none,
  some, List, [], ◌∷◌, str_eq, ◌==◌, if◌then◌else◌,
}
use gocb.Go.Word.{lt_int64}
use gocb.KvOps.Manager.{Manager, OpError, Parent, check_ready}
use gocb.Subdoc.Specs.{
  MutateSpec, Op, Value, delete, dict_add, dict_set, given, macro, nil, replace,
}
use gocb.Subdoc.Mutate.{
  DocFlags, MutateError, MutateOptions, Mutation, StoreSemantics, all_but_last, blank_path_op,
  cons_mutation, doc_flags, insert_semantics, internal_mutate_in, marshal_multi_array, marshal_spec,
  marshalled, mutate_in, mutate_manager, mutate_ready, mutation_at, mutation_of, mutation_with,
  mutations_of, not_an_array, other_semantics, path_op, preserve_with_expiry, replace_semantics,
  strip_brackets, upsert_semantics, with_flags, with_ops,
}

abbrev pub is_inr : {E A : Type 0} → E ⊎ A → Bool
is_inr (inl e) = false
is_inr (inr a) = true

abbrev pub inserts : Op → Bool
inserts dict_add = true
inserts dict_set = true
inserts _ = false

-- A JSON text of an array: it is not empty, and starts with a bracket.
abbrev pub is_array : {E : Type 0} → E ⊎ List ℕ → Bool
is_array (inr (c ∷ d ∷ ds)) = c == b'['
is_array _ = false

abbrev pub is_allowed : StoreSemantics → ℕ → Bool → Bool
is_allowed replace_semantics expiry preserve = not (lt_int64 0 expiry && preserve)
is_allowed upsert_semantics expiry preserve = true
is_allowed insert_semantics expiry preserve = not preserve
is_allowed other_semantics expiry preserve = false

abbrev pub is_none : {A : Type 0} → Option A → Bool
is_none none = true
is_none (some a) = false

module _ {V E : Type 0} (marshal : V → E ⊎ List ℕ) where
  -- The JSON package writes the value, an array where several values are given.
  abbrev pub encodes : Bool → Value V → Bool
  encodes multi nil = true
  encodes multi (macro b) = true
  encodes true (given v) = is_array (marshal v)
  encodes false (given v) = is_inr (marshal v)

  -- A spec that neither inserts nor upserts at a blank path, and whose value can be written.
  abbrev pub is_writable : MutateSpec V → Bool
  is_writable s = not (str_eq s.path "" && inserts s.op) && encodes s.multi_value s.value

  abbrev pub all_writable : List (MutateSpec V) → Bool
  all_writable [] = true
  all_writable (s ∷ ss) = is_writable s && all_writable ss

  path_op-is_inr :
      (path : String) (op : Op)
      → is_inr (path_op {E = E} path op) ≡ not (str_eq path "" && inserts op)
  unfolding path_op blank_path_op
  path_op-is_inr path op = by_op (str_eq path "") op
    where
      by_op :
          (b : Bool) (op : Op)
          → is_inr (if b then blank_path_op {E = E} op else inr op) ≡ not (b && inserts op)
      by_op false op = refl
      by_op true dict_add = refl
      by_op true dict_set = refl
      by_op true delete = refl
      by_op true replace = refl
      by_op true _ = refl

  marshal_spec-is_inr :
      (op : Op) (multi : Bool) (v : Value V)
      → is_inr (marshal_spec marshal op multi v) ≡ encodes multi v
  unfolding marshal_spec marshal_multi_array strip_brackets
  marshal_spec-is_inr op multi nil = refl
  marshal_spec-is_inr op multi (macro b) = refl
  marshal_spec-is_inr op true (given v) = array (marshal v)
    where
      array : (r : E ⊎ List ℕ) → is_inr (marshal_multi_array r) ≡ is_array r
      array (inl e) = refl
      array (inr []) = refl
      array (inr (c ∷ [])) = refl
      array (inr (c ∷ d ∷ ds)) = bracket (c == b'[')
        where
          bracket :
              (b : Bool)
              → is_inr {E = MutateError E}
                  (if b then inr (all_but_last (d ∷ ds)) else inl not_an_array)
                ≡ b
          bracket true = refl
          bracket false = refl
  marshal_spec-is_inr op false (given v) = one (marshal v)
    where
      one : (r : E ⊎ List ℕ) → is_inr (marshalled r) ≡ is_inr r
      one (inl e) = refl
      one (inr b) = refl

  mutation_of-is_writable : (s : MutateSpec V) → is_inr (mutation_of marshal s) ≡ is_writable s
  unfolding mutation_of
  mutation_of-is_writable s =
      with_op (path_op s.path s.op)
      ∙ ap (λ b. b && encodes s.multi_value s.value) (path_op-is_inr s.path s.op)
    where
      with_text :
          (op : Op) (r : MutateError E ⊎ List ℕ) → is_inr (mutation_with marshal s op r) ≡ is_inr r
      with_text op (inl e) = refl
      with_text op (inr b) = refl

      with_op :
          (r : MutateError E ⊎ Op)
          → is_inr (mutation_at marshal s r) ≡ (is_inr r && encodes s.multi_value s.value)
      with_op (inl e) = refl
      with_op (inr op) =
          with_text op (marshal_spec marshal op s.multi_value s.value)
          ∙ marshal_spec-is_inr op s.multi_value s.value

  mutations_of-all_writable :
      (ss : List (MutateSpec V)) → is_inr (mutations_of marshal ss) ≡ all_writable ss
  unfolding mutations_of
  mutations_of-all_writable [] = refl
  mutations_of-all_writable (s ∷ ss) =
      both (mutation_of marshal s) (mutations_of marshal ss)
      ∙ ap₂ (λ a b. a && b) (mutation_of-is_writable s) (mutations_of-all_writable ss)
    where
      both :
          (r : MutateError E ⊎ Mutation) (rs : MutateError E ⊎ List Mutation)
          → is_inr (cons_mutation marshal r rs) ≡ (is_inr r && is_inr rs)
      both (inl e) rs = refl
      both (inr o) (inl e) = refl
      both (inr o) (inr os) = refl

  doc_flags-is_allowed :
      (action : StoreSemantics) (expiry : ℕ) (preserve : Bool) (f : DocFlags)
      → is_inr (doc_flags {E = E} action expiry preserve f) ≡ is_allowed action expiry preserve
  unfolding doc_flags
  doc_flags-is_allowed replace_semantics expiry preserve f = by_test (lt_int64 0 expiry && preserve)
    where
      by_test :
          (b : Bool)
          → is_inr {E = MutateError E} (if b then inl preserve_with_expiry else inr f) ≡ not b
      by_test true = refl
      by_test false = refl
  doc_flags-is_allowed upsert_semantics expiry preserve f = refl
  doc_flags-is_allowed insert_semantics expiry true f = refl
  doc_flags-is_allowed insert_semantics expiry false f = refl
  doc_flags-is_allowed other_semantics expiry preserve f = refl

  -- MutateIn makes a request exactly if its manager is ready for an operation, its semantics go with its
  -- expiry and with preserving it, no spec inserts or upserts at a blank path, and every value can be
  -- written, as an array where the spec has several values.
  pub mutate_in-is_writable :
      (now : ℕ) (scale : ℕ → ℕ) (parent : Parent) (specs : List (MutateSpec V)) (o : MutateOptions)
      → is_inr (mutate_in now scale marshal parent specs o) ≡ (
          is_none (check_ready (mutate_manager parent o))
          && is_allowed o.store_semantic o.expiry (mutate_manager parent o).preserve_ttl
          && all_writable specs)
  unfolding mutate_in mutate_ready internal_mutate_in
  mutate_in-is_writable now scale parent specs o = ready (check_ready (mutate_manager parent o))
    where
      m : Manager
      m = mutate_manager parent o

      with_os :
          (f : DocFlags) (r : MutateError E ⊎ List Mutation)
          → is_inr (with_ops now scale m o marshal specs f r) ≡ is_inr r
      with_os f (inl e) = refl
      with_os f (inr os) = refl

      with_f :
          (r : MutateError E ⊎ DocFlags)
          → is_inr (with_flags now scale m o marshal specs r) ≡ (is_inr r && all_writable specs)
      with_f (inl e) = refl
      with_f (inr f) = with_os f (mutations_of marshal specs) ∙ mutations_of-all_writable specs

      ready :
          (r : Option OpError)
          → is_inr (mutate_ready now scale m o marshal specs r) ≡ (
              is_none r
              && is_allowed o.store_semantic o.expiry m.preserve_ttl
              && all_writable specs)
      ready (some e) = refl
      ready none =
          with_f (doc_flags o.store_semantic o.expiry m.preserve_ttl o.doc_flags_given)
          ∙ ap (λ b. b && all_writable specs)
              (doc_flags-is_allowed o.store_semantic o.expiry m.preserve_ttl o.doc_flags_given)
