-- ===== src/Projection/Get.antt =====
-- Get with projections or with its expiry (getProjected in kvprovider_core.go, and fromFullProjection in
-- results.go): which paths are looked up, and what their contents become. Reading JSON is a parameter;
-- `none` is an error, or a panic.
use gocb.Base.{
  ℕ, ◌+◌, ◌≡◌, refl, Bool, true, false, Option, none, some, List, [], ◌∷◌, ◌++◌, map, ltb,
  if◌then◌else◌, length,
}
use gocb.Projection.Paths.{path_parts}
use gocb.Projection.Content.{raw, Field, Members, Node, empty_object, find, from_subdoc, set_parts}

-- A get spec: its path, and whether it is that of an extended attribute.
pub record Spec : Type 0 where
  pub path : List ℕ
  pub is_xattr : Bool

-- "$document.exptime" and "$document.flags".
pub record Attributes : Type 0 where
  pub exptime : List ℕ
  pub flags : List ℕ

abbrev pub plain_spec : List ℕ → Spec
plain_spec p = record { path = p; is_xattr = false }

abbrev pub attribute_spec : List ℕ → Spec
attribute_spec p = record { path = p; is_xattr = true }

-- `opts.Project`, which may be nil.
abbrev pub project_list : Option (List (List ℕ)) → List (List ℕ)
project_list none = []
project_list (some ps) = ps

unfoldable pub path_specs : List (List ℕ) → List Spec
path_specs [] = plain_spec [] ∷ []
path_specs (p ∷ ps) = map plain_spec (p ∷ ps)

module _ (at : Attributes) (with_expiry : Bool) where
  unfoldable pub num_projects : Option (List (List ℕ)) → ℕ
  num_projects project =
      if with_expiry then 1 + length (project_list project) else length (project_list project)

  -- More than 16 make the projection nil.
  unfoldable pub projections : Option (List (List ℕ)) → Option (List (List ℕ))
  projections project = if ltb 16 (num_projects project) then none else project

  -- The flags are fetched as well with a full document.
  unfoldable pub attribute_specs : List (List ℕ) → List Spec
  attribute_specs [] =
      if with_expiry then attribute_spec at.exptime ∷ attribute_spec at.flags ∷ [] else []
  attribute_specs (p ∷ ps) = if with_expiry then attribute_spec at.exptime ∷ [] else []

  unfoldable pub get_specs : Option (List (List ℕ)) → List Spec
  get_specs project =
      attribute_specs (project_list project) ++ path_specs (project_list (projections project))

-- A value of the Go map that is missing is nil, which is written as null.
abbrev pub or_null : Option Node → Node
or_null none = raw (b'n' ∷ b'u' ∷ b'l' ∷ b'l' ∷ [])
or_null (some v) = v

-- The loop of `fromFullProjection` over the fields, for the members of the document.
unfoldable pub full_fields : Members → List (List ℕ) → Node → Option Node
full_fields m [] content = some content
full_fields m (f ∷ fs) content = elim (set_parts (path_parts f) content (or_null (find f m))) [
  | none ↦ none
  | some content' ↦ full_fields m fs content'
]

module _ (read_object : List ℕ → Option Members) where
  unfoldable pub full_projection : List (List ℕ) → List Field → Option Node
  full_projection [] [] = none
  full_projection [] (c ∷ cs) = some (raw (or_no_bytes c.value))
    where
      or_no_bytes : Option (List ℕ) → List ℕ
      or_no_bytes none = []
      or_no_bytes (some b) = b
  full_projection (f ∷ fs) (c ∷ []) = elim c.value [
    | none ↦ none
    | some b ↦ elim (read_object b) [ none ↦ none | some m ↦ full_fields m (f ∷ fs) empty_object ]
  ]
  full_projection (f ∷ fs) _ = none

  -- What the contents of the paths become, those of the attributes being taken off before.
  unfoldable pub projected :
      Option (List (List ℕ)) → Option (List (List ℕ)) → List Field → Option Node
  projected none project contents = full_projection (project_list project) contents
  projected (some ps) project contents = from_subdoc contents empty_object

-- With more than 16 projections, a path that is no name of a member of the document itself, such as one
-- with a dot, is projected as null, whatever the document holds there; and so is a field that is missing,
-- which with fewer projections is left out.
pub full_fields_null :
    (m : Members) (f : List ℕ)
    → find f m ≡ none
    → full_fields m (f ∷ []) empty_object
      ≡ from_subdoc
          (record { path = f; value = some (b'n' ∷ b'u' ∷ b'l' ∷ b'l' ∷ []) } ∷ [])
          empty_object
unfolding full_fields from_subdoc
full_fields_null m f e = rw (e, full_fields) refl
