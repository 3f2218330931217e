-- ===== src/Projection/Specs.antt =====
-- Which paths a Get looks up (getProjected in kvprovider_core.go).
use gocb.Base.{ℕ, ◌+◌, Bool, true, false, List, [], ◌∷◌, if◌then◌else◌, length}
use gocb.Projection.Get.{Attributes, Spec}

-- The paths of the specs that are in the document, and of those that are extended attributes.
abbrev pub plain_paths : List Spec → List (List ℕ)
plain_paths [] = []
plain_paths (s ∷ ss) = if s.is_xattr then plain_paths ss else s.path ∷ plain_paths ss

abbrev pub attribute_paths : List Spec → List (List ℕ)
attribute_paths [] = []
attribute_paths (s ∷ ss) = if s.is_xattr then s.path ∷ attribute_paths ss else attribute_paths ss

-- With the expiry, its attribute is looked up, and that of the flags if nothing is projected.
abbrev pub attributes_of : Attributes → Bool → List (List ℕ) → List (List ℕ)
attributes_of at false ps = []
attributes_of at true [] = at.exptime ∷ at.flags ∷ []
attributes_of at true (p ∷ ps) = at.exptime ∷ []

-- How many lookups the projections and the expiry are.
abbrev pub asked : Bool → List (List ℕ) → ℕ
asked e ps = length ps + (if e then 1 else 0)
