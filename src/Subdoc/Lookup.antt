-- ===== src/Subdoc/Lookup.antt =====
-- LookupIn (internalLookupIn in kvprovider_coresubdoc.go, and LookupInResult in results.go): the specs
-- become operations, and what the server answers to each becomes the content at its index.
use gocb.Base.{
  ℕ, zero, suc, String, Bool, true, false, Option, none, some, List, [], ◌∷◌, str_eq, if◌then◌else◌,
}
use gocb.Subdoc.Specs.{Op, get, get_doc, exists, dict_set, set_doc, unset_op, LookupSpec}

-- gocbcore.SubDocOp, without a value; its flags are whether the path is that of an extended attribute.
pub record SubDocOp : Type 0 where
  pub op : Op
  pub path : String
  pub xattr : Bool

abbrev is_blank : String → Bool
is_blank path = str_eq path ""

-- The whole document, which has no extended attribute for a path.
unfoldable pub whole_document : Op → Bool → Option SubDocOp
whole_document op true = none
whole_document op false = some (record { op = op; path = ""; xattr = false })

abbrev at_path : LookupSpec → SubDocOp
at_path s = record { op = s.op; path = s.path; xattr = s.is_xattr }

abbrev blank_op : Op → LookupSpec → Option SubDocOp
blank_op get s = whole_document get_doc s.is_xattr
blank_op dict_set s = whole_document set_doc s.is_xattr
blank_op _ s = some (at_path s)

unfoldable pub lookup_op : LookupSpec → Option SubDocOp
lookup_op s = if is_blank s.path then blank_op s.op s else some (at_path s)

unfoldable pub lookup_ops : List LookupSpec → Option (List SubDocOp)
lookup_ops [] = some []
lookup_ops (s ∷ ss) = elim (lookup_op s) [
  | none ↦ none
  | some o ↦ elim (lookup_ops ss) [ none ↦ none | some os ↦ some (o ∷ os) ]
]

-- The server's answer to one operation.
pub data Answer (E : Type 0) : Type 0 where
  found : List ℕ → Answer E
  path_not_found : E → Answer E
  fails : E → Answer E

-- lookupInPartial: `data` is the JSON text.
pub record Partial (E : Type 0) : Type 0 where
  pub data_of : List ℕ
  pub error : Option E
  pub op : Op

-- `true` and `false` as bytes.
abbrev pub true_text : List ℕ
true_text = b't' ∷ b'r' ∷ b'u' ∷ b'e' ∷ []

abbrev pub false_text : List ℕ
false_text = b'f' ∷ b'a' ∷ b'l' ∷ b's' ∷ b'e' ∷ []

abbrev or_false : Option Bool → Bool
or_false none = false
or_false (some b) = b

module _ {E : Type 0} where
  -- The content of an exists operation, and of any other.
  unfoldable pub exists_partial : Answer E → Partial E
  exists_partial (found b) = record { data_of = true_text; error = none; op = exists }
  exists_partial (path_not_found e) = record { data_of = false_text; error = none; op = exists }
  exists_partial (fails e) = record { data_of = []; error = some e; op = exists }

  unfoldable pub value_partial : Op → Answer E → Partial E
  value_partial op (found b) = record { data_of = b; error = none; op = op }
  value_partial op (path_not_found e) = record { data_of = []; error = some e; op = op }
  value_partial op (fails e) = record { data_of = []; error = some e; op = op }

  unfoldable pub partial_of : Op → Answer E → Partial E
  partial_of exists a = exists_partial a
  partial_of op a = value_partial op a

  -- An entry that the server has not answered.
  abbrev pub no_partial : Partial E
  no_partial = record { data_of = []; error = none; op = unset_op }

  -- The callback's loop over the server's answers: an entry for each spec. More answers than specs would
  -- be out of range; they are left out here.
  unfoldable pub contents_of : List LookupSpec → List (Answer E) → List (Partial E)
  contents_of (s ∷ ss) (a ∷ as') = partial_of s.op a ∷ contents_of ss as'
  contents_of (s ∷ ss) [] = no_partial ∷ contents_of ss []
  contents_of [] as' = []

  module _ (to_bool : List ℕ → Option Bool) where
    abbrev read_bool : Option E → List ℕ → Bool
    read_bool none d = or_false (to_bool d)
    read_bool (some e) d = false

    abbrev no_error : Option E → Bool
    no_error none = true
    no_error (some e) = false

    -- `exists`: the content of an exists operation is read as a JSON Boolean.
    unfoldable pub partial_exists : Op → Partial E → Bool
    partial_exists exists p = read_bool p.error p.data_of
    partial_exists op p = no_error p.error

    -- `Exists`
    unfoldable pub exists_at : ℕ → List (Partial E) → Bool
    exists_at i [] = false
    exists_at zero (p ∷ ps) = partial_exists p.op p
    exists_at (suc i) (p ∷ ps) = exists_at i ps

  -- `ContentAt`: none if the index is out of range, or else the error or the content.
  unfoldable pub content_at : ℕ → List (Partial E) → Option (Partial E)
  content_at i [] = none
  content_at zero (p ∷ ps) = some p
  content_at (suc i) (p ∷ ps) = content_at i ps
