-- ===== src/Projection/Fields.antt =====
-- What a projection of dotted paths holds (GetResult.fromSubDoc in results.go).
use gocb.Base.{
  ℕ, ◌≡◌, refl, sym, ap, ap₂, ◌∙◌, ◌≢◌, ◌⊎◌, inl, inr, true, false, Option, none, some, List, [],
  ◌∷◌, map, if◌then◌else◌, Bool-cases, All,
}
use gocb.Go.Bytes.{same_bytes, same_bytes_refl, same_bytes-eq}
use gocb.Projection.Paths.{plain, IsName, join, path_parts-join}
use gocb.Projection.Content.{
  Node, raw, object, list, Members, no_members, member, put, find, assign, set_path, set_parts,
  empty_object, Field, from_subdoc,
}

-- A field that was found: the names of its path, and its bytes.
pub record Dotted : Type 0 where
  pub name : List ℕ
  pub rest : List (List ℕ)
  pub bytes : List ℕ

abbrev pub field_of : Dotted → Field
field_of d = record { path = join d.name d.rest; value = some d.bytes }

abbrev pub IsDotted : Dotted → Type 0
IsDotted d = IsName d.name × All IsName d.rest

-- A value below names, in objects that hold nothing else.
abbrev pub nest : List (List ℕ) → Node → Node
nest [] v = v
nest (k ∷ ks) v = object (member k (nest ks v) no_members)

-- What stands under a name after the fields, `o` being what stood there before.
pub last_named : List ℕ → List Dotted → Option Node → Option Node
last_named k [] o = o
last_named k (d ∷ ds) o =
    last_named k ds (if same_bytes d.name k then some (nest d.rest (raw d.bytes)) else o)

not_both : true ≡ false → ⊥
not_both p = cc

find-put :
    (k j : List ℕ) (v : Node) (m : Members)
    → find k (put j v m) ≡ (if same_bytes j k then some v else find k m)
unfolding find put
find-put k j v no_members = refl
find-put k j v (member i w m) = elim (Bool-cases (same_bytes i j)) [
  | inl e ↦ rw (e, find, put) (overwritten (Bool-cases (same_bytes j k)) (same_bytes-eq i j e))
  | inr e ↦ rw (e, find, put) (behind e (find-put k j v m) (Bool-cases (same_bytes i k)))
]
  where
    overwritten :
        (same_bytes j k ≡ true) ⊎ (same_bytes j k ≡ false)
        → i ≡ j
        → (if same_bytes j k then some v else find k m)
          ≡ (if same_bytes j k then some v else (if same_bytes i k then some w else find k m))
    overwritten (inl h) p = rw h refl
    overwritten (inr h) p = rw (p, h) refl

    behind :
        same_bytes i j ≡ false
        → find k (put j v m) ≡ (if same_bytes j k then some v else find k m)
        → (same_bytes i k ≡ true) ⊎ (same_bytes i k ≡ false)
        → (if same_bytes i k then some w else find k (put j v m))
          ≡ (if same_bytes j k then some v else (if same_bytes i k then some w else find k m))
    behind e r (inr h) = rw h r
    behind e r (inl h) = elim (Bool-cases (same_bytes j k)) [
      | inr q ↦ rw (h, q) refl
      | inl q ↦ absurd (
          not_both (
            sym (ap₂ same_bytes (same_bytes-eq i k h) (same_bytes-eq j k q) ∙ same_bytes_refl k)
            ∙ e))
    ]

set_path-nest :
    (k : List ℕ) (ks : List (List ℕ)) (m : Members) (v : Node)
    → set_path (plain k) (map plain ks) (object m) v ≡ some (object (put k (nest ks v) m))
unfolding set_path assign put
set_path-nest k [] m v = refl
set_path-nest k (j ∷ ks) m v =
    ap (λ o. elim o [ none ↦ none | some inner ↦ some (object (put k inner m)) ])
      (set_path-nest j ks no_members v)

from_subdoc-found :
    (ds : List Dotted) (m : Members)
    → All IsDotted ds
    → (m' : Members) × (from_subdoc (map field_of ds) (object m) ≡ some (object m'))
      × ((k : List ℕ) → find k m' ≡ last_named k ds (find k m))
unfolding from_subdoc last_named
from_subdoc-found [] m h = (m, refl, λ k. refl)
from_subdoc-found (d ∷ ds) m h =
    let next = put d.name (nest d.rest (raw d.bytes)) m in
    let (m', e, f) = from_subdoc-found ds next h.1 in
    (
      m',
      ap
            (λ ps. elim (set_parts ps (object m) (raw d.bytes)) [
              | none ↦ none
              | some content ↦ from_subdoc (map field_of ds) content
            ])
            (path_parts-join d.name d.rest h.0.0 h.0.1)
          ∙ ap (λ o. elim o [ none ↦ none | some content ↦ from_subdoc (map field_of ds) content ])
              (set_path-nest d.name d.rest m (raw d.bytes))
          ∙ e,
      λ k. f k ∙ ap (last_named k ds) (find-put k d.name (nest d.rest (raw d.bytes)) m),
    )

-- A projection of fields that were found at dotted paths, of names that are not empty and have no
-- dots or brackets, holds under each top-level name what the last field that begins with the name
-- puts there: its value, below the other names of its path, and nothing else.
pub from_subdoc-last_named :
    (ds : List Dotted)
    → All IsDotted ds
    → (m : Members) × (from_subdoc (map field_of ds) empty_object ≡ some (object m))
      × ((k : List ℕ) → find k m ≡ last_named k ds none)
unfolding find
from_subdoc-last_named ds h = from_subdoc-found ds no_members h

-- The node at names in the document, through objects.
pub read_at : List (List ℕ) → Node → Option Node
read_at [] n = some n
read_at (k ∷ ks) (raw b) = none
read_at (k ∷ ks) (list is) = none
read_at (k ∷ ks) (object m) = elim (find k m) [ none ↦ none | some n ↦ read_at ks n ]

abbrev pub two_deep : List ℕ → List ℕ → List ℕ → Dotted
two_deep a x v = record { name = a; rest = x ∷ []; bytes = v }

-- Of two fields of one object, whose names are different, not empty and without dots or brackets,
-- the projection keeps the second alone, though both were found.
pub siblings_lost :
    (a x y v w : List ℕ)
    → IsName a
    → IsName x
    → IsName y
    → x ≢ y
    → (m : Members) × (from_subdoc
          (map field_of (two_deep a x v ∷ two_deep a y w ∷ []))
          empty_object
        ≡ some (object m))
      × (read_at (a ∷ x ∷ []) (object m) ≡ none)
      × (read_at (a ∷ y ∷ []) (object m) ≡ some (raw w))
unfolding read_at last_named find
siblings_lost a x y v w ha hx hy ne =
    let (m, e, f) =
      from_subdoc-last_named (two_deep a x v ∷ two_deep a y w ∷ [])
        ((ha, (hx, tt)), ((ha, (hy, tt)), tt)) in
    let kept : find a m ≡ some (nest (y ∷ []) (raw w)) = f a ∙ second (same_bytes_refl a) in
    (
      m,
      e,
      ap (at x) kept ∙ other (Bool-cases (same_bytes y x)),
      ap (at y) kept ∙ same (same_bytes_refl y),
    )
  where
    at : List ℕ → Option Node → Option Node
    at k o = elim o [ none ↦ none | some n ↦ read_at (k ∷ []) n ]

    second :
        same_bytes a a ≡ true
        → (if same_bytes a a
            then some (nest (y ∷ []) (raw w))
            else (if same_bytes a a then some (nest (x ∷ []) (raw v)) else none))
          ≡ some (nest (y ∷ []) (raw w))
    second h = rw h refl

    other :
        (same_bytes y x ≡ true) ⊎ (same_bytes y x ≡ false)
        → at x (some (nest (y ∷ []) (raw w))) ≡ none
    other (inl h) = absurd (ne (sym (same_bytes-eq y x h)))
    other (inr h) = rw (h, find, read_at) refl

    same : same_bytes y y ≡ true → at y (some (nest (y ∷ []) (raw w))) ≡ some (raw w)
    same h = rw (h, find, read_at) refl
