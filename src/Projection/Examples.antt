-- ===== src/Projection/Examples.antt =====
-- Concrete paths and projections (results.go).
use gocb.Base.{ℕ, ◌≡◌, ap, ◌≢◌, Option, none, some, List, [], ◌∷◌, map, arith}
use gocb.Projection.Get.{Attributes}
use gocb.Projection.Content.{raw, object, Members, empty_object, find, from_subdoc}
use gocb.Projection.Fields.{
  Dotted, field_of, from_subdoc-last_named, last_named, read_at, siblings_lost, two_deep,
}
use gocb.Projection.Paths.{IsName, join, path_parts, path_parts-join, plain}

abbrev geo : List ℕ
geo = b'g' ∷ b'e' ∷ b'o' ∷ []

abbrev lat : List ℕ
lat = b'l' ∷ b'a' ∷ b't' ∷ []

geo-IsName : IsName geo
geo-IsName = ground arith

lat-IsName : IsName lat
lat-IsName = ground arith

path_parts-join_example : path_parts (join geo (lat ∷ [])) ≡ map plain (geo ∷ lat ∷ [])
path_parts-join_example = path_parts-join geo (lat ∷ []) geo-IsName (lat-IsName, tt)

abbrev lon : List ℕ
lon = b'l' ∷ b'o' ∷ b'n' ∷ []

lon-IsName : IsName lon
lon-IsName = ground arith

abbrev second_byte : List ℕ → ℕ
second_byte (x ∷ y ∷ ys) = y
second_byte _ = 0

lat_is_not_lon : lat ≢ lon
lat_is_not_lon = λ p. let q : b'a' ≡ b'o' = ap second_byte p in omega (arith, q)

abbrev two_fields : List Dotted
two_fields = two_deep geo lat (b'1' ∷ []) ∷ record { name = lon; rest = []; bytes = b'2' ∷ [] } ∷ []

from_subdoc-last_named_example :
    (m : Members) × (from_subdoc (map field_of two_fields) empty_object ≡ some (object m))
    × ((k : List ℕ) → find k m ≡ last_named k two_fields none)
from_subdoc-last_named_example =
    from_subdoc-last_named two_fields ((geo-IsName, (lat-IsName, tt)), ((lon-IsName, tt), tt))

siblings_lost_example :
    (m : Members) × (from_subdoc
        (map field_of (two_deep geo lat (b'1' ∷ []) ∷ two_deep geo lon (b'2' ∷ []) ∷ []))
        empty_object
      ≡ some (object m))
    × (read_at (geo ∷ lat ∷ []) (object m) ≡ none)
    × (read_at (geo ∷ lon ∷ []) (object m) ≡ some (raw (b'2' ∷ [])))
siblings_lost_example =
    siblings_lost geo lat lon (b'1' ∷ []) (b'2' ∷ []) geo-IsName lat-IsName lon-IsName
      lat_is_not_lon

abbrev attributes : Attributes
attributes = record { exptime = b'e' ∷ []; flags = b'f' ∷ [] }

abbrev two_projections : Option (List (List ℕ))
two_projections = some ((b'a' ∷ []) ∷ (b'b' ∷ []) ∷ [])
