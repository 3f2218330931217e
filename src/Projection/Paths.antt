-- ===== src/Projection/Paths.antt =====
-- The parts of a subdocument path (GetResult.pathParts in results.go). A path is its bytes. The
-- indices of the source cut a text; here each mode carries the text cut so far.
use mathlib.Core.List.{append-nil, append_assoc}
use gocb.Base.{
  ℕ, ◌≡◌, refl, sym, ap, ◌∙◌, ◌≢◌, Bool, true, false, not, ◌&&◌, Option, none, some, List, [], ◌∷◌,
  ◌++◌, map, arith, ◌==◌, if◌then◌else◌, snoc, All,
}

-- subdocPath
pub record Part : Type 0 where
  pub path : List ℕ
  pub is_array : Bool

abbrev pub plain : List ℕ → Part
plain name = record { path = name; is_array = false }

abbrev pub array : List ℕ → Part
array name = record { path = name; is_array = true }

-- Where the loops stand: in a name, behind an opening bracket (with the name before it and what
-- followed it), or behind a closed bracket, where one dot is skipped.
pub data Mode : Type 0 where
  in_name : List ℕ → Mode
  in_brackets : List ℕ → List ℕ → Mode
  behind_brackets : Mode

abbrev emit : Option Part → List Part → List Part
emit none ps = ps
emit (some p) ps = p ∷ ps

abbrev name_out : List ℕ → ℕ → Option Part
name_out name c = if c == b'.' then some (plain name) else none

abbrev name_next : List ℕ → ℕ → Mode
name_next name c =
    if c == b'['
    then in_brackets name []
    else if c == b'.'
    then in_name []
    else in_name (snoc name c)

-- The part that is complete at the byte `c`, if any. A dot before the closing bracket ends a part
-- that keeps the bracket and the dot.
pub part_at : Mode → ℕ → Option Part
part_at (in_name name) c = name_out name c
part_at (in_brackets name inner) c =
    if c == b']'
    then some (array name)
    else if c == b'.'
    then some (plain (name ++ b'[' ∷ snoc inner c))
    else none
part_at behind_brackets c = if c == b'.' then none else name_out [] c

pub mode_at : Mode → ℕ → Mode
mode_at (in_name name) c = name_next name c
mode_at (in_brackets name inner) c =
    if c == b']'
    then behind_brackets
    else if c == b'.'
    then behind_brackets
    else in_brackets name (snoc inner c)
mode_at behind_brackets c = if c == b'.' then in_name [] else name_next [] c

-- The end of the path.
pub last_part : Mode → List Part
last_part (in_name []) = []
last_part (in_name (c ∷ cs)) = plain (c ∷ cs) ∷ []
last_part (in_brackets name inner) = plain (name ++ b'[' ∷ inner) ∷ []
last_part behind_brackets = []

unfoldable pub parts_from : Mode → List ℕ → List Part
parts_from m [] = last_part m
parts_from m (c ∷ cs) = emit (part_at m c) (parts_from (mode_at m c) cs)

unfoldable pub path_parts : List ℕ → List Part
path_parts = parts_from (in_name [])

-- A name that a path can spell without brackets.
abbrev pub is_name_byte : ℕ → Bool
is_name_byte c = not (c == b'.') && not (c == b'[')

abbrev pub IsName : List ℕ → Type 0
IsName name = (name ≢ []) × All (λ c. is_name_byte c ≡ true) name

-- Names with dots between them.
abbrev pub join : List ℕ → List (List ℕ) → List ℕ
join name [] = name
join name (next ∷ rest) = name ++ b'.' ∷ join next rest

parts_from-name :
    (buf name rest : List ℕ)
    → All (λ c. is_name_byte c ≡ true) name
    → parts_from (in_name buf) (name ++ rest) ≡ parts_from (in_name (buf ++ name)) rest
unfolding parts_from part_at mode_at
parts_from-name buf [] rest h = ap (λ b. parts_from (in_name b) rest) (sym (append-nil buf))
parts_from-name buf (c ∷ name) rest h =
    plain_byte h.0
    ∙ parts_from-name (snoc buf c) name rest h.1
    ∙ ap (λ b. parts_from (in_name b) rest) (append_assoc buf (c ∷ []) name)
  where
    plain_byte :
        is_name_byte c ≡ true
        → parts_from (in_name buf) (c ∷ name ++ rest)
          ≡ parts_from (in_name (snoc buf c)) (name ++ rest)
    plain_byte p = ground arith

-- A path of names with dots between them has these names for its parts, none of them an array.
pub path_parts-join :
    (name : List ℕ) (rest : List (List ℕ))
    → IsName name
    → All IsName rest
    → path_parts (join name rest) ≡ map plain (name ∷ rest)
unfolding path_parts parts_from part_at mode_at last_part
path_parts-join name [] h hs =
    ap (parts_from (in_name [])) (sym (append-nil name))
    ∙ parts_from-name [] name [] h.1
    ∙ single name h.0
  where
    single : (xs : List ℕ) → xs ≢ [] → last_part (in_name xs) ≡ plain xs ∷ []
    single [] ne = absurd (ne refl)
    single (x ∷ xs) ne = refl
path_parts-join name (next ∷ rest) h hs =
    parts_from-name [] name (b'.' ∷ join next rest) h.1
    ∙ ap (◌∷◌ (plain name)) (path_parts-join next rest hs.0 hs.1)
