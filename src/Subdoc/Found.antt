-- ===== src/Subdoc/Found.antt =====
-- What Exists says of the server's answers (LookupInResult.Exists in results.go).
use gocb.Base.{
  ℕ, zero, suc, ◌≡◌, refl, Bool, true, false, Option, some, List, [], ◌∷◌, arith, length,
}
use gocb.Subdoc.Specs.{Op, exists, LookupSpec}
use gocb.Subdoc.Lookup.{
  Answer, found, path_not_found, fails, true_text, false_text, exists_partial, value_partial,
  partial_of, contents_of, partial_exists, exists_at,
}

abbrev pub was_found : {E : Type 0} → Answer E → Bool
was_found (found b) = true
was_found (path_not_found e) = false
was_found (fails e) = false

-- Is there an answer at the index, and did it find the path?
pub found_at : {E : Type 0} → ℕ → List (Answer E) → Bool
found_at i [] = false
found_at zero (a ∷ as') = was_found a
found_at (suc i) (a ∷ as') = found_at i as'

module _ {E : Type 0} (to_bool : List ℕ → Option Bool) (reads_true : to_bool true_text ≡ some true)
    (reads_false : to_bool false_text ≡ some false) where
  partial_exists-was_found :
      (op : Op) (a : Answer E)
      → partial_exists to_bool (partial_of op a).op (partial_of op a) ≡ was_found a
  unfolding partial_of exists_partial value_partial partial_exists
  partial_exists-was_found exists (found b) = rw reads_true refl
  partial_exists-was_found exists (path_not_found e) = rw reads_false refl
  partial_exists-was_found exists (fails e) = refl
  partial_exists-was_found _ (found b) = refl
  partial_exists-was_found _ (path_not_found e) = refl
  partial_exists-was_found _ (fails e) = refl

  -- If JSON's true and false are read as such, and the server has answered every spec, then for
  -- every operation alike, an exists operation or another, Exists at an index says whether the
  -- server has found the path of the spec there; it is false where no spec is.
  pub exists_at-found_at :
      (i : ℕ) (ss : List LookupSpec) (as' : List (Answer E))
      → length ss ≡ length as'
      → exists_at to_bool i (contents_of ss as') ≡ found_at i as'
  unfolding exists_at contents_of found_at
  exists_at-found_at i [] [] e = refl
  exists_at-found_at i [] (a ∷ as') e = absurd (omega (arith, e))
  exists_at-found_at i (s ∷ ss) [] e = absurd (omega (arith, e))
  exists_at-found_at zero (s ∷ ss) (a ∷ as') e = partial_exists-was_found s.op a
  exists_at-found_at (suc i) (s ∷ ss) (a ∷ as') e = exists_at-found_at i ss as' (omega (arith, e))
