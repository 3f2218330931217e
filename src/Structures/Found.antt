-- ===== src/Structures/Found.antt =====
-- Where the loops of IndexOf and Contains find a value (CouchbaseList and CouchbaseSet in
-- collection_ds.go).
use gocb.Base.{
  ℕ, suc, ◌+◌, ◌≡◌, refl, ap, subst, inl, inr, Bool, true, false, Option, none, some, List, [], ◌∷◌,
  ◌++◌, arith, Bool-cases, length, All,
}
use gocb.Structures.Set.{index_of, contains}

module _ {V : Type 0} (same : V → V → Bool) (val : V) where
  abbrev pub NotIn : List V → Type 0
  NotIn xs = All (λ x. same x val ≡ false) xs

  -- The first occurrence, behind `n` items that were passed; `none` and `false` if there is none.
  pub data FirstIn (n : ℕ) (xs : List V) : Option ℕ → Bool → Type 0 where
    first_at :
        (as' bs : List V) (v : V)
        → xs ≡ as' ++ v ∷ bs
        → same v val ≡ true
        → NotIn as'
        → FirstIn n xs (some (n + length as')) true
    nowhere : NotIn xs → FirstIn n xs none false

  FirstIn-later :
      (n : ℕ) (x : V) (xs : List V) (i : Option ℕ) (b : Bool)
      → same x val ≡ false
      → FirstIn (suc n) xs i b
      → FirstIn n (x ∷ xs) i b
  FirstIn-later n x xs _ _ e (first_at as' bs v p m h) =
      subst (λ j. FirstIn n (x ∷ xs) (some j) true) (omega arith)
        (first_at (x ∷ as') bs v (ap (◌∷◌ x) p) m (e, h))
  FirstIn-later n x xs _ _ e (nowhere h) = nowhere (e, h)

  found_from : (n : ℕ) (xs : List V) → FirstIn n xs (index_of same val n xs) (contains same val xs)
  unfolding index_of contains
  found_from n [] = nowhere tt
  found_from n (x ∷ xs) = elim (Bool-cases (same x val)) [
    | inl e ↦
        rw (e, index_of, contains)
          (subst (λ j. FirstIn n (x ∷ xs) (some j) true) (omega arith) (first_at [] xs x refl e tt))
    | inr e ↦ rw (e, index_of, contains) (FirstIn-later n x xs _ _ e (found_from (suc n) xs))
  ]

  -- IndexOf gives the index of the first item that compares equal to the value, and -1 if there is none;
  -- Contains says whether there is one.
  pub index_of-contains-FirstIn :
      (xs : List V) → FirstIn 0 xs (index_of same val 0 xs) (contains same val xs)
  index_of-contains-FirstIn xs = found_from 0 xs
