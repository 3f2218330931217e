-- ===== src/Threshold/Order.antt =====
-- Lists in ascending order of a key, and the last few of them: what a full log group keeps.
use mathlib.Core.List.{Perm, perm_middle}
use mathlib.Core.List.Perm
use gocb.Base.{
  ℕ, zero, suc, ◌-◌, ◌≤◌, ◌<◌, ◌≡◌, refl, sym, ap, ◌∙◌, ◌⊎◌, inl, inr, true, false, List, [], ◌∷◌,
  ◌++◌, arith, ltb, if◌then◌else◌, ltb→lt, ltb→ge, Bool-cases, length, take, drop, All,
}

-- The last `n` elements of a list.
abbrev pub top {ℓ} : {A : Type ℓ} → ℕ → List A → List A
top n xs = drop (length xs - n) xs

drop-zero {ℓ} : {A : Type ℓ} (k : ℕ) (xs : List A) → k ≡ 0 → drop k xs ≡ xs
drop-zero zero xs e = refl
drop-zero (suc k) xs e = absurd (omega arith)

pub top_short {ℓ} : {A : Type ℓ} (n : ℕ) (xs : List A) → length xs ≤ n → top n xs ≡ xs
top_short n xs h = drop-zero (length xs - n) xs (omega arith)

pub top_cons {ℓ} :
    {A : Type ℓ} (n : ℕ) (x : A) (xs : List A) → n ≤ length xs → top n (x ∷ xs) ≡ top n xs
top_cons n x xs h = let e : suc (length xs) - n ≡ suc (length xs - n) = omega arith in rw e refl

module _ {ℓ} {A : Type ℓ} (key : A → ℕ) where
  abbrev pub IsSorted : List A → Type 0
  IsSorted [] = Unit
  IsSorted (x ∷ xs) = All (λ y. key x ≤ key y) xs × IsSorted xs

  -- Insertion behind the elements with a key that is not larger.
  unfoldable pub insert : A → List A → List A
  insert x [] = x ∷ []
  insert x (y ∷ ys) = if ltb (key x) (key y) then x ∷ y ∷ ys else y ∷ insert x ys

  -- The number of leading elements with a key that is not larger than `k`.
  unfoldable pub slot : ℕ → List A → ℕ
  slot k [] = 0
  slot k (y ∷ ys) = if ltb k (key y) then 0 else suc (slot k ys)

  pub insert-slot :
      (x : A) (xs : List A)
      → insert x xs ≡ take (slot (key x) xs) xs ++ x ∷ drop (slot (key x) xs) xs
  unfolding insert slot
  insert-slot x [] = refl
  insert-slot x (y ∷ ys) = elim (Bool-cases (ltb (key x) (key y))) [
    | inl e ↦ rw (e, insert, slot) refl
    | inr e ↦ rw (e, insert, slot) (ap (◌∷◌ y) (insert-slot x ys))
  ]

  pub length-insert : (x : A) (xs : List A) → length (insert x xs) ≡ suc (length xs)
  unfolding insert
  length-insert x [] = refl
  length-insert x (y ∷ ys) = ground (arith, length-insert x ys)

  All-le : (a b : ℕ) (xs : List A) → a ≤ b → All (λ y. b ≤ key y) xs → All (λ y. a ≤ key y) xs
  All-le a b [] h p = tt
  All-le a b (x ∷ xs) h p = (omega arith, All-le a b xs h p.1)

  All-insert {κ} : (P : A → Type κ) (x : A) (xs : List A) → P x → All P xs → All P (insert x xs)
  unfolding insert
  All-insert P x [] p ps = (p, tt)
  All-insert P x (y ∷ ys) p ps = elim (Bool-cases (ltb (key x) (key y))) [
    | inl e ↦ rw (e, insert) (p, ps)
    | inr e ↦ rw (e, insert) (ps.0, All-insert P x ys p ps.1)
  ]

  pub insert-IsSorted : (x : A) (xs : List A) → IsSorted xs → IsSorted (insert x xs)
  unfolding insert
  insert-IsSorted x [] s = (tt, tt)
  insert-IsSorted x (y ∷ ys) s = elim (Bool-cases (ltb (key x) (key y))) [
    | inl e ↦
        let lt : key x < key y = ltb→lt _ _ e in
        rw (e, insert) ((omega arith, All-le (key x) (key y) ys (omega arith) s.0), s)
    | inr e ↦
        rw (e, insert)
          (All-insert (λ z. key y ≤ key z) x ys (ltb→ge _ _ e) s.0, insert-IsSorted x ys s.1)
  ]

  pub insert-perm : (x : A) (xs : List A) → Perm (insert x xs) (x ∷ xs)
  unfolding insert
  insert-perm x [] = Perm.rfl
  insert-perm x (y ∷ ys) = elim (Bool-cases (ltb (key x) (key y))) [
    | inl e ↦ rw (e, insert) Perm.rfl
    | inr e ↦ rw (e, insert) (Perm.trans (Perm.cons y (insert-perm x ys)) (Perm.swap x y ys))
  ]

  pub drop-IsSorted : (n : ℕ) (xs : List A) → IsSorted xs → IsSorted (drop n xs)
  drop-IsSorted zero xs s = s
  drop-IsSorted (suc n) [] s = tt
  drop-IsSorted (suc n) (x ∷ xs) s = drop-IsSorted n xs s.1

  insert_least : (x : A) (ys : List A) → All (λ y. suc (key x) ≤ key y) ys → insert x ys ≡ x ∷ ys
  unfolding insert
  insert_least x [] h = refl
  insert_least x (y ∷ ys) h = rw (lt_test h.0, insert) refl
    where
      lt_test : key x < key y → ltb (key x) (key y) ≡ true
      lt_test p = ground arith

  -- Trimming before an insertion into a sorted list changes nothing of what the trim keeps.
  pub top-insert-top :
      (n : ℕ) (x : A) (xs : List A)
      → IsSorted xs
      → top n (insert x (top n xs)) ≡ top n (insert x xs)
  unfolding insert
  top-insert-top n x [] s = ap (λ zs. top n (insert x zs)) (top_short n [] (omega arith))
  top-insert-top n x (y ∷ ys) s = elim (Bool-cases (ltb (length ys) n)) [
    | inl e ↦
        let lt : length ys < n = ltb→lt _ _ e in
        ap (λ zs. top n (insert x zs)) (top_short n (y ∷ ys) lt)
    | inr e ↦
        let ge : n ≤ length ys = ltb→ge _ _ e in
        ap (λ zs. top n (insert x zs)) (top_cons n y ys ge)
        ∙ top-insert-top n x ys s.1
        ∙ sym (skip ge (Bool-cases (ltb (key x) (key y))))
  ]
    where
      skip :
          n ≤ length ys
          → (ltb (key x) (key y) ≡ true) ⊎ (ltb (key x) (key y) ≡ false)
          → top n (insert x (y ∷ ys)) ≡ top n (insert x ys)
      skip ge (inl e) =
          let lt : key x < key y = ltb→lt _ _ e in
          rw (e, insert)
            (top_cons n x (y ∷ ys) (omega arith)
              ∙ top_cons n y ys ge
              ∙ sym (
                  ap (top n) (insert_least x ys (All-le (suc (key x)) (key y) ys (omega arith) s.0))
                  ∙ top_cons n x ys ge))
      skip ge (inr e) =
          rw (e, insert) (top_cons n y (insert x ys) (omega (arith, length-insert x ys)))

  -- Insertion sort, oldest first among equal keys.
  unfoldable pub sort_onto : List A → List A → List A
  sort_onto acc [] = acc
  sort_onto acc (x ∷ xs) = sort_onto (insert x acc) xs

  pub sort_onto-IsSorted : (acc xs : List A) → IsSorted acc → IsSorted (sort_onto acc xs)
  unfolding sort_onto
  sort_onto-IsSorted acc [] s = s
  sort_onto-IsSorted acc (x ∷ xs) s = sort_onto-IsSorted (insert x acc) xs (insert-IsSorted x acc s)

  pub sort_onto-perm : (acc xs : List A) → Perm (sort_onto acc xs) (xs ++ acc)
  unfolding sort_onto
  sort_onto-perm acc [] = Perm.rfl
  sort_onto-perm acc (x ∷ xs) =
      Perm.trans (sort_onto-perm (insert x acc) xs)
        (Perm.trans (Perm.append Perm.rfl (insert-perm x acc)) (perm_middle xs acc))
