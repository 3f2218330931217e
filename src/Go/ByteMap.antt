-- ===== src/Go/ByteMap.antt =====
-- A Go map whose keys are texts, as an association list.
use gocb.Base.{
  ℕ, ◌≡◌, refl, sym, ap₂, ◌∙◌, ◌⊎◌, inl, inr, true, false, Option, none, some, List, [], ◌∷◌,
  if◌then◌else◌, Bool-cases,
}
use gocb.Go.Bytes.{same_bytes, same_bytes_refl, same_bytes-eq}

not_both :
    (i j k : List ℕ) → same_bytes i j ≡ false → same_bytes i k ≡ true → same_bytes j k ≡ true → ⊥
not_both i j k e h q =
    clash (sym (ap₂ same_bytes (same_bytes-eq i k h) (same_bytes-eq j k q) ∙ same_bytes_refl k) ∙ e)
  where
    clash : true ≡ false → ⊥
    clash p = cc

module _ {ℓ} {A : Type ℓ} where
  unfoldable pub find_at : List ℕ → List (List ℕ × A) → Option A
  find_at k [] = none
  find_at k ((j, a) ∷ m) = if same_bytes j k then some a else find_at k m

  unfoldable pub put_at : List ℕ → A → List (List ℕ × A) → List (List ℕ × A)
  put_at k a [] = (k, a) ∷ []
  put_at k a ((j, b) ∷ m) = if same_bytes j k then (k, a) ∷ m else (j, b) ∷ put_at k a m

  pub find_at-put_at :
      (k j : List ℕ) (a : A) (m : List (List ℕ × A))
      → find_at k (put_at j a m) ≡ (if same_bytes j k then some a else find_at k m)
  unfolding find_at put_at
  find_at-put_at k j a [] = refl
  find_at-put_at k j a ((i, b) ∷ m) = elim (Bool-cases (same_bytes i j)) [
    | inl e ↦
        rw (e, find_at, put_at) (overwritten (Bool-cases (same_bytes j k)) (same_bytes-eq i j e))
    | inr e ↦
        rw (e, find_at, put_at)
          (behind e (find_at-put_at k j a m) (Bool-cases (same_bytes i k))
            (Bool-cases (same_bytes j k)))
  ]
    where
      overwritten :
          (same_bytes j k ≡ true) ⊎ (same_bytes j k ≡ false)
          → i ≡ j
          → (if same_bytes j k then some a else find_at k m)
            ≡ (if same_bytes j k then some a else (if same_bytes i k then some b else find_at k m))
      overwritten (inl h) p = rw h refl
      overwritten (inr h) p = rw (p, h) refl

      behind :
          same_bytes i j ≡ false
          → find_at k (put_at j a m) ≡ (if same_bytes j k then some a else find_at k m)
          → (same_bytes i k ≡ true) ⊎ (same_bytes i k ≡ false)
          → (same_bytes j k ≡ true) ⊎ (same_bytes j k ≡ false)
          → (if same_bytes i k then some b else find_at k (put_at j a m))
            ≡ (if same_bytes j k then some a else (if same_bytes i k then some b else find_at k m))
      behind e r (inr h) q = rw h r
      behind e r (inl h) (inr q) = rw (h, q) refl
      behind e r (inl h) (inl q) = absurd (not_both i j k e h q)
