-- ===== src/Structures/Ends.antt =====
-- A list without its last item, or without the item at an index, as the cluster's documents lose them
-- (Pop and RemoveAt in collection_ds.go).
use gocb.Base.{
  ℕ, zero, suc, ◌≡◌, refl, sym, ap, ap₂, ◌∙◌, inl, inr, Option, none, some, List, [], ◌∷◌, ◌++◌,
  Option-cases, some-inj, length,
}

abbrev pub with_last : ℕ → Option (List ℕ × ℕ) → Option (List ℕ × ℕ)
with_last x none = some ([], x)
with_last x (some (rest, v)) = some (x ∷ rest, v)

abbrev pub split_last : List ℕ → Option (List ℕ × ℕ)
split_last [] = none
split_last (x ∷ xs) = with_last x (split_last xs)

abbrev pub with_head : ℕ → Option (List ℕ × ℕ × List ℕ) → Option (List ℕ × ℕ × List ℕ)
with_head x none = none
with_head x (some (as', v, bs)) = some (x ∷ as', v, bs)

abbrev pub split_at : ℕ → List ℕ → Option (List ℕ × ℕ × List ℕ)
split_at i [] = none
split_at zero (x ∷ xs) = some ([], x, xs)
split_at (suc i) (x ∷ xs) = with_head x (split_at i xs)

pub split_last-nil : (xs : List ℕ) → split_last xs ≡ none → xs ≡ []
split_last-nil [] e = refl
split_last-nil (x ∷ xs) e = elim (Option-cases (split_last xs)) [
  | inl h ↦ cc (rw h at e)
  | inr (p, h) ↦ cc (rw h at e)
]

pub split_last-some :
    (xs rest : List ℕ) (v : ℕ) → split_last xs ≡ some (rest, v) → xs ≡ rest ++ v ∷ []
split_last-some [] rest v e = cc
split_last-some (x ∷ xs) rest v e = elim (Option-cases (split_last xs)) [
  | inl h ↦
      let p : some ([], x) ≡ some (rest, v) = sym (ap (with_last x) h) ∙ e in
      let q = split_last-nil xs h in
      let a : [] ≡ rest = ap (λ r. r.0) (some-inj p) in
      let b : x ≡ v = ap (λ r. r.1) (some-inj p) in rw (q, sym a, sym b) refl
  | inr ((rest', w), h) ↦
      let p : some (x ∷ rest', w) ≡ some (rest, v) = sym (ap (with_last x) h) ∙ e in
      let a : x ∷ rest' ≡ rest = ap (λ r. r.0) (some-inj p) in
      let b : w ≡ v = ap (λ r. r.1) (some-inj p) in
      ap (◌∷◌ x) (split_last-some xs rest' w h) ∙ ap₂ (λ r u. r ++ u ∷ []) a b
]

pub split_last-append : (rest : List ℕ) (v : ℕ) → split_last (rest ++ v ∷ []) ≡ some (rest, v)
split_last-append [] v = refl
split_last-append (x ∷ rest) v = ap (with_last x) (split_last-append rest v)

pub split_at-some :
    (i : ℕ) (xs as' bs : List ℕ) (v : ℕ)
    → split_at i xs ≡ some (as', v, bs)
    → (length as' ≡ i) × (xs ≡ as' ++ v ∷ bs)
split_at-some i [] as' bs v e = cc
split_at-some zero (x ∷ xs) as' bs v e =
    let q = some-inj e in
    (
      ap length (sym (ap (λ r. r.0) q)),
      ap₂ (λ u w. u ∷ w) (ap (λ r. r.1) q) (ap (λ r. r.2) q)
          ∙ ap (λ r. r ++ v ∷ bs) (ap (λ r. r.0) q),
    )
split_at-some (suc i) (x ∷ xs) as' bs v e = elim (Option-cases (split_at i xs)) [
  | inl h ↦ cc (rw h at e)
  | inr ((a, w, b), h) ↦
      let p : some (x ∷ a, w, b) ≡ some (as', v, bs) = sym (ap (with_head x) h) ∙ e in
      let q = some-inj p in
      let (l, s) = split_at-some i xs a b w h in
      (sym (ap (λ r. length (r.0)) q) ∙ ap suc l, ap (◌∷◌ x) s ∙ ap (λ r. r.0 ++ r.1 ∷ r.2) q)
]
