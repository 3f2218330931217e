-- ===== src/Go/Slice.antt =====
-- Go slices: what `copy` writes, and the two in-place insertions that are built from it.
use gocb.Base.{
  ℕ, zero, suc, ◌≤◌, ◌<◌, ◌≡◌, refl, ap, List, [], ◌∷◌, ◌++◌, arith, length, set, take, drop, snoc,
}

module _ {ℓ} {A : Type ℓ} where
  -- `copy(dst[at:], src)`: it stops at the end of either slice.
  unfoldable pub copy_at : ℕ → List A → List A → List A
  copy_at zero [] dst = dst
  copy_at zero (s ∷ src) [] = []
  copy_at zero (s ∷ src) (d ∷ dst) = s ∷ copy_at zero src dst
  copy_at (suc at) src [] = []
  copy_at (suc at) src (d ∷ dst) = d ∷ copy_at at src dst

  copy_shift : (y p : A) (ys : List A) → copy_at zero (y ∷ snoc ys p) (snoc ys p) ≡ y ∷ ys
  unfolding copy_at
  copy_shift y p [] = refl
  copy_shift y p (z ∷ ys) = ap (◌∷◌ y) (copy_shift z p ys)

  -- Growing by one slot, moving the tail up and writing the slot is an insertion.
  pub grow-insert :
      (i : ℕ) (xs : List A) (p x : A)
      → i < length xs
      → set (copy_at (suc i) (drop i (snoc xs p)) (snoc xs p)) i x ≡ take i xs ++ x ∷ drop i xs
  unfolding copy_at
  grow-insert i [] p x h = elim h [ ]
  grow-insert zero (y ∷ ys) p x h = ap (◌∷◌ x) (copy_shift y p ys)
  grow-insert (suc i) (y ∷ ys) p x h = ap (◌∷◌ y) (grow-insert i ys p x (omega arith))

  -- Moving the slots before it down by one and writing the slot drops the first element.
  pub shift-insert :
      (j : ℕ) (y : A) (ys : List A) (x : A)
      → j ≤ length ys
      → set (copy_at zero (take j ys) (y ∷ ys)) j x ≡ take j ys ++ x ∷ drop j ys
  unfolding copy_at
  shift-insert zero y ys x h = refl
  shift-insert (suc j) y [] x h = elim h [ ]
  shift-insert (suc j) y (z ∷ ys) x h = ap (◌∷◌ z) (shift-insert j z ys x (omega arith))
