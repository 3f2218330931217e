-- ===== src/Go/Sort.antt =====
-- `sort.Search` of Go's standard library: a binary search for the first index that passes a test.
use gocb.Base.{
  ℕ, zero, suc, ◌+◌, ◌-◌, ◌/◌, ◌≤◌, ◌<◌, ◌≡◌, inl, inr, Bool, true, false, arith, ltb, ltb→lt,
  ltb→ge, Bool-cases,
}

-- The loop of `Search`, on fuel: `j - i` falls in each round.
unfoldable pub search_loop : ℕ → (ℕ → Bool) → ℕ → ℕ → ℕ
search_loop zero f i j = i
search_loop (suc fuel) f i j = elim (ltb i j) [
  | false ↦ i
  | true ↦ elim (f ((i + j) / 2)) [
    | false ↦ search_loop fuel f ((i + j) / 2 + 1) j
    | true ↦ search_loop fuel f i ((i + j) / 2)
  ]
]

unfoldable pub search_slice : ℕ → (ℕ → Bool) → ℕ
unfolding search_loop
search_slice n f = search_loop n f 0 n

-- What the search promises of its result `r`: the test fails below it and passes from it on.
pub record IsFirst (n : ℕ) (f : ℕ → Bool) (r : ℕ) : Type 0 where
  pub within : r ≤ n
  pub fails_below : (k : ℕ) → k < r → f k ≡ false
  pub passes_above : (k : ℕ) → r ≤ k → k < n → f k ≡ true

module _ (n : ℕ) (f : ℕ → Bool) (mono : (a b : ℕ) → a ≤ b → b < n → f a ≡ true → f b ≡ true) where
  below_of_false : (m k : ℕ) → m < n → f m ≡ false → k ≤ m → f k ≡ false
  below_of_false m k lt e le = elim (Bool-cases (f k)) [
    | inl t ↦ ground (arith, mono k m le lt t)
    | inr t ↦ t
  ]

  search_loop-IsFirst :
      (fuel i j : ℕ)
      → i ≤ j
      → j ≤ n
      → j - i ≤ fuel
      → ((k : ℕ) → k < i → f k ≡ false)
      → ((k : ℕ) → j ≤ k → k < n → f k ≡ true)
      → IsFirst n f (search_loop fuel f i j)
  unfolding search_loop
  search_loop-IsFirst zero i j le ln fu lo hi = record {
    within = omega arith;
    fails_below = lo;
    passes_above = λ k h h'. hi k (omega arith) h';
  }
  search_loop-IsFirst (suc fuel) i j le ln fu lo hi = elim (Bool-cases (ltb i j)) [
    | inr e ↦
        let e' : j ≤ i = ltb→ge i j e in
        rw (e, search_loop)
          (record {
            within = omega arith;
            fails_below = lo;
            passes_above = λ k h h'. hi k (omega arith) h';
          })
    | inl e ↦
        let lt : i < j = ltb→lt i j e in
        elim (Bool-cases (f ((i + j) / 2))) [
          | inl t ↦
              rw (e, search_loop, t)
                (search_loop-IsFirst fuel i ((i + j) / 2) (omega arith) (omega arith) (omega arith)
                  lo λ k h h'. mono ((i + j) / 2) k h h' t)
          | inr t ↦
              rw (e, search_loop, t)
                (search_loop-IsFirst fuel ((i + j) / 2 + 1) j (omega arith) ln (omega arith)
                  (λ k h. below_of_false ((i + j) / 2) k (omega arith) t (omega arith)) hi)
        ]
  ]

  -- On a monotone test the search finds the first index that passes.
  pub search_slice-IsFirst : IsFirst n f (search_slice n f)
  unfolding search_slice
  search_slice-IsFirst =
      search_loop-IsFirst n 0 n (omega arith) (omega arith) (omega arith) (λ k h. elim h [ ])
        (λ k h h'. absurd (omega arith))
