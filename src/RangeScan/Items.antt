-- ===== src/RangeScan/Items.antt =====
-- The reader's side of a scan (ScanResult.Next and Close in results.go). The channel is what the scan
-- still writes to it before it closes it; `none` is nil.
use gocb.Base.{
  ℕ, zero, suc, ◌+◌, ◌-◌, ◌^◌, ◌≤◌, ◌<◌, ◌≡◌, refl, sym, ap, ◌∙◌, ◌⊎◌, inl, inr, Bool, true, false,
  ◌||◌, Option, none, some, List, [], ◌∷◌, arith, leb, ◌==◌, if◌then◌else◌, Bool-cases, take,
}
use gocb.Go.Word.{add64}

pub record ScanResult (A : Type 0) : Type 0 where
  pub channel : List A
  pub limit : ℕ
  pub num_items : ℕ
  pub peeked : Option A
  pub cancelled : ℕ

module _ {A : Type 0} where
  -- An item that was read from the channel: beyond the limit it is dropped, and the scan is cancelled.
  unfoldable pub take_item : A → ScanResult A → Option A × ScanResult A
  take_item a s =
      let n = add64 s.num_items 1 in
      if s.limit == 0 || leb n s.limit
      then (some a, record s { num_items = n })
      else (none, record s { num_items = n; cancelled = s.cancelled + 1 })

  unfoldable pub from_channel : List A → ScanResult A → Option A × ScanResult A
  from_channel [] s = (none, s)
  from_channel (a ∷ as') s = take_item a (record s { channel = as' })

  unfoldable pub next_peeked : Option A → ScanResult A → Option A × ScanResult A
  next_peeked (some a) s = (some a, record s { peeked = none; num_items = add64 s.num_items 1 })
  next_peeked none s = from_channel s.channel s

  -- `Next`
  unfoldable pub next : ScanResult A → Option A × ScanResult A
  next s = next_peeked s.peeked s

  abbrev pub cons_some : Option A → List A → List A
  cons_some none xs = xs
  cons_some (some a) xs = a ∷ xs

  -- What so many calls of Next return, without the nils.
  unfoldable pub next_items : ℕ → ScanResult A → List A
  next_items zero s = []
  next_items (suc k) s = let (o, s') = next s in cons_some o (next_items k s')

  -- All that the scan delivers.
  abbrev pub all_items : ScanResult A → List A
  all_items s = cons_some s.peeked s.channel

  abbrev pub up_to_limit : ℕ → ℕ → List A → List A
  up_to_limit limit n xs = if limit == 0 then xs else take (limit - n) xs

  -- An item was peeked at before the limit was reached.
  abbrev pub MayPeek : ScanResult A → Type 0
  MayPeek s = (s.peeked ≡ none) ⊎ ((s.limit ≡ 0) ⊎ (s.num_items < s.limit))

  up_to_limit-nil : (l n : ℕ) → up_to_limit l n [] ≡ []
  up_to_limit-nil l n = by_test (l == 0) (l - n)
    where
      up_to : Bool → ℕ → List A
      up_to b k = if b then [] else take k []

      by_test : (b : Bool) (k : ℕ) → up_to b k ≡ []
      by_test true k = refl
      by_test false zero = refl
      by_test false (suc k) = refl

  up_to_limit-cons :
      (l n : ℕ) (a : A) (xs : List A)
      → (l ≡ 0) ⊎ (n < l)
      → up_to_limit l n (a ∷ xs) ≡ a ∷ up_to_limit l (n + 1) xs
  up_to_limit-cons l n a xs h = by_test (l == 0) refl
    where
      by_test :
          (b : Bool)
          → (l == 0) ≡ b
          → (if b then a ∷ xs else take (l - n) (a ∷ xs))
            ≡ a ∷ (if b then xs else take (l - (n + 1)) xs)
      by_test true e = refl
      by_test false e = ap (λ k. take k (a ∷ xs)) more
        where
          more : l - n ≡ suc (l - (n + 1))
          more = ground (arith, e, h)

  up_to_limit-over : (l n : ℕ) (xs : List A) → 0 < l → l ≤ n → up_to_limit l n xs ≡ []
  up_to_limit-over l n xs p le = by_test (l == 0) refl
    where
      by_test : (b : Bool) → (l == 0) ≡ b → (if b then xs else take (l - n) xs) ≡ []
      by_test true e = absurd (ground (arith, e, p))
      by_test false e = ap (λ k. take k xs) none_left
        where
          none_left : l - n ≡ 0
          none_left = omega (arith, le)

  take-nil : (k : ℕ) → take {A = A} k [] ≡ []
  take-nil zero = refl
  take-nil (suc k) = refl

  abbrev reading : List A → ℕ → ℕ → ℕ → ScanResult A
  reading c l n q = record { channel = c; limit = l; num_items = n; peeked = none; cancelled = q }

  next_items-reading :
      (k : ℕ) (c : List A) (l n q : ℕ)
      → n + k < 2 ^ 64
      → next_items k (reading c l n q) ≡ take k (up_to_limit l n c)
  unfolding next_items next next_peeked from_channel take_item
  next_items-reading zero c l n q fits = refl
  next_items-reading (suc k) [] l n q fits =
      next_items-reading k [] l n q (omega (arith, fits))
      ∙ ap (take k) (up_to_limit-nil l n)
      ∙ take-nil k
      ∙ sym (ap (take (suc k)) (up_to_limit-nil l n))
  next_items-reading (suc k) (a ∷ c) l n q fits =
      let rest = λ (q : ℕ). again q (next_items-reading k c l (n + 1) q (omega (arith, fits))) in
      elim (Bool-cases (l == 0 || leb (add64 n 1) l)) [
        | inl e ↦
            rw (e, next_items)
              (ap (λ xs. a ∷ xs) (rest q)
                ∙ sym (ap (take (suc k)) (up_to_limit-cons l n a c (ground (arith, e, small)))))
        | inr e ↦
            rw (e, next_items)
              (rest (q + 1)
                ∙ ap (take k)
                    (up_to_limit-over l (n + 1) c (ground (arith, e)) (ground (arith, e, small)))
                ∙ take-nil k
                ∙ sym (
                    ap (take (suc k)) (
                      up_to_limit-over l n (a ∷ c) (ground (arith, e)) (ground (arith, e, small)))))
      ]
    where
      small : add64 n 1 ≡ n + 1
      small = omega (arith, fits)

      again :
          (q : ℕ)
          → next_items k (reading c l (n + 1) q) ≡ take k (up_to_limit l (n + 1) c)
          → next_items k (reading c l (add64 n 1) q) ≡ take k (up_to_limit l (n + 1) c)
      again q h = ap (λ m. next_items k (reading c l m q)) small ∙ h

  -- However often Next is called, as long as the count of items fits a uint64, the calls return the
  -- items of the scan from the first on, in their order, as many as there were calls but no more
  -- than the limit, if there is one, whether or not the first item was peeked at, if that was
  -- before the limit was reached.
  pub next_items-take :
      (k : ℕ) (s : ScanResult A)
      → MayPeek s
      → s.num_items + k < 2 ^ 64
      → next_items k s ≡ take k (up_to_limit s.limit s.num_items (all_items s))
  unfolding next_items next next_peeked
  next_items-take k s h fits = by_peek k s.peeked h fits
    where
      small : (k : ℕ) → s.num_items + suc k < 2 ^ 64 → add64 s.num_items 1 ≡ s.num_items + 1
      small k fits = omega (arith, fits)

      with_peek : Option A → ScanResult A
      with_peek p = record s { peeked = p }

      room : (a : A) → MayPeek (with_peek (some a)) → (s.limit ≡ 0) ⊎ (s.num_items < s.limit)
      room a (inl e) = cc
      room a (inr h) = h

      by_peek :
          (k : ℕ) (p : Option A)
          → MayPeek (with_peek p)
          → s.num_items + k < 2 ^ 64
          → next_items k (with_peek p)
            ≡ take k (up_to_limit s.limit s.num_items (cons_some p s.channel))
      by_peek k none h fits = next_items-reading k s.channel s.limit s.num_items s.cancelled fits
      by_peek zero (some a) h fits = refl
      by_peek (suc k) (some a) h fits =
          ap (λ xs. a ∷ xs)
            (next_items-reading k s.channel s.limit (add64 s.num_items 1) s.cancelled
              (omega (arith, fits)))
          ∙ ap (λ m. a ∷ take k (up_to_limit s.limit m s.channel)) (small k fits)
          ∙ sym (ap (take (suc k)) (up_to_limit-cons s.limit s.num_items a s.channel (room a h)))
