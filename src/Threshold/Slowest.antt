-- ===== src/Threshold/Slowest.antt =====
-- What a log group keeps: the slowest operations that it was given.
use gocb.Base.{
  ℕ, zero, suc, ◌-◌, ◌≤◌, ◌<◌, ◌≡◌, refl, sym, ap, ap₂, ◌∙◌, inl, inr, Bool, true, false, ◌&&◌,
  List, [], ◌∷◌, ◌++◌, arith, ltb, ◌==◌, ltb→lt, lt→ltb, ltb→ge, ge→ltb, Bool-cases, length, take,
  drop, All,
}
use gocb.Go.Word.{rank64, lt_int64}
use gocb.Go.Slice.{grow-insert, shift-insert}
use gocb.Go.Sort.{search_slice, IsFirst, search_slice-IsFirst}
use gocb.Threshold.Order.{
  top, top_short, top_cons, IsSorted, insert, slot, insert-slot, length-insert,
}
use gocb.Threshold.Span.{Span}
use gocb.Threshold.Group.{Group, slower_at, too_fast, place, record_locked}

-- Operations are ordered by their duration.
abbrev pub key : Span → ℕ
key s = rank64 s.duration

slower_at_mono :
    (d : ℕ) (xs : List Span)
    → IsSorted key xs
    → (a b : ℕ) → a ≤ b
    → b < length xs
    → slower_at d xs a ≡ true
    → slower_at d xs b ≡ true
slower_at_mono d [] s a b le lt h = refl
slower_at_mono d (x ∷ xs) s zero zero le lt h = h
slower_at_mono d (x ∷ xs) s zero (suc b) le lt h = go xs s.0 b (omega arith)
  where
    go :
        (ys : List Span)
        → All (λ y. key x ≤ key y) ys
        → (i : ℕ) → i < length ys
        → slower_at d ys i ≡ true
    go [] p i h' = refl
    go (y ∷ ys) p zero h' = lt→ltb _ _ (omega (arith, ltb→lt _ _ h, p.0))
    go (y ∷ ys) p (suc i) h' = go ys p.1 i (omega arith)
slower_at_mono d (x ∷ xs) s (suc a) zero le lt h = absurd (omega arith)
slower_at_mono d (x ∷ xs) s (suc a) (suc b) le lt h =
    slower_at_mono d xs s.1 a b (omega arith) (omega arith) h

slot-IsFirst :
    (d : ℕ) (xs : List Span)
    → IsSorted key xs
    → IsFirst (length xs) (slower_at d xs) (slot key (rank64 d) xs)
unfolding slot
slot-IsFirst d [] s = record {
  within = omega arith;
  fails_below = λ k h. elim h [ ];
  passes_above = λ k h h'. refl;
}
slot-IsFirst d (x ∷ xs) s = elim (Bool-cases (lt_int64 d x.duration)) [
  | inl e ↦
      rw (e, slot)
        (record {
          within = omega arith;
          fails_below = λ k h. elim h [ ];
          passes_above = λ k h h'. slower_at_mono d (x ∷ xs) s 0 k h h' e;
        })
  | inr e ↦ rw (e, slot) (shift e (slot-IsFirst d xs s.1))
]
  where
    below :
        (n : ℕ)
        → lt_int64 d x.duration ≡ false
        → ((k : ℕ) → k < n → slower_at d xs k ≡ false)
        → (k : ℕ) → k < suc n
        → slower_at d (x ∷ xs) k ≡ false
    below n e h zero lt = e
    below n e h (suc k) lt = h k (omega arith)

    above :
        (n : ℕ)
        → ((k : ℕ) → n ≤ k → k < length xs → slower_at d xs k ≡ true)
        → (k : ℕ) → suc n ≤ k
        → k < suc (length xs)
        → slower_at d (x ∷ xs) k ≡ true
    above n h zero le lt = absurd (omega arith)
    above n h (suc k) le lt = h k (omega arith) (omega arith)

    shift :
        lt_int64 d x.duration ≡ false
        → IsFirst (length xs) (slower_at d xs) (slot key (rank64 d) xs)
        → IsFirst (length (x ∷ xs)) (slower_at d (x ∷ xs)) (suc (slot key (rank64 d) xs))
    shift e f = record {
      within = omega (arith, f.within);
      fails_below = below (slot key (rank64 d) xs) e f.fails_below;
      passes_above = above (slot key (rank64 d) xs) f.passes_above;
    }

IsFirst-unique : (n : ℕ) (f : ℕ → Bool) (r s : ℕ) → IsFirst n f r → IsFirst n f s → r ≡ s
IsFirst-unique n f r s p q = elim (Bool-cases (ltb r s)) [
  | inl e ↦
      let lt : r < s = ltb→lt r s e in
      ground (arith, q.fails_below r lt, p.passes_above r (omega arith) (omega (arith, q.within)))
  | inr e ↦
      let le : s ≤ r = ltb→ge r s e in
      elim (Bool-cases (ltb s r)) [
        | inl e' ↦
            let lt : s < r = ltb→lt s r e' in
            ground
              (arith, p.fails_below s lt, q.passes_above s (omega arith) (omega (arith, p.within)))
        | inr e' ↦ omega (arith, ltb→ge s r e')
      ]
]

-- The binary search of a sorted group finds the slot of the insertion.
search-slot :
    (d : ℕ) (xs : List Span)
    → IsSorted key xs
    → search_slice (length xs) (slower_at d xs) ≡ slot key (rank64 d) xs
search-slot d xs s =
    IsFirst-unique (length xs) (slower_at d xs) _ _
      (search_slice-IsFirst (length xs) (slower_at d xs) (slower_at_mono d xs s))
      (slot-IsFirst d xs s)

-- A group is well formed: it is sorted, its capacity is not 0 and bounds its length.
pub record IsValid (g : Group) : Type 0 where
  pub sorted : IsSorted key g.ops
  pub bounded : length g.ops ≤ g.cap_ops
  pub roomy : 0 < g.cap_ops

take-length : (xs : List Span) → (n : ℕ) → n ≡ length xs → take n xs ≡ xs
take-length [] zero e = refl
take-length [] (suc n) e = refl
take-length (x ∷ xs) zero e = absurd (omega arith)
take-length (x ∷ xs) (suc n) e = ap (◌∷◌ x) (take-length xs n (omega arith))

drop-length : (xs : List Span) → (n : ℕ) → n ≡ length xs → drop n xs ≡ []
drop-length [] zero e = refl
drop-length [] (suc n) e = refl
drop-length (x ∷ xs) zero e = absurd (omega arith)
drop-length (x ∷ xs) (suc n) e = drop-length xs n (omega arith)

-- With room left, the write inserts at the slot.
place_room :
    (cap i : ℕ) (xs : List Span) (x : Span)
    → length xs < cap
    → i ≤ length xs
    → place cap i xs x ≡ take i xs ++ x ∷ drop i xs
unfolding place
place_room cap i xs x room le = elim (Bool-cases (i == length xs)) [
  | inl e ↦
      let e' : i ≡ length xs = ground arith in
      rw (lt→ltb _ _ room, e, place)
        (ap₂ (λ ys zs. ys ++ x ∷ zs) (sym (take-length xs i e')) (sym (drop-length xs i e')))
  | inr e ↦ rw (lt→ltb _ _ room, e, place) (grow-insert i xs x x (ground arith))
]

-- Without, the write at a slot behind the first one drops the first element.
place_full :
    (cap j : ℕ) (y : Span) (ys : List Span) (x : Span)
    → cap ≤ suc (length ys)
    → j ≤ length ys
    → place cap (suc j) (y ∷ ys) x ≡ take j ys ++ x ∷ drop j ys
unfolding place
place_full cap j y ys x full le =
    let e : suc j - 1 ≡ j = omega arith in
    rw (ge→ltb _ _ full, e, place) (ground (arith, shift-insert j y ys x le))

-- A full group whose fastest operation is slower than the new one keeps what it has.
kept :
    (cap : ℕ) (xs : List Span) (s : Span)
    → 0 < cap
    → (length xs == cap && slower_at s.duration xs 0) ≡ true
    → xs ≡ top cap (insert key s xs)
unfolding insert
kept cap [] s pos fast = ground arith
kept cap (y ∷ ys) s pos fast =
    let e : suc (length ys) ≡ cap = ground arith in
    let lt : lt_int64 s.duration y.duration ≡ true = ground arith in
    rw (lt, insert)
      (sym (top_cons cap s (y ∷ ys) (omega arith) ∙ top_short cap (y ∷ ys) (omega arith)))

-- Any other operation is placed where the insertion puts it, and a full group loses its fastest.
placed :
    (cap : ℕ) (xs : List Span) (s : Span)
    → IsSorted key xs
    → length xs ≤ cap
    → 0 < cap
    → (length xs == cap && slower_at s.duration xs 0) ≡ false
    → place cap (search_slice (length xs) (slower_at s.duration xs)) xs s
      ≡ top cap (insert key s xs)
unfolding slot
placed cap [] s sorted le pos slow =
    place_room cap _ [] s pos (search_slice-IsFirst 0 _ (slower_at_mono s.duration [] tt)).within
    ∙ ap (λ i. take i [] ++ s ∷ drop i []) (search-slot s.duration [] tt)
    ∙ sym (insert-slot key s [])
    ∙ sym (top_short cap (insert key s []) (omega (arith, length-insert key s [])))
placed cap (y ∷ ys) s sorted le pos slow = elim (Bool-cases (ltb (suc (length ys)) cap)) [
  | inl e ↦
      let room : suc (length ys) < cap = ltb→lt _ _ e in
      rw (search-slot s.duration (y ∷ ys) sorted) (
        place_room cap (slot key (key s) (y ∷ ys)) (y ∷ ys) s room
          (slot-IsFirst s.duration (y ∷ ys) sorted).within
        ∙ sym (insert-slot key s (y ∷ ys))
        ∙ sym (top_short cap _ (omega (arith, length-insert key s (y ∷ ys)))))
  | inr e ↦
      let full : cap ≤ suc (length ys) = ltb→ge _ _ e in
      let same : (suc (length ys) == cap) ≡ true = ground arith in
      let slower : lt_int64 s.duration y.duration ≡ false = ground arith in
      rw (search-slot s.duration (y ∷ ys) sorted) (
        rw (slower, slot)
          (place_full cap (slot key (key s) ys) y ys s full
              (slot-IsFirst s.duration ys sorted.1).within
            ∙ sym (insert-slot key s ys)
            ∙ sym (top_short cap (insert key s ys) (omega (arith, length-insert key s ys)))
            ∙ sym (top_cons cap y (insert key s ys) (omega (arith, length-insert key s ys)))
            ∙ ap (top cap) (sym (insert_later slower))))
]
  where
    insert_later :
        lt_int64 s.duration y.duration ≡ false → insert key s (y ∷ ys) ≡ y ∷ insert key s ys
    insert_later e = unfold insert in rw (e, insert) refl

-- The part of `recordOp` under the write lock keeps the slowest of the group and the operation.
pub record_locked-top :
    (g : Group) (s : Span)
    → IsValid g
    → record_locked g s ≡ record g { ops = top g.cap_ops (insert key s g.ops) }
unfolding record_locked
record_locked-top g s v = elim (Bool-cases (too_fast g s)) [
  | inl e ↦
      rw (e, record_locked)
        (λ i. record g { ops = kept g.cap_ops g.ops s v.roomy (unfold too_fast in e) i })
  | inr e ↦
      rw (e, record_locked)
        (λ i. record g {
          ops = placed g.cap_ops g.ops s v.sorted v.bounded v.roomy (unfold too_fast in e) i;
        })
]
