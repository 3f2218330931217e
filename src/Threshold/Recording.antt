-- ===== src/Threshold/Recording.antt =====
-- Operations recorded one after the other, and what another goroutine may do in between
-- (thresholdLogGroup.recordOp in thresholdlogtracer.go).
use mathlib.Core.List.{Perm, append-nil}
use gocb.Base.{
  ℕ, zero, suc, ◌-◌, ◌<◌, String, ◌≡◌, refl, sym, ap, ◌∙◌, ◌⊎◌, inl, inr, Bool, true, false, not,
  List, [], ◌∷◌, arith, if◌then◌else◌, Bool-cases, length, drop, length-drop, select,
}
use gocb.Go.Word.{lt_int64}
use gocb.Threshold.Order.{
  top, IsSorted, insert, insert-IsSorted, drop-IsSorted, top-insert-top, sort_onto,
  sort_onto-IsSorted, sort_onto-perm,
}
use gocb.Threshold.Span.{Span}
use gocb.Threshold.Group.{
  Group, init_group, too_fast, record_locked, record_op_between, record_op, record_all,
}
use gocb.Threshold.Slowest.{key, IsValid, record_locked-top}

-- Is the operation at or above the group's threshold?
abbrev pub is_slow : ℕ → Span → Bool
is_slow floor s = not (lt_int64 s.duration floor)

pub init_group-IsValid :
    (name : String) (floor size : ℕ) → 0 < size → IsValid (init_group name floor size)
unfolding init_group
init_group-IsValid name floor size h = record { sorted = tt; bounded = omega arith; roomy = h }

top-IsValid :
    (g : Group) (s : Span)
    → IsValid g
    → IsValid (record g { ops = top g.cap_ops (insert key s g.ops) })
top-IsValid g s v = record {
  sorted = drop-IsSorted key _ (insert key s g.ops) (insert-IsSorted key s g.ops v.sorted);
  bounded =
      omega (arith, length-drop (length (insert key s g.ops) - g.cap_ops) (insert key s g.ops));
  roomy = v.roomy;
}

too_fast-locked : (g : Group) (s : Span) → too_fast g s ≡ true → record_locked g s ≡ g
unfolding record_locked
too_fast-locked g s e = rw (e, record_locked) refl

-- On a well-formed group a call ignores an operation under the threshold; any other it inserts in
-- order, and it keeps the slowest ones that fit.
pub record_op-top :
    (g : Group) (s : Span)
    → IsValid g
    → record_op g s ≡ (
        if lt_int64 s.duration g.floor
        then g
        else record g { ops = top g.cap_ops (insert key s g.ops) })
unfolding record_op
record_op-top g s v = elim (Bool-cases (lt_int64 s.duration g.floor)) [
  | inl e ↦ rw (e, record_op_between) refl
  | inr e ↦ elim (Bool-cases (too_fast g s)) [
    | inl f ↦ rw (e, f, record_op_between) (sym (too_fast-locked g s f) ∙ record_locked-top g s v)
    | inr f ↦ rw (e, f, record_op_between) (record_locked-top g s v)
  ]
]

pub record_op-IsValid : (g : Group) (s : Span) → IsValid g → IsValid (record_op g s)
record_op-IsValid g s v = rw (record_op-top g s v) (split (lt_int64 s.duration g.floor))
  where
    split :
        (b : Bool)
        → IsValid (if b then g else record g { ops = top g.cap_ops (insert key s g.ops) })
    split true = v
    split false = top-IsValid g s v

-- The check under the read lock is no more than a shortcut. Whatever other goroutines make of the
-- group between the two locks, its threshold aside, the call has the effect of one that runs alone,
-- either on the group `g` that the read lock showed, which it leaves as it is, or on the group `h`
-- under the write lock.
pub record_op_linearizable :
    (g h : Group) (s : Span)
    → g.floor ≡ h.floor
    → ((record_op g s ≡ g) × (record_op_between g h s ≡ h))
      ⊎ (record_op_between g h s ≡ record_op h s)
unfolding record_op record_op_between record_locked
record_op_linearizable g h s same = elim (Bool-cases (lt_int64 s.duration g.floor)) [
  | inl e ↦ inl (rw (e, record_op_between) refl, rw (e, record_op_between) refl)
  | inr e ↦ elim (Bool-cases (too_fast g s)) [
    | inl f ↦ inl (rw (e, f, record_op_between) refl, rw (e, f, record_op_between) refl)
    | inr f ↦ inr (ground (arith, below e))
  ]
]
  where
    below : lt_int64 s.duration g.floor ≡ false → lt_int64 s.duration h.floor ≡ false
    below e = rw (← same) e

record_all-from :
    (size floor : ℕ) (g : Group) (acc ss : List Span)
    → IsValid g
    → IsSorted key acc
    → g.cap_ops ≡ size
    → g.floor ≡ floor
    → g.ops ≡ top size acc
    → (record_all g ss).ops ≡ top size (sort_onto key acc (select (is_slow floor) ss))
unfolding record_all sort_onto
record_all-from size floor g acc [] v sorted c f e = e
record_all-from size floor g acc (s ∷ ss) v sorted c f e =
    elim (Bool-cases (lt_int64 s.duration floor)) [
      | inl l ↦
          let l' : lt_int64 s.duration g.floor ≡ true = rw f l in
          let same : record_op g s ≡ g = record_op-top g s v ∙ pick_true l' in
          rw l (
            ap (λ h. (record_all h ss).ops) same
            ∙ record_all-from size floor g acc ss v sorted c f e)
      | inr l ↦
          let l' : lt_int64 s.duration g.floor ≡ false = rw f l in
          let g' : Group = record g { ops = top g.cap_ops (insert key s g.ops) } in
          let same : record_op g s ≡ g' = record_op-top g s v ∙ pick_false l' in
          rw l (
            ap (λ h. (record_all h ss).ops) same
            ∙ (record_all-from size floor g' (insert key s acc) ss (top-IsValid g s v)
                (insert-IsSorted key s acc sorted) c f
                (ap (λ n. top n (insert key s g.ops)) c
                  ∙ ap (λ xs. top size (insert key s xs)) e
                  ∙ top-insert-top key size s acc sorted)))
    ]
  where
    pick_true :
        lt_int64 s.duration g.floor ≡ true
        → (if lt_int64 s.duration g.floor
            then g
            else record g { ops = top g.cap_ops (insert key s g.ops) })
          ≡ g
    pick_true h = rw h refl

    pick_false :
        lt_int64 s.duration g.floor ≡ false
        → (if lt_int64 s.duration g.floor
            then g
            else record g { ops = top g.cap_ops (insert key s g.ops) })
          ≡ record g { ops = top g.cap_ops (insert key s g.ops) }
    pick_false h = rw h refl

-- After any operations, a new group of nonzero size holds the slowest of those at or above its
-- threshold, in ascending order of duration: the last `size` of an ordered permutation of them.
pub record_all-slowest :
    (name : String) (floor size : ℕ) (ss : List Span)
    → 0 < size
    → let slow = select (is_slow floor) ss in
      ((record_all (init_group name floor size) ss).ops ≡ top size (sort_onto key [] slow))
      × IsSorted key (sort_onto key [] slow)
      × Perm (sort_onto key [] slow) slow
unfolding init_group
record_all-slowest name floor size ss pos = (
  record_all-from size floor (init_group name floor size) [] ss
      (init_group-IsValid name floor size pos) tt refl refl refl',
  sort_onto-IsSorted key [] _ tt,
  rw append-nil at (sort_onto-perm key [] (select (is_slow floor) ss)),
)
  where
    refl' : [] ≡ top {A = Span} size []
    refl' = sym (drop_nil (0 - size))
      where
        drop_nil : (n : ℕ) → drop {A = Span} n [] ≡ []
        drop_nil zero = refl
        drop_nil (suc n) = refl
