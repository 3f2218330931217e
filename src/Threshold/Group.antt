-- ===== src/Threshold/Group.antt =====
-- A group of slow operations (thresholdLogGroup in thresholdlogtracer.go): a slice in ascending
-- order of duration, whose capacity is the sample size.
use gocb.Base.{
  ℕ, zero, suc, ◌-◌, String, Bool, true, ◌&&◌, List, [], ◌∷◌, ltb, ◌==◌, if◌then◌else◌, length, set,
  take, drop, snoc,
}
use gocb.Go.Word.{lt_int64}
use gocb.Go.Slice.{copy_at}
use gocb.Go.Sort.{search_slice}
use gocb.Threshold.Span.{Span}

pub record Group : Type 0 where
  pub name : String
  pub floor : ℕ
  pub ops : List Span
  pub cap_ops : ℕ

unfoldable pub init_group : String → ℕ → ℕ → Group
init_group name floor size = record { name = name; floor = floor; ops = []; cap_ops = size }

-- `g.ops[i].duration < …` reads an element that is there; the default is never used.
abbrev pub slower_at : ℕ → List Span → ℕ → Bool
slower_at d [] i = true
slower_at d (x ∷ xs) zero = lt_int64 d x.duration
slower_at d (x ∷ xs) (suc i) = slower_at d xs i

-- `len(g.ops) == cap(g.ops) && span.duration < g.ops[0].duration`
unfoldable pub too_fast : Group → Span → Bool
too_fast g span = length g.ops == g.cap_ops && slower_at span.duration g.ops 0

-- The slice after the write, for the slot `i` that the search found.
unfoldable pub place : ℕ → ℕ → List Span → Span → List Span
place cap_ops i ops span =
    if ltb (length ops) cap_ops
    then if i == length ops
      then snoc ops span
      else set (copy_at (suc i) (drop i (snoc ops span)) (snoc ops span)) i span
    else if i == 0
    then set ops 0 span
    else set (copy_at 0 (take (i - 1) (drop 1 ops)) ops) (i - 1) span

-- The part of `recordOp` under the write lock.
unfoldable pub record_locked : Group → Span → Group
unfolding too_fast place
record_locked g span = if too_fast g span then g else record g {
  ops = place g.cap_ops (search_slice (length g.ops) (slower_at span.duration g.ops)) g.ops span;
}

-- `recordOp`: `g` is the group under the read lock, `h` the group when the write lock is held.
unfoldable pub record_op_between : Group → Group → Span → Group
record_op_between g h span =
    if lt_int64 span.duration g.floor
    then h
    else if too_fast g span
    then h
    else record_locked h span

-- `recordOp` with nothing between its two locks.
unfoldable pub record_op : Group → Span → Group
unfolding record_op_between
record_op g span = record_op_between g g span

unfoldable pub record_all : Group → List Span → Group
record_all g [] = g
record_all g (s ∷ ss) = record_all (record_op g s) ss
