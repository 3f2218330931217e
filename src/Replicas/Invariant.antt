-- ===== src/Replicas/Invariant.antt =====
-- What holds of the shared result of a read of all replicas, and that every method keeps it
-- (coreReplicasResult in collection_crud.go).
use gocb.Base.{ℕ, ◌+◌, ◌*◌, ◌^◌, ◌≤◌, ◌<◌, ◌≡◌, refl, arith, leb, ◌==◌, if◌then◌else◌}
use gocb.Go.Word.{add32}
use gocb.Replicas.Results.{
  Results, add_failed, add_result, close_results, end_results, finish_close, send_result,
  start_results,
}

module _ {A : Type 0} where
  -- A state of `n` requests after `a` replies, `b` of which at most are results, and `c` calls of Close.
  pub record Inv (n a b c : ℕ) (s : Results A) : Type 0 where
    pub total_kept : s.total_requests ≡ n
    pub counted : s.total_results ≡ a
    pub success_low : 100_000 * c ≤ s.success_results
    pub success_high : s.success_results ≤ 100_000 * c + b
    pub res_once : s.res_closed ≡ (if leb n s.success_results then 1 else 0)
    pub cancel_once : s.cancel_closed ≡ s.res_closed
    pub children_once : s.children_closed ≡ (if s.total_results == n then 1 else 0)
    pub span_once : s.span_ended + s.closing ≡ s.res_closed
    pub never_late : s.sent_late ≡ 0

  pub start_results-Inv : (n : ℕ) → Inv n 0 0 0 (start_results n)
  unfolding start_results
  start_results-Inv n = record {
    total_kept = refl;
    counted = refl;
    success_low = omega arith;
    success_high = omega arith;
    res_once = ground arith;
    cancel_once = refl;
    children_once = ground arith;
    span_once = ground arith;
    never_late = refl;
  }

  pub add_failed-Inv :
      (n a b c : ℕ) (s : Results A)
      → a < n
      → n < 2 ^ 32
      → Inv n a b c s
      → Inv n (a + 1) b c (add_failed s)
  unfolding add_failed
  add_failed-Inv n a b c s lt fits i = record {
    total_kept = i.total_kept;
    counted = ground (arith, i.counted);
    success_low = i.success_low;
    success_high = i.success_high;
    res_once = i.res_once;
    cancel_once = i.cancel_once;
    children_once = ground (arith, i.total_kept, i.counted, i.children_once);
    span_once = i.span_once;
    never_late = i.never_late;
  }

  -- A result before it counts as a reply.
  received : A → Results A → Results A
  received x s =
      let count = add32 s.success_results 1 in
      let counted = record s { success_results = count } in
      let written = if leb count s.total_requests then send_result x counted else counted in
      if count == s.total_requests then end_results written else written

  received-Inv :
      (n a b c : ℕ) (x : A) (s : Results A)
      → 100_000 * c + b + 1 < 2 ^ 32
      → Inv n a b c s
      → Inv n a (b + 1) c (received x s)
  unfolding received send_result end_results
  received-Inv n a b c x s fits i = record {
    total_kept = ground (arith, i.total_kept);
    counted = ground (arith, i.counted);
    success_low = ground (arith, i.success_low, i.success_high);
    success_high = ground (arith, i.success_low, i.success_high);
    res_once = ground (arith, i.total_kept, i.success_high, i.res_once);
    cancel_once = ground (arith, i.cancel_once);
    children_once = ground (arith, i.total_kept, i.children_once);
    span_once = ground (arith, i.span_once);
    never_late = ground (arith, i.total_kept, i.success_high, i.res_once, i.never_late);
  }

  pub close_results-Inv :
      (n a b c : ℕ) (s : Results A)
      → n ≤ 100_000
      → 100_000 * (c + 1) + b < 2 ^ 32
      → Inv n a b c s
      → Inv n a b (c + 1) (close_results s)
  unfolding close_results
  close_results-Inv n a b c s small fits i = record {
    total_kept = ground (arith, i.total_kept);
    counted = ground (arith, i.counted);
    success_low = ground (arith, i.success_low, i.success_high);
    success_high = ground (arith, i.success_low, i.success_high);
    res_once = ground (arith, i.total_kept, i.success_high, i.res_once);
    cancel_once = ground (arith, i.cancel_once);
    children_once = ground (arith, i.total_kept, i.children_once);
    span_once = ground (arith, i.span_once);
    never_late = ground (arith, i.never_late);
  }

  pub finish_close-Inv :
      (n a b c : ℕ) (s : Results A) → Inv n a b c s → Inv n a b c (finish_close s)
  unfolding finish_close
  finish_close-Inv n a b c s i = record {
    total_kept = ground (arith, i.total_kept);
    counted = ground (arith, i.counted);
    success_low = ground (arith, i.success_low);
    success_high = ground (arith, i.success_high);
    res_once = ground (arith, i.res_once);
    cancel_once = ground (arith, i.cancel_once);
    children_once = ground (arith, i.children_once);
    span_once = ground (arith, i.span_once);
    never_late = ground (arith, i.never_late);
  }

  pub Inv-weaken : (n a b c : ℕ) (s : Results A) → Inv n a b c s → Inv n a (b + 1) c s
  Inv-weaken n a b c s i = record {
    total_kept = i.total_kept;
    counted = i.counted;
    success_low = i.success_low;
    success_high = omega (arith, i.success_high);
    res_once = i.res_once;
    cancel_once = i.cancel_once;
    children_once = i.children_once;
    span_once = i.span_once;
    never_late = i.never_late;
  }

  pub add_result-Inv :
      (n a b c : ℕ) (x : A) (s : Results A)
      → a < n
      → (n < 2 ^ 32) × (100_000 * c + b + 1 < 2 ^ 32)
      → Inv n a b c s
      → Inv n (a + 1) (b + 1) c (add_result x s)
  unfolding add_result received
  add_result-Inv n a b c x s lt (fits, more) i =
      add_failed-Inv n a (b + 1) c (received x s) lt fits (received-Inv n a b c x s more i)
