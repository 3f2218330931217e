-- ===== src/Replicas/Safety.antt =====
-- No schedule of the replies and of Close makes the shared result panic (coreReplicasResult in
-- collection_crud.go).
use mathlib.Core.List.{append-nil, append_assoc}
use gocb.Base.{
  ℕ, ◌+◌, ◌*◌, ◌^◌, ◌≤◌, ◌<◌, ◌≡◌, refl, sym, ap, ◌∙◌, Bool, true, false, List, [], ◌∷◌, ◌++◌,
  arith, ◌==◌, if◌then◌else◌, snoc,
}
use gocb.Replicas.Results.{
  Event, Results, add_failed, add_result, close_called, close_results, close_wakes, end_results,
  failed, finish_close, on_event, result, run_events, send_result, start_results,
}
use gocb.Replicas.Invariant.{
  Inv, Inv-weaken, add_failed-Inv, add_result-Inv, close_results-Inv, finish_close-Inv,
  start_results-Inv,
}

module _ {A : Type 0} where
  -- The replies, and the calls of Close, in a schedule.
  abbrev pub replies : List (Event A) → ℕ
  replies [] = 0
  replies (failed ∷ es) = replies es + 1
  replies (result a ∷ es) = replies es + 1
  replies (_ ∷ es) = replies es

  abbrev pub results : List (Event A) → ℕ
  results [] = 0
  results (result a ∷ es) = results es + 1
  results (_ ∷ es) = results es

  abbrev pub closes : List (Event A) → ℕ
  closes [] = 0
  closes (close_called ∷ es) = closes es + 1
  closes (_ ∷ es) = closes es

  -- The results before the first call of Close.
  abbrev pub before_close : List (Event A) → List A
  before_close [] = []
  before_close (result a ∷ es) = a ∷ before_close es
  before_close (close_called ∷ es) = []
  before_close (_ ∷ es) = before_close es

  -- Nothing was closed twice, nothing was written to a closed channel, and the span ended once at most.
  pub record IsSafe (s : Results A) : Type 0 where
    pub res_most : s.res_closed ≤ 1
    pub cancel_most : s.cancel_closed ≤ 1
    pub children_most : s.children_closed ≤ 1
    pub span_most : s.span_ended ≤ 1
    pub no_late : s.sent_late ≡ 0

  Inv-IsSafe : (n a b c : ℕ) (s : Results A) → Inv n a b c s → IsSafe s
  Inv-IsSafe n a b c s i = record {
    res_most = ground (arith, i.res_once);
    cancel_most = ground (arith, i.res_once, i.cancel_once);
    children_most = ground (arith, i.children_once);
    span_most = ground (arith, i.span_once, i.res_once);
    no_late = i.never_late;
  }

  -- What a result adds to the channel.
  add_result-sent :
      (n a c : ℕ) (x : A) (s : Results A)
      → a < n
      → n ≤ 100_000
      → 100_000 * c + n < 2 ^ 32
      → Inv n a a c s
      → (add_result x s).sent ≡ (if c == 0 then snoc s.sent x else s.sent)
  unfolding add_result send_result end_results add_failed
  add_result-sent n a c x s lt small fits i =
      ground (arith, i.total_kept, i.success_low, i.success_high)

  quiet-sent :
      (s : Results A)
      → ((add_failed s).sent ≡ s.sent)
        × ((close_results s).sent ≡ s.sent)
        × ((finish_close s).sent ≡ s.sent)
  unfolding add_failed close_results finish_close
  quiet-sent s = (refl, ground arith, ground arith)

  -- The rest of a schedule delivers what its results are, if Close was not called before.
  abbrev delivered : ℕ → List (Event A) → List A
  delivered c es = if c == 0 then before_close es else []

  delivered-nothing : (c : ℕ) (xs : List A) → xs ≡ xs ++ delivered c []
  delivered-nothing c xs = by_test (c == 0)
    where
      by_test : (b : Bool) → xs ≡ xs ++ (if b then [] else [])
      by_test true = sym (append-nil xs)
      by_test false = sym (append-nil xs)

  delivered-result :
      (c : ℕ) (xs : List A) (x : A) (es : List (Event A))
      → (if c == 0 then snoc xs x else xs) ++ delivered c es ≡ xs ++ delivered c (result x ∷ es)
  delivered-result c xs x es = by_test (c == 0)
    where
      by_test :
          (b : Bool)
          → (if b then snoc xs x else xs) ++ (if b then before_close es else [])
            ≡ xs ++ (if b then x ∷ before_close es else [])
      by_test true = append_assoc xs (x ∷ []) (before_close es)
      by_test false = refl

  delivered-close :
      (c : ℕ) (xs : List A) (es : List (Event A))
      → xs ++ delivered (c + 1) es ≡ xs ++ delivered c (close_called ∷ es)
  delivered-close c xs es = ap (λ ys. xs ++ ys) (none_left ∙ by_test (c == 0))
    where
      none_left : delivered (c + 1) es ≡ []
      none_left = ground arith

      by_test : (b : Bool) → ◌≡◌ {A = List A} [] (if b then [] else [])
      by_test true = refl
      by_test false = refl

  abbrev Outcome : ℕ → List (Event A) → Results A → Type 0
  Outcome c es s = IsSafe (run_events es s) × ((run_events es s).sent ≡ s.sent ++ delivered c es)

  run_events-Outcome :
      (n a c : ℕ) (es : List (Event A)) (s : Results A)
      → a + replies es ≤ n
      → n ≤ 100_000
      → 100_000 * (c + closes es) + n < 2 ^ 32
      → Inv n a a c s
      → Outcome c es s
  unfolding run_events on_event
  run_events-Outcome n a c [] s le small fits i =
      (Inv-IsSafe n a a c s i, delivered-nothing c s.sent)
  run_events-Outcome n a c (failed ∷ es) s le small fits i =
      let (h, k) = run_events-Outcome n (a + 1) c es (add_failed s) (omega (arith, le)) small fits (
        Inv-weaken n (a + 1) a c _
          (add_failed-Inv n a a c s (omega (arith, le)) (omega (arith, fits)) i)) in
      (h, k ∙ ap (λ xs. xs ++ delivered c es) (quiet-sent s).0)
  run_events-Outcome n a c (result x ∷ es) s le small fits i =
      let (h, k) =
        run_events-Outcome n (a + 1) c es (add_result x s) (omega (arith, le)) small fits (
          add_result-Inv n a a c x s (omega (arith, le))
            (omega (arith, fits), omega (arith, fits, le)) i) in
      (
        h,
        k
            ∙ ap (λ xs. xs ++ delivered c es)
                (add_result-sent n a c x s (omega (arith, le)) small (omega (arith, fits)) i)
            ∙ delivered-result c s.sent x es,
      )
  run_events-Outcome n a c (close_called ∷ es) s le small fits i =
      let (h, k) =
        run_events-Outcome n a (c + 1) es (close_results s) le small (omega (arith, fits))
          (close_results-Inv n a a c s small (omega (arith, fits, le)) i) in
      (h, k ∙ ap (λ xs. xs ++ delivered (c + 1) es) (quiet-sent s).1 ∙ delivered-close c s.sent es)
  run_events-Outcome n a c (close_wakes ∷ es) s le small fits i =
      let (h, k) =
        run_events-Outcome n a c es (finish_close s) le small fits (finish_close-Inv n a a c s i) in
      (h, k ∙ ap (λ xs. xs ++ delivered c es) (quiet-sent s).2)

  -- In every order of the replies and of calls of Close, if there are at most as many replies as
  -- requests, at most 100,000 requests, and so few calls that the count stays below 2 ^ 32, then no
  -- channel is closed twice or written to when closed, the span ends once at most, and a reader gets
  -- exactly the results that came before the first Close, in their order.
  pub run_events-IsSafe :
      (n : ℕ) (es : List (Event A))
      → replies es ≤ n
      → n ≤ 100_000
      → 100_000 * closes es + n < 2 ^ 32
      → IsSafe (run_events es (start_results n))
        × ((run_events es (start_results n)).sent ≡ before_close es)
  unfolding start_results
  run_events-IsSafe n es le small fits =
      run_events-Outcome n 0 0 es (start_results n) (omega (arith, le)) small (omega (arith, fits))
        (start_results-Inv n)

  still_open :
      (n a b : ℕ) (es : List (Event A)) (s : Results A)
      → a + replies es ≡ n
      → b + results es < n
      → n < 2 ^ 32
      → closes es ≡ 0
      → Inv n a b 0 s
      → ((run_events es s).res_closed ≡ 0) × ((run_events es s).children_closed ≡ 1)
  unfolding run_events on_event
  still_open n a b [] s e lt fits none_called i =
      (ground (arith, i.res_once, i.success_high), ground (arith, i.children_once, i.counted))
  still_open n a b (failed ∷ es) s e lt fits none_called i =
      still_open n (a + 1) b es (add_failed s) (omega (arith, e)) lt fits none_called
        (add_failed-Inv n a b 0 s (omega (arith, e)) fits i)
  still_open n a b (result x ∷ es) s e lt fits none_called i =
      still_open n (a + 1) (b + 1) es (add_result x s) (omega (arith, e)) (omega (arith, lt)) fits
        none_called
        (add_result-Inv n a b 0 x s (omega (arith, e)) (fits, omega (arith, lt, fits)) i)
  still_open n a b (close_called ∷ es) s e lt fits none_called i =
      absurd (omega (arith, none_called))
  still_open n a b (close_wakes ∷ es) s e lt fits none_called i =
      still_open n a b es (finish_close s) e lt fits none_called (finish_close-Inv n a b 0 s i)

  -- Once every request has been answered, if one of them failed and Close has not been called, then
  -- the channel of the results is still open, though the one that says that all requests are over
  -- is closed.
  pub run_events_open :
      (n : ℕ) (es : List (Event A))
      → replies es ≡ n
      → results es < n
      → n < 2 ^ 32
      → closes es ≡ 0
      → ((run_events es (start_results n)).res_closed ≡ 0)
        × ((run_events es (start_results n)).children_closed ≡ 1)
  run_events_open n es e lt fits none_called =
      still_open n 0 0 es (start_results n) (omega (arith, e)) (omega (arith, lt)) fits none_called
        (start_results-Inv n)
