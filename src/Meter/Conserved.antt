-- ===== src/Meter/Conserved.antt =====
-- No value is lost or counted twice between two reports (latencyHistogram in logging_meter.go).
use gocb.Base.{
  ℕ, zero, suc, ◌+◌, ◌^◌, ◌≤◌, ◌<◌, ◌≡◌, refl, sym, subst, ◌∙◌, inl, inr, Bool, true, false, List,
  [], ◌∷◌, arith, ltb, leb, if◌then◌else◌, Bool-cases, length, set, snoc,
}
use gocb.Meter.Histogram.{
  Event, Histogram, Scale, add_at, aggregate_step, aggregates, bin_of, finish_aggregate,
  new_histogram, on_event, record_value, records, run_events, swap_next, total_count, value_at,
  zeros,
}

abbrev pub sum : List ℕ → ℕ
sum [] = 0
sum (x ∷ xs) = x + sum xs

-- The total counts of all reports.
abbrev pub reported_total : List (List ℕ) → ℕ
reported_total [] = 0
reported_total (c ∷ cs) = total_count c + reported_total cs

-- The values that the bins, the aggregation under way and the reports account for.
abbrev pub accounted : Histogram → ℕ
accounted h = sum h.bins + h.count_so_far + reported_total h.reported

abbrev pub recorded : List Event → ℕ
recorded [] = 0
recorded (records v ∷ es) = recorded es + 1
recorded (aggregates ∷ es) = recorded es

sum-zeros : (n : ℕ) → sum (zeros n) ≡ 0
sum-zeros zero = refl
sum-zeros (suc n) = omega (arith, sum-zeros n)

length-zeros : (n : ℕ) → length (zeros n) ≡ n
length-zeros zero = refl
length-zeros (suc n) = omega (arith, length-zeros n)

length-add_at : (i : ℕ) (bs : List ℕ) → length (add_at i bs) ≡ length bs
unfolding add_at
length-add_at i [] = refl
length-add_at zero (b ∷ bs) = refl
length-add_at (suc i) (b ∷ bs) = omega (arith, length-add_at i bs)

sum-add_at :
    (i : ℕ) (bs : List ℕ) → i < length bs → sum bs + 1 < 2 ^ 64 → sum (add_at i bs) ≡ sum bs + 1
unfolding add_at
sum-add_at i [] lt fits = absurd (omega (arith, lt))
sum-add_at zero (b ∷ bs) lt fits = omega (arith, fits)
sum-add_at (suc i) (b ∷ bs) lt fits =
    omega (arith, sum-add_at i bs (omega (arith, lt)) (omega (arith, fits)))

length-set_zero : (i : ℕ) (bs : List ℕ) → length (set bs i 0) ≡ length bs
length-set_zero i [] = refl
length-set_zero zero (b ∷ bs) = refl
length-set_zero (suc i) (b ∷ bs) = omega (arith, length-set_zero i bs)

sum-set_zero : (i : ℕ) (bs : List ℕ) → sum (set bs i 0) + value_at i bs ≡ sum bs
sum-set_zero i [] = refl
sum-set_zero zero (b ∷ bs) = omega arith
sum-set_zero (suc i) (b ∷ bs) = omega (arith, sum-set_zero i bs)

total_count-snoc : (cs : List ℕ) (c : ℕ) → total_count (snoc cs c) ≡ c
unfolding total_count
total_count-snoc [] c = refl
total_count-snoc (b ∷ []) c = refl
total_count-snoc (b ∷ d ∷ cs) c = total_count-snoc (d ∷ cs) c

reported_total-snoc :
    (rs : List (List ℕ)) (c : List ℕ)
    → reported_total (snoc rs c) ≡ reported_total rs + total_count c
reported_total-snoc [] c = omega arith
reported_total-snoc (r ∷ rs) c = omega (arith, reported_total-snoc rs c)

-- The bins keep their number, and the last bin of an aggregation is its count.
record Inv (n k : ℕ) (h : Histogram) : Type 0 where
  pub size : length h.bins ≡ n
  pub last : total_count h.cumulative ≡ h.count_so_far
  pub total : accounted h ≡ k

-- The logarithm finds a bin of a histogram of this size.
abbrev pub InRange : Scale → ℕ → Type 0
InRange sc n = (0 < n) × ((v : ℕ) → sc.start_value < v → v ≤ sc.max_value → sc.log_bin v < n)

bin_of-lt : (sc : Scale) (n v : ℕ) → InRange sc n → bin_of sc n v < n
unfolding bin_of
bin_of-lt sc n v (p, h) = elim (Bool-cases (ltb sc.max_value v)) [
  | inl e ↦ ground (arith, e, p)
  | inr e ↦ elim (Bool-cases (leb v sc.start_value)) [
    | inl f ↦ ground (arith, e, f, p)
    | inr f ↦ rw (e, f) (h v (ground (arith, f)) (ground (arith, e)))
  ]
]

record_value-Inv :
    (sc : Scale) (n k v : ℕ) (h : Histogram)
    → InRange sc n
    → k + 1 < 2 ^ 64
    → Inv n k h
    → Inv n (k + 1) (record_value sc v h)
unfolding record_value
record_value-Inv sc n k v h r fits i =
    let bin = bin_of sc (length h.bins) v in
    let lt = bin_of-lt sc (length h.bins) v (subst (InRange sc) (sym i.size) r) in
    let s = sum-add_at bin h.bins lt (omega (arith, fits, i.total)) in
    record {
      size = length-add_at bin h.bins ∙ i.size;
      last = i.last;
      total = omega (arith, s, i.total);
    }

aggregate_step-Inv : (n k : ℕ) (h : Histogram) → k < 2 ^ 64 → Inv n k h → Inv n k (aggregate_step h)
unfolding aggregate_step swap_next finish_aggregate total_count
aggregate_step-Inv n k h fits i = choose (ltb h.position (length h.bins)) _ _ swapped finished
  where
    choose : (b : Bool) (x y : Histogram) → Inv n k x → Inv n k y → Inv n k (if b then x else y)
    choose true x y p q = p
    choose false x y p q = q

    swapped : Inv n k (swap_next h)
    swapped =
        let s = sum-set_zero h.position h.bins in
        record {
          size = length-set_zero h.position h.bins ∙ i.size;
          last = total_count-snoc h.cumulative _;
          total = omega (arith, s, i.total, fits);
        }

    finished : Inv n k (finish_aggregate h)
    finished =
        let s = reported_total-snoc h.reported h.cumulative in
        record { size = i.size; last = refl; total = omega (arith, s, i.last, i.total) }

run_events-Inv :
    (sc : Scale) (n k : ℕ) (es : List Event) (h : Histogram)
    → InRange sc n
    → k + recorded es < 2 ^ 64
    → Inv n k h
    → accounted (run_events sc es h) ≡ k + recorded es
unfolding run_events on_event
run_events-Inv sc n k [] h r fits i = omega (arith, i.total)
run_events-Inv sc n k (records v ∷ es) h r fits i = omega (
  arith,
  run_events-Inv sc n (k + 1) es (record_value sc v h) r (omega (arith, fits))
      (record_value-Inv sc n k v h r (omega (arith, fits)) i),
)
run_events-Inv sc n k (aggregates ∷ es) h r fits i =
    run_events-Inv sc n k es (aggregate_step h) r fits
      (aggregate_step-Inv n k h (omega (arith, fits)) i)

-- However recordings and the rounds of aggregations alternate, if the logarithm finds a bin of the
-- histogram for every value between the smallest and the largest, and fewer than 2 ^ 64 values are
-- recorded, then the reports, the aggregation under way and the bins together account for each recorded
-- value exactly once.
pub run_events-accounted :
    (sc : Scale) (n : ℕ) (es : List Event)
    → InRange sc n
    → recorded es < 2 ^ 64
    → accounted (run_events sc es (new_histogram n)) ≡ recorded es
unfolding new_histogram total_count
run_events-accounted sc n es r fits = omega (
  arith,
  run_events-Inv sc n 0 es (new_histogram n) r (omega (arith, fits))
      (record { size = length-zeros n; last = refl; total = omega (arith, sum-zeros n) }),
)
