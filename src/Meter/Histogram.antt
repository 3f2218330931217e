-- ===== src/Meter/Histogram.antt =====
-- A histogram of latencies (latencyHistogram in logging_meter.go). Values are recorded at any time,
-- while one goroutine swaps the bins one after the other for zeros and adds them up, so that a run is a
-- list of events. The logarithm in floating point, which finds a bin in the middle, is a parameter.
use gocb.Base.{ℕ, zero, suc, ◌+◌, ◌-◌, List, [], ◌∷◌, ltb, leb, if◌then◌else◌, length, set, snoc}
use gocb.Go.Word.{add64}

-- The bins, and what the aggregation under way has: its next bin, what it has counted, its own bins so
-- far; at last the cumulative histograms that are finished.
pub record Histogram : Type 0 where
  pub bins : List ℕ
  pub position : ℕ
  pub count_so_far : ℕ
  pub cumulative : List ℕ
  pub reported : List (List ℕ)

-- So many bins, all empty.
abbrev pub zeros : ℕ → List ℕ
zeros zero = []
zeros (suc n) = 0 ∷ zeros n

unfoldable pub new_histogram : ℕ → Histogram
new_histogram n = record {
  bins = zeros n;
  position = 0;
  count_so_far = 0;
  cumulative = [];
  reported = [];
}

-- `maxValue` and `scaleFactor`, which are whole numbers, and the bin of a value between them.
pub record Scale : Type 0 where
  pub max_value : ℕ
  pub start_value : ℕ
  pub log_bin : ℕ → ℕ

unfoldable pub bin_of : Scale → ℕ → ℕ → ℕ
bin_of sc n v =
    if ltb sc.max_value v then n - 1 else if leb v sc.start_value then 0 else sc.log_bin v

-- `atomic.AddUint64(&lh.bins[bin], 1)`; out of range is a panic, and changes nothing here.
unfoldable pub add_at : ℕ → List ℕ → List ℕ
add_at i [] = []
add_at zero (b ∷ bs) = add64 b 1 ∷ bs
add_at (suc i) (b ∷ bs) = b ∷ add_at i bs

unfoldable pub record_value : Scale → ℕ → Histogram → Histogram
record_value sc v h = record h { bins = add_at (bin_of sc (length h.bins) v) h.bins }

-- What stands in a bin.
abbrev pub value_at : ℕ → List ℕ → ℕ
value_at i [] = 0
value_at zero (b ∷ bs) = b
value_at (suc i) (b ∷ bs) = value_at i bs

-- One round of the loop of AggregateAndReset.
unfoldable pub swap_next : Histogram → Histogram
swap_next h = record h {
  bins = set h.bins h.position 0;
  position = h.position + 1;
  count_so_far = add64 h.count_so_far (value_at h.position h.bins);
  cumulative = snoc h.cumulative (add64 h.count_so_far (value_at h.position h.bins));
}

-- The end of AggregateAndReset.
unfoldable pub finish_aggregate : Histogram → Histogram
finish_aggregate h = record h {
  position = 0;
  count_so_far = 0;
  cumulative = [];
  reported = snoc h.reported h.cumulative;
}

unfoldable pub aggregate_step : Histogram → Histogram
aggregate_step h = if ltb h.position (length h.bins) then swap_next h else finish_aggregate h

-- `TotalCount`: the last bin, 0 here where there is none.
unfoldable pub total_count : List ℕ → ℕ
total_count [] = 0
total_count (b ∷ []) = b
total_count (b ∷ c ∷ cs) = total_count (c ∷ cs)

pub data Event : Type 0 where
  records : ℕ → Event
  aggregates : Event

unfoldable pub on_event : Scale → Event → Histogram → Histogram
on_event sc (records v) h = record_value sc v h
on_event sc aggregates h = aggregate_step h

unfoldable pub run_events : Scale → List Event → Histogram → Histogram
run_events sc [] h = h
run_events sc (e ∷ es) h = run_events sc es (on_event sc e h)
