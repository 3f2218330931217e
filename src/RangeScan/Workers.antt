-- ===== src/RangeScan/Workers.antt =====
-- The goroutines of a scan (Scan in rangescanopmanager.go): each takes a partition from the balancer,
-- scans it, and goes on, until no partition waits or the scan is cancelled. How the workers interleave
-- and how each partition's scan ends are a list of events.
use gocb.Base.{
  ℕ, ◌^◌, ◌≡◌, Bool, true, false, ◌&&◌, Option, none, some, List, [], ◌∷◌, ltb, if◌then◌else◌,
}
use gocb.Go.Word.{sub32}
use gocb.RangeScan.Balancer.{Vbucket, Balancer, update, retry_scan, scan_ended, select_vbucket}

-- What the errors that `Scan` asks about match.
pub data Failure : Type 0 where
  document_not_found temporary_failure busy authentication_failure collection_not_found : Failure
  scan_cancelled other_failure : Failure

-- What scanPartition returns: no error, or one with the point at which it failed.
pub data Outcome : Type 0 where
  complete : Outcome
  create_failed continue_failed : Failure → Outcome

-- What the worker does next.
pub data Action : Type 0 where
  done ignore retry retry_busy fatal : Action

-- An error other than those that the worker handles ends a range scan; sampling goes on without.
abbrev fatal_for_range : Bool → Action
fatal_for_range true = fatal
fatal_for_range false = ignore

-- The error handling in the worker's loop, for a range scan or a sampling scan.
unfoldable pub classify : Bool → Outcome → Action
classify is_range complete = done
classify is_range (create_failed document_not_found) = ignore
classify is_range (create_failed temporary_failure) = retry
classify is_range (create_failed busy) = retry_busy
classify is_range (create_failed authentication_failure) = fatal_for_range is_range
classify is_range (create_failed collection_not_found) = fatal_for_range is_range
classify is_range (create_failed scan_cancelled) = fatal_for_range is_range
classify is_range (create_failed other_failure) = fatal_for_range is_range
classify is_range (continue_failed document_not_found) = fatal_for_range is_range
classify is_range (continue_failed authentication_failure) = fatal_for_range is_range
classify is_range (continue_failed collection_not_found) = fatal_for_range is_range
classify is_range (continue_failed scan_cancelled) = fatal_for_range is_range
classify is_range (continue_failed temporary_failure) = fatal
classify is_range (continue_failed busy) = fatal
classify is_range (continue_failed other_failure) = fatal

pub data Worker : Type 0 where
  idle stopped : Worker
  scanning : Vbucket → Worker

pub record ScanState : Type 0 where
  pub balancer : Balancer
  pub workers : ℕ → Worker
  pub running : ℕ
  pub cancelled : Bool
  pub scanned : List ℕ
  pub ignored : List ℕ

unfoldable pub start : Balancer → ℕ → ScanState
start b max_concurrency = record {
  balancer = b;
  workers = λ i. if ltb i max_concurrency then idle else stopped;
  running = max_concurrency;
  cancelled = false;
  scanned = [];
  ignored = [];
}

-- `running >= 1` at int32.
abbrev pub others_run : ℕ → Bool
others_run running = ltb 0 running && ltb running (2 ^ 31)

-- The loop's condition, and the check for cancellation behind it.
unfoldable pub take_next : ScanState → ℕ → Option (Vbucket × Balancer) → ScanState
take_next st i none = record st { workers = update st.workers i stopped }
take_next st i (some (v, b)) = record st {
  balancer = b;
  workers = update st.workers i (if st.cancelled then stopped else scanning v);
}

-- The loop's body once the partition's scan has returned.
unfoldable pub act : ScanState → ℕ → Vbucket → Action → ScanState
act st i v done = record st {
  balancer = scan_ended v st.balancer;
  workers = update st.workers i idle;
  scanned = v.id ∷ st.scanned;
}
act st i v ignore = record st {
  balancer = scan_ended v st.balancer;
  workers = update st.workers i idle;
  ignored = v.id ∷ st.ignored;
}
act st i v retry = record st {
  balancer = retry_scan v (scan_ended v st.balancer);
  workers = update st.workers i idle;
}
act st i v retry_busy = record st {
  balancer = retry_scan v (scan_ended v st.balancer);
  running = sub32 st.running 1;
  workers = update st.workers i (if others_run (sub32 st.running 1) then stopped else idle);
}
act st i v fatal = record st {
  balancer = scan_ended v st.balancer;
  cancelled = true;
  workers = update st.workers i stopped;
}

-- Worker `i` goes on. The outcome is that of the partition it scans, and is not read otherwise.
unfoldable pub step_worker : Bool → ScanState → ℕ → Outcome → Worker → ScanState
step_worker is_range st i e idle = take_next st i (select_vbucket st.balancer)
step_worker is_range st i e (scanning v) = act st i v (classify is_range e)
step_worker is_range st i e stopped = st

unfoldable pub step : Bool → ScanState → ℕ × Outcome → ScanState
step is_range st (i, e) = step_worker is_range st i e (st.workers i)

unfoldable pub run : Bool → ScanState → List (ℕ × Outcome) → ScanState
run is_range st [] = st
run is_range st (e ∷ es) = run is_range (step is_range st e) es

-- The scan is over: the last worker's deferred call closes the result channel.
abbrev pub AllStopped : ScanState → Type 0
AllStopped st = (i : ℕ) → st.workers i ≡ stopped

-- Does this step stop a worker on a busy server?
abbrev pub sheds_action : ScanState → Action → Bool
sheds_action st retry_busy = others_run (sub32 st.running 1)
sheds_action st _ = false

abbrev pub sheds_worker : Bool → ScanState → Outcome → Worker → Bool
sheds_worker is_range st e (scanning v) = sheds_action st (classify is_range e)
sheds_worker is_range st e _ = false

abbrev pub sheds : Bool → ScanState → ℕ × Outcome → Bool
sheds is_range st (i, e) = sheds_worker is_range st e (st.workers i)
