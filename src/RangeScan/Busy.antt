-- ===== src/RangeScan/Busy.antt =====
-- Scans on a server that reports that it is busy (the shutdown of workers in Scan,
-- rangescanopmanager.go): one worker keeps going, two may lose a partition.
use mathlib.Core.List.{Memᴰ}
use gocb.Base.{
  ℕ, ◌+◌, ◌-◌, ◌^◌, ◌≤◌, ◌<◌, ◌≡◌, refl, ◌⊎◌, inl, inr, Bool, true, false, Option, none, some, List,
  [], ◌∷◌, arith, length,
}
use gocb.Go.Word.{sub32}
use gocb.RangeScan.Balancer.{
  Vbucket, Balancer, update, fill, new_balancer, server_map, retry_scan, scan_ended, scan_starting,
  pick, receive, select_vbucket,
}
use gocb.RangeScan.Workers.{
  Worker, idle, stopped, scanning, ScanState, AllStopped, Action, retry_busy, Outcome, complete,
  create_failed, busy, classify, others_run, act, take_next, start, step_worker, step, run,
  sheds_action, sheds_worker,
}
use gocb.RangeScan.Runs.{concat, start-Inv}
use gocb.RangeScan.Verdict.{ShedFree, DealtWith, scan_of, run-Inv, finished}

-- The counter of running scans after at most `k` busy answers to a single worker.
abbrev Low : ℕ → ℕ → Type 0
Low k r = (r < 2 ^ 32) × ((r ≤ 1) ⊎ (2 ^ 32 ≤ r + k))

Low-sheds : (k r : ℕ) → Low k r → k < 2 ^ 31 - 1 → others_run (sub32 r 1) ≡ false
Low-sheds k r h lt = ground arith

Low-next : (k r : ℕ) → Low k r → Low (k + 1) (sub32 r 1)
Low-next k r (lt, inl le) = omega arith
Low-next k r (lt, inr le) = omega arith

Low-more : (k r : ℕ) → Low k r → Low (k + 1) r
Low-more k r (lt, inl le) = omega arith
Low-more k r (lt, inr le) = omega arith

Low-act :
    (k : ℕ) (st : ScanState) (i : ℕ) (v : Vbucket) (a : Action)
    → Low k st.running
    → Low (k + 1) (act st i v a).running
unfolding act
Low-act k st i v retry_busy h = Low-next k st.running h
Low-act k st i v _ h = Low-more k st.running h

Low-step :
    (k : ℕ) (is_range : Bool) (st : ScanState) (i : ℕ) (e : Outcome)
    → Low k st.running
    → Low (k + 1) (step is_range st (i, e)).running
unfolding step
Low-step k is_range st i e h = go (st.workers i)
  where
    taken : (o : Option (Vbucket × Balancer)) → Low (k + 1) (take_next st i o).running
    taken none = unfold take_next in Low-more k st.running h
    taken (some (v, b)) = unfold take_next in Low-more k st.running h

    go : (x : Worker) → Low (k + 1) (step_worker is_range st i e x).running
    go idle = unfold step_worker in taken _
    go stopped = unfold step_worker in Low-more k st.running h
    go (scanning v) = unfold step_worker in Low-act k st i v _ h

single-ShedFree :
    (k : ℕ) (is_range : Bool) (st : ScanState) (es : List (ℕ × Outcome))
    → Low k st.running
    → k + length es < 2 ^ 31
    → ShedFree is_range st es
single-ShedFree k is_range st [] h lt = tt
single-ShedFree k is_range st ((i, e) ∷ es) h lt = (
  free (st.workers i),
  single-ShedFree (k + 1) is_range (step is_range st (i, e)) es (Low-step k is_range st i e h)
      (omega arith),
)
  where
    by_action : (a : Action) → sheds_action st a ≡ false
    by_action retry_busy = Low-sheds k st.running h (omega arith)
    by_action _ = refl

    free : (x : Worker) → sheds_worker is_range st e x ≡ false
    free (scanning v) = by_action (classify is_range e)
    free idle = refl
    free stopped = refl

module _ (shuffle : List ℕ → List ℕ)
    (keeps : (xs : List ℕ) (v : ℕ) → Memᴰ v xs → Memᴰ v (shuffle xs)) (servers : List (List ℕ))
    (is_range : Bool) where
  -- If the shuffle keeps every partition, then a scan at the default concurrency of one keeps going
  -- however often servers are busy: if it stops and is not cancelled, within 2 ^ 31 - 1 steps, then
  -- it has dealt with every partition.
  pub scan_complete_single :
      (es : List (ℕ × Outcome))
      → length es < 2 ^ 31
      → AllStopped (scan_of shuffle servers is_range 1 es)
      → (scan_of shuffle servers is_range 1 es).cancelled ≡ false
      → (v : ℕ) → Memᴰ v (concat servers)
      → DealtWith (scan_of shuffle servers is_range 1 es) v
  scan_complete_single es lt stops live =
      finished
        (run-Inv is_range _ es (start-Inv shuffle keeps servers 1 (omega arith)) (omega arith)
          (single-ShedFree 0 is_range _ es (one (new_balancer shuffle (server_map 0 servers)))
            (omega arith))
          live)
        stops
    where
      one : (b : Balancer) → Low 0 (start b 1).running
      one b = unfold start in omega arith

-- One worker takes the only partition, the other finds none left and stops, and then the server
-- reports that it is busy.
abbrev losing : List (ℕ × Outcome)
losing = (0, complete) ∷ (1, complete) ∷ (0, create_failed busy) ∷ []

abbrev pub lost : Bool → ℕ → ScanState
lost is_range v = scan_of (λ xs. xs) ((v ∷ []) ∷ []) is_range 2 losing

-- A scan with two workers may stop, not cancelled and with no error, though the only partition still
-- waits and was neither scanned nor passed over: a worker that ran out of partitions is still counted
-- as running when the other stops for a busy server.
pub scan_may_lose :
    (is_range : Bool) (v : ℕ)
    → AllStopped (lost is_range v)
      × ((lost is_range v).cancelled ≡ false)
      × ((lost is_range v).balancer.channels 0 ≡ v ∷ [])
      × ¬ DealtWith (lost is_range v) v
unfolding start run step step_worker take_next act classify new_balancer fill server_map
    select_vbucket pick receive scan_starting scan_ended retry_scan update
scan_may_lose true v =
    (λ i. ground arith, refl, refl, λ d. elim d [ inl m ↦ elim m [ ] | inr m ↦ elim m [ ] ])
scan_may_lose false v =
    (λ i. ground arith, refl, refl, λ d. elim d [ inl m ↦ elim m [ ] | inr m ↦ elim m [ ] ])
