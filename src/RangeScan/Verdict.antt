-- ===== src/RangeScan/Verdict.antt =====
-- What a scan whose workers have all stopped has dealt with (Scan in
-- rangescanopmanager.go).
use mathlib.Core.List.{Memᴰ}
use gocb.Base.{
  ℕ, ◌≤◌, ◌<◌, ◌≡◌, refl, sym, subst, ◌∙◌, ◌≢◌, ◌⊎◌, inl, inr, Bool, true, false, Option, none,
  some, List, [], ◌∷◌, arith, Bool-cases, All,
}
use gocb.RangeScan.Balancer.{Vbucket, Balancer, new_balancer, server_map}
use gocb.RangeScan.Workers.{
  Worker, idle, stopped, scanning, ScanState, AllStopped, Action, fatal, Outcome, create_failed,
  busy, classify, act, take_next, start, step_worker, step, run, sheds_action, sheds_worker, sheds,
}
use gocb.RangeScan.Account.{Accounted, waits, scans, was_scanned, was_ignored, Inv}
use gocb.RangeScan.Lossless.{step-Inv}
use gocb.RangeScan.Runs.{concat, start-Inv}

-- No step of the run stops a worker on a busy server.
abbrev pub ShedFree : Bool → ScanState → List (ℕ × Outcome) → Type 0
ShedFree is_range st [] = Unit
ShedFree is_range st (e ∷ es) =
    (sheds is_range st e ≡ false) × ShedFree is_range (step is_range st e) es

act-cancelled :
    (st : ScanState) (i : ℕ) (v : Vbucket) (a : Action)
    → st.cancelled ≡ true
    → (act st i v a).cancelled ≡ true
unfolding act
act-cancelled st i v fatal e = refl
act-cancelled st i v _ e = e

step-cancelled :
    (is_range : Bool) (st : ScanState) (e : ℕ × Outcome)
    → st.cancelled ≡ true
    → (step is_range st e).cancelled ≡ true
unfolding step
step-cancelled is_range st (i, e) h = go (st.workers i)
  where
    taken : (o : Option (Vbucket × Balancer)) → (take_next st i o).cancelled ≡ true
    taken none = unfold take_next in h
    taken (some (v, b)) = unfold take_next in h

    go : (x : Worker) → (step_worker is_range st i e x).cancelled ≡ true
    go idle = unfold step_worker in taken _
    go stopped = unfold step_worker in h
    go (scanning v) = unfold step_worker in act-cancelled st i v _ h

run-cancelled :
    (is_range : Bool) (st : ScanState) (es : List (ℕ × Outcome))
    → st.cancelled ≡ true
    → (run is_range st es).cancelled ≡ true
unfolding run
run-cancelled is_range st [] h = h
run-cancelled is_range st (e ∷ es) h =
    run-cancelled is_range (step is_range st e) es (step-cancelled is_range st e h)

pub run-Inv :
    {n w : ℕ} {all : List ℕ} (is_range : Bool) (st : ScanState) (es : List (ℕ × Outcome))
    → Inv n w all st
    → w ≤ 65535
    → ShedFree is_range st es
    → (run is_range st es).cancelled ≡ false
    → Inv n w all (run is_range st es)
unfolding run
run-Inv is_range st [] inv le free live = inv
run-Inv is_range st ((i, e) ∷ es) inv le free live =
    run-Inv is_range (step is_range st (i, e)) es
      (step-Inv i inv le is_range e (still (Bool-cases (step is_range st (i, e)).cancelled)) free.0)
      le free.1 live
  where
    still :
        ((step is_range st (i, e)).cancelled ≡ true) ⊎ ((step is_range st (i, e)).cancelled ≡ false)
        → (step is_range st (i, e)).cancelled ≡ false
    still (inr p) = p
    still (inl p) = cc (sym (run-cancelled is_range (step is_range st (i, e)) es p) ∙ live)

-- The partition was scanned to its end, or passed over for an error that the scan disregards.
abbrev pub DealtWith : ScanState → ℕ → Type 0
DealtWith st v = Memᴰ v st.scanned ⊎ Memᴰ v st.ignored

pub finished :
    {n w : ℕ} {all : List ℕ} {st : ScanState}
    → Inv n w all st
    → AllStopped st
    → (v : ℕ) → Memᴰ v all
    → DealtWith st v
finished {n} {w} {all} {st} inv stops v m = go (inv.accounted v m)
  where
    go : Accounted n st v → DealtWith st v
    go (waits t lt m') = absurd (none_there (subst (Memᴰ v) (inv.over stops t lt) m'))
      where
        none_there : Memᴰ v [] → ⊥
        none_there x = elim x [ ]
    go (scans i vb e q) = absurd (clash (sym (stops i) ∙ e))
      where
        clash : stopped ≡ scanning vb → ⊥
        clash p = cc
    go (was_scanned m') = inl m'
    go (was_ignored m') = inr m'

-- A scan with `w` workers on these servers, after the events.
abbrev pub scan_of : (List ℕ → List ℕ) → List (List ℕ) → Bool → ℕ → List (ℕ × Outcome) → ScanState
scan_of shuffle servers is_range w es =
    run is_range (start (new_balancer shuffle (server_map 0 servers)) w) es

module _ (shuffle : List ℕ → List ℕ)
    (keeps : (xs : List ℕ) (v : ℕ) → Memᴰ v xs → Memᴰ v (shuffle xs)) (servers : List (List ℕ))
    (is_range : Bool) where
  not_busy-sheds :
      (st : ScanState) (i : ℕ) (e : Outcome)
      → e ≢ create_failed busy
      → sheds is_range st (i, e) ≡ false
  not_busy-sheds st i e ne = go (st.workers i)
    where
      calm :
          (o : Outcome) (b : Bool) → o ≢ create_failed busy → sheds_action st (classify b o) ≡ false
      calm o b h = unfold classify in ground arith

      go : (x : Worker) → sheds_worker is_range st e x ≡ false
      go idle = refl
      go stopped = refl
      go (scanning v) = calm e is_range ne

  not_busy-ShedFree :
      (st : ScanState) (es : List (ℕ × Outcome))
      → All (λ e. e.1 ≢ create_failed busy) es
      → ShedFree is_range st es
  not_busy-ShedFree st [] h = tt
  not_busy-ShedFree st ((i, e) ∷ es) h =
      (not_busy-sheds st i e h.0, not_busy-ShedFree (step is_range st (i, e)) es h.1)

  -- If no server reports that it is busy, and the shuffle keeps every partition, then a scan whose
  -- workers have all stopped, and which is not cancelled, has dealt with every partition, in
  -- whatever order its up to 65535 workers went on.
  pub scan_complete :
      (w : ℕ) (es : List (ℕ × Outcome))
      → 0 < w
      → w ≤ 65535
      → All (λ e. e.1 ≢ create_failed busy) es
      → AllStopped (scan_of shuffle servers is_range w es)
      → (scan_of shuffle servers is_range w es).cancelled ≡ false
      → (v : ℕ) → Memᴰ v (concat servers)
      → DealtWith (scan_of shuffle servers is_range w es) v
  scan_complete w es pos le calm stops live =
      finished
        (run-Inv is_range _ es (start-Inv shuffle keeps servers w pos) le
          (not_busy-ShedFree _ es calm) live)
        stops
