-- ===== src/RangeScan/Account.antt =====
-- Where each partition of a scan is: it waits, a worker scans it, or it has been dealt with
-- (Scan in rangescanopmanager.go).
use mathlib.Core.List.{Memᴰ}
use gocb.Base.{
  ℕ, ◌+◌, ◌≤◌, ◌<◌, ◌≡◌, sym, ap, ◌∙◌, ◌≢◌, ◌⊎◌, inl, inr, false, List, arith, ltb, ◌==◌, ltb→lt,
  ltb→ge, ==_iff, Bool-cases, length,
}
use gocb.RangeScan.Balancer.{Vbucket, update}
use gocb.RangeScan.Least.{NothingBelow, FewActive}
use gocb.RangeScan.Workers.{Worker, stopped, scanning, ScanState, AllStopped}
use gocb.RangeScan.Tally.{
  update_same, update_other, tally, tally_ext, tally-update, tally-le, busy_at, busy_at-le,
}

pub data Accounted (n : ℕ) (st : ScanState) (v : ℕ) : Type 0 where
  waits : (t : ℕ) → t < n → Memᴰ v (st.balancer.channels t) → Accounted n st v
  scans : (i : ℕ) (vb : Vbucket) → st.workers i ≡ scanning vb → vb.id ≡ v → Accounted n st v
  was_scanned : Memᴰ v st.scanned → Accounted n st v
  was_ignored : Memᴰ v st.ignored → Accounted n st v

-- A scan of `n` servers with `w` workers that is not cancelled: the balancer counts the active scans
-- of each server, no partition of `all` is lost, and nothing waits once every worker has stopped.
pub record Inv (n w : ℕ) (all : List ℕ) (st : ScanState) : Type 0 where
  pub live : st.cancelled ≡ false
  pub same_servers : length st.balancer.servers ≡ n
  pub counts : (s : ℕ) → st.balancer.active s ≡ tally w (λ i. busy_at s (st.workers i))
  pub outside : (i : ℕ) → w ≤ i → st.workers i ≡ stopped
  pub placed : (i : ℕ) (vb : Vbucket) → st.workers i ≡ scanning vb → vb.server < n
  pub accounted : (v : ℕ) → Memᴰ v all → Accounted n st v
  pub over : AllStopped st → NothingBelow st.balancer n

pub inside :
    {n w : ℕ} {all : List ℕ} {st : ScanState} (i : ℕ)
    → Inv n w all st
    → st.workers i ≢ stopped
    → i < w
inside {w} i inv ne = elim (Bool-cases (ltb i w)) [
  | inl e ↦ ltb→lt i w e
  | inr e ↦ absurd (ne (inv.outside i (ltb→ge i w e)))
]

pub Inv-FewActive :
    {n w : ℕ} {all : List ℕ} {st : ScanState} → Inv n w all st → w ≤ 65535 → FewActive st.balancer
Inv-FewActive {w} {st} inv le s = omega (
  arith,
  inv.counts s,
  tally-le w (λ i. busy_at s (st.workers i)) (λ i. busy_at-le s (st.workers i)),
)

-- What a step of worker `i` to `x` has to keep.
pub record Keeps (n i : ℕ) (x : Worker) (st st' : ScanState) : Type 0 where
  pub live : st'.cancelled ≡ false
  pub moves : (j : ℕ) → st'.workers j ≡ update st.workers i x j
  pub same_servers : st'.balancer.servers ≡ st.balancer.servers
  pub active :
      (s : ℕ)
      → st'.balancer.active s + busy_at s (st.workers i) ≡ st.balancer.active s + busy_at s x
  pub placed : (vb : Vbucket) → x ≡ scanning vb → vb.server < n
  pub accounted : (v : ℕ) → Accounted n st v → Accounted n st' v
  pub over : AllStopped st' → NothingBelow st'.balancer n

worker_cases :
    {A : Type 0} (f : ℕ → A) (i j : ℕ) (x y : A)
    → update f i x j ≡ y
    → ((i ≡ j) × (x ≡ y)) ⊎ (f j ≡ y)
worker_cases f i j x y e = elim (Bool-cases (i == j)) [
  | inl h ↦
      let p : i ≡ j = (==_iff i j).0 h in
      inl (p, sym (update_same f i x) ∙ (ap (update f i x) p ∙ e))
  | inr h ↦ inr (sym (update_other f i j x (λ p. ground arith)) ∙ e)
]

pub Keeps-Inv :
    {n w : ℕ} {all : List ℕ} {st st' : ScanState} (i : ℕ) (x : Worker)
    → Inv n w all st
    → i < w
    → Keeps n i x st st'
    → Inv n w all st'
Keeps-Inv {n} {w} {all} {st} {st'} i x inv lt k = record {
  live = k.live;
  same_servers = ap length k.same_servers ∙ inv.same_servers;
  counts = λ s.
      let moved : tally w (λ j. busy_at s (st'.workers j))
          ≡ tally w (λ j. busy_at s (update st.workers i x j)) =
        tally_ext w _ _ (λ j _. ap (busy_at s) (k.moves j)) in
      omega (arith, k.active s, inv.counts s, tally-update w (busy_at s) st.workers i x lt, moved);
  outside = λ j le. k.moves j ∙ update_other st.workers i j x (λ p. omega arith) ∙ inv.outside j le;
  placed = λ j vb e. elim (worker_cases st.workers i j x (scanning vb) (sym (k.moves j) ∙ e)) [
    | inl (_, q) ↦ k.placed vb q
    | inr q ↦ inv.placed j vb q
  ];
  accounted = λ v m. k.accounted v (inv.accounted v m);
  over = k.over;
}
