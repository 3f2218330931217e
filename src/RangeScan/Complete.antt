-- ===== src/RangeScan/Complete.antt =====
-- No partition is lost by a step of a worker (Scan in rangescanopmanager.go).
use mathlib.Core.List.{Memᴰ}
use mathlib.Core.List.Memᴰ
use gocb.Base.{
  ℕ, ◌+◌, ◌≤◌, ◌<◌, ◌≡◌, refl, sym, ap, subst, ◌∙◌, ◌≢◌, ◌⊎◌, inl, inr, none, some, List, ◌∷◌,
  arith, if◌then◌else◌,
}
use gocb.Go.Word.{add32}
use gocb.RangeScan.Balancer.{Vbucket, vbucket, update, scan_starting}
use gocb.RangeScan.Least.{NothingBelow, FewActive, IsLeast}
use gocb.RangeScan.Workers.{Worker, idle, stopped, scanning, ScanState, take_next}
use gocb.RangeScan.Tally.{update_same, update_other, busy_at}
use gocb.RangeScan.Account.{
  Accounted, waits, scans, was_scanned, was_ignored, Inv, Inv-FewActive, Keeps,
}

module _ {n w : ℕ} {all : List ℕ} {st : ScanState} (i : ℕ) (inv : Inv n w all st)
    (le : w ≤ 65535) where
  not_stopped :
      {x : Worker} (y : Worker) → st.workers i ≡ x → x ≢ y → (j : ℕ) → st.workers j ≡ y → i ≢ j
  not_stopped y e ne j e' p = ne (sym e ∙ ap st.workers p ∙ e')

  still_scans :
      (x y : Worker) (f : ℕ → Worker) (vb : Vbucket) (j : ℕ)
      → st.workers i ≡ y
      → y ≢ scanning vb
      → ((k : ℕ) → f k ≡ update st.workers i x k)
      → st.workers j ≡ scanning vb
      → f j ≡ scanning vb
  still_scans x y f vb j e ne h q =
      h j ∙ update_other st.workers i j x (not_stopped (scanning vb) e ne j q) ∙ q

  -- A worker that moves to a state other than stopped keeps the scan going.
  going :
      (x : Worker) (f : ℕ → Worker)
      → ((j : ℕ) → f j ≡ update st.workers i x j)
      → x ≢ stopped
      → ((j : ℕ) → f j ≡ stopped)
      → ⊥
  going x f h ne all_stopped = ne (sym (update_same st.workers i x) ∙ sym (h i) ∙ all_stopped i)

  pub stop-Keeps :
      st.workers i ≡ idle → NothingBelow st.balancer n → Keeps n i stopped st (take_next st i none)
  unfolding take_next
  stop-Keeps e none_left = record {
    live = inv.live;
    moves = λ j. refl;
    same_servers = refl;
    active = λ s. rw e refl;
    placed = λ vb q. cc;
    accounted = λ v. keep v;
    over = λ _. none_left;
  }
    where
      keep : (v : ℕ) → Accounted n st v → Accounted n (take_next st i none) v
      keep v (waits t lt m) = waits t lt m
      keep v (scans j vb q r) =
          scans j vb
            (still_scans stopped idle (update st.workers i stopped) vb j e (λ p. cc) (λ k. refl) q)
            r
      keep v (was_scanned m) = was_scanned m
      keep v (was_ignored m) = was_ignored m

  pub select-Keeps :
      (s v : ℕ) (rest : List ℕ)
      → st.workers i ≡ idle
      → IsLeast st.balancer n s
      → st.balancer.channels s ≡ v ∷ rest
      → let vb : Vbucket = vbucket v s in
        Keeps n i (scanning vb) st (
          take_next st i (
            some (
              vb,
              scan_starting vb
                  (record st.balancer { channels = update st.balancer.channels s rest }),
            )))
  unfolding take_next scan_starting
  select-Keeps s v rest e h c = record {
    live = inv.live;
    moves = λ j. rw inv.live refl;
    same_servers = refl;
    active = more;
    placed = λ vb q. ground (arith, h.within);
    accounted = keep;
    over =
        λ stops. absurd (going (scanning (vbucket v s)) _ (λ j. rw inv.live refl) (λ q. cc) stops);
  }
    where
      few : FewActive st.balancer
      few = Inv-FewActive inv le

      more :
          (t : ℕ)
          → update st.balancer.active s (add32 (st.balancer.active s) 1) t
              + busy_at t (st.workers i)
            ≡ st.balancer.active t + busy_at t (scanning (vbucket v s))
      more t = rw e (unfold update in ground (arith, few s))

      next : ScanState
      next = take_next st i (
          some (
            vbucket v s,
            scan_starting (vbucket v s)
                (record st.balancer { channels = update st.balancer.channels s rest }),
          ))

      popped :
          (u t : ℕ)
          → t < n
          → Memᴰ u (st.balancer.channels t)
          → (s ≡ t) ⊎ (s ≢ t)
          → Accounted n next u
      popped u t lt m (inr ne) =
          waits t lt (subst (Memᴰ u) (sym (update_other st.balancer.channels s t rest ne)) m)
      popped u t lt m (inl p) =
          elim (Memᴰ.cases_cons (subst (Memᴰ u) (sym (ap st.balancer.channels p) ∙ c) m)) [
            | inl q ↦
                scans i (vbucket v s)
                  (ap (λ b. update st.workers i (if b then stopped else scanning (vbucket v s)) i)
                      inv.live
                    ∙ update_same st.workers i _)
                  (sym q)
            | inr m' ↦
                waits s h.within (subst (Memᴰ u) (sym (update_same st.balancer.channels s rest)) m')
          ]

      eq_or : (a b : ℕ) → (a ≡ b) ⊎ (a ≢ b)
      eq_or a b = omega arith

      keep : (u : ℕ) → Accounted n st u → Accounted n next u
      keep u (waits t lt m) = popped u t lt m (eq_or s t)
      keep u (scans j vb q r) =
          scans j vb
            (still_scans (scanning (vbucket v s)) idle next.workers vb j e (λ p. cc)
              (λ k. rw inv.live refl) q)
            r
      keep u (was_scanned m) = was_scanned m
      keep u (was_ignored m) = was_ignored m
