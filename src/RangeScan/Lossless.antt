-- ===== src/RangeScan/Lossless.antt =====
-- Scans that lose no partition, whatever the order in which the workers go on (Scan in
-- rangescanopmanager.go).
use gocb.Base.{ℕ, ◌≤◌, ◌<◌, ◌≡◌, refl, sym, subst, ◌∙◌, Bool, false, Option, List}
use gocb.RangeScan.Balancer.{Vbucket, Balancer, select_vbucket}
use gocb.RangeScan.Least.{
  NothingBelow, IsLeast, Selects, exhausted, selects, select_vbucket-Selects,
}
use gocb.RangeScan.Workers.{
  Worker, idle, stopped, scanning, ScanState, Action, done, ignore, retry, retry_busy, fatal,
  Outcome, classify, act, take_next, step_worker, step, sheds_action, sheds_worker, sheds,
}
use gocb.RangeScan.Account.{Inv, inside, Inv-FewActive, Keeps-Inv}
use gocb.RangeScan.Complete.{stop-Keeps, select-Keeps}
use gocb.RangeScan.Returns.{done-Keeps, ignore-Keeps, retry-Keeps, busy-Keeps}

module _ {n w : ℕ} {all : List ℕ} {st : ScanState} (i : ℕ) (inv : Inv n w all st)
    (le : w ≤ 65535) where
  take_next-Inv :
      st.workers i ≡ idle
      → Selects st.balancer (select_vbucket st.balancer)
      → Inv n w all (take_next st i (select_vbucket st.balancer))
  take_next-Inv e sel = go (select_vbucket st.balancer) sel
    where
      lt : i < w
      lt = inside i inv (λ p. clash (sym p ∙ e))
        where
          clash : stopped ≡ idle → ⊥
          clash p = cc

      go :
          (o : Option (Vbucket × Balancer)) → Selects st.balancer o → Inv n w all (take_next st i o)
      go _ (exhausted h) =
          Keeps-Inv i stopped inv lt
            (stop-Keeps i inv le e (subst (NothingBelow st.balancer) inv.same_servers h))
      go _ (selects s v rest h c) = Keeps-Inv i _ inv lt (
          select-Keeps i inv le s v rest e (subst (λ k. IsLeast st.balancer k s) inv.same_servers h)
            c)

  act-Inv :
      (vb : Vbucket) (a : Action)
      → st.workers i ≡ scanning vb
      → (act st i vb a).cancelled ≡ false
      → sheds_action st a ≡ false
      → Inv n w all (act st i vb a)
  act-Inv vb a e live free = go a live free
    where
      lt : i < w
      lt = inside i inv (λ p. clash (sym p ∙ e))
        where
          clash : stopped ≡ scanning vb → ⊥
          clash p = cc

      go :
          (b : Action)
          → (act st i vb b).cancelled ≡ false
          → sheds_action st b ≡ false
          → Inv n w all (act st i vb b)
      go done _ _ = Keeps-Inv i idle inv lt (done-Keeps i inv vb e le)
      go ignore _ _ = Keeps-Inv i idle inv lt (ignore-Keeps i inv vb e le)
      go retry _ _ = Keeps-Inv i idle inv lt (retry-Keeps i inv vb e le)
      go retry_busy _ f = Keeps-Inv i idle inv lt (busy-Keeps i inv vb e le f)
      go fatal l _ = clash l
        where
          clash : (act st i vb fatal).cancelled ≡ false → Inv n w all (act st i vb fatal)
          clash p = unfold act in cc

  pub step-Inv :
      (is_range : Bool) (e : Outcome)
      → (step is_range st (i, e)).cancelled ≡ false
      → sheds is_range st (i, e) ≡ false
      → Inv n w all (step is_range st (i, e))
  unfolding step
  step-Inv is_range e live free = go (st.workers i) refl live free
    where
      go :
          (x : Worker)
          → st.workers i ≡ x
          → (step_worker is_range st i e x).cancelled ≡ false
          → sheds_worker is_range st e x ≡ false
          → Inv n w all (step_worker is_range st i e x)
      go idle p l f =
          unfold step_worker in
          take_next-Inv p (select_vbucket-Selects st.balancer (Inv-FewActive inv le))
      go stopped p l f = unfold step_worker in inv
      go (scanning vb) p l f = unfold step_worker in act-Inv vb (classify is_range e) p l f
