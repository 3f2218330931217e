-- ===== src/RangeScan/Returns.antt =====
-- No partition is lost when a worker is done with one (Scan in rangescanopmanager.go).
use mathlib.Core.List.{Memᴰ}
use mathlib.Core.List.Memᴰ
use gocb.Base.{
  ℕ, ◌+◌, ◌≤◌, ◌<◌, ◌≡◌, refl, sym, ap, subst, ◌∙◌, ◌⊎◌, inl, inr, false, List, [], ◌∷◌, arith,
  ◌==◌, if◌then◌else◌, ==_iff, Bool-cases, snoc,
}
use gocb.Go.Word.{sub32}
use gocb.RangeScan.Balancer.{Vbucket, update, retry_scan, scan_ended, max_uint32}
use gocb.RangeScan.Least.{NothingBelow}
use gocb.RangeScan.Workers.{
  Worker, idle, stopped, scanning, ScanState, AllStopped, done, ignore, retry, retry_busy,
  others_run, act,
}
use gocb.RangeScan.Tally.{update_same, update_other, tally_ge, busy_at}
use gocb.RangeScan.Account.{
  Accounted, waits, scans, was_scanned, was_ignored, Inv, inside, Inv-FewActive, Keeps,
}

-- The three actions that leave the worker idle, and the one that may stop it.
module _ {n w : ℕ} {all : List ℕ} {st : ScanState} (i : ℕ) (inv : Inv n w all st) (vb : Vbucket)
    (e : st.workers i ≡ scanning vb) where
  lt : i < w
  lt = inside i inv (λ p. not_both (sym p ∙ e))
    where
      not_both : stopped ≡ scanning vb → ⊥
      not_both p = cc

  counted : 0 < st.balancer.active vb.server
  counted =
      let own : busy_at vb.server (st.workers i) ≡ 1 = ap (busy_at vb.server) e ∙ one in
      omega
        (arith, inv.counts vb.server, tally_ge w (λ j. busy_at vb.server (st.workers j)) i lt, own)
    where
      one : busy_at vb.server (scanning vb) ≡ 1
      one = ground (arith, (==_iff vb.server vb.server).1 refl)

  bounded : w ≤ 65535 → st.balancer.active vb.server < max_uint32
  bounded le = Inv-FewActive inv le vb.server

  less :
      (x : Worker)
      → ((t : ℕ) → busy_at t x ≡ 0)
      → w ≤ 65535
      → (t : ℕ)
      → update st.balancer.active vb.server (sub32 (st.balancer.active vb.server) 1) t
          + busy_at t (st.workers i)
        ≡ st.balancer.active t + busy_at t x
  less x z le t = rw (e, z t) (unfold update in ground (arith, counted, bounded le))

  -- A partition that another worker scans is still scanned; the worker's own is `vb`.
  own_or_other :
      (x : Worker) (f : ℕ → Worker) (v j : ℕ) (other : Vbucket)
      → ((k : ℕ) → f k ≡ update st.workers i x k)
      → st.workers j ≡ scanning other
      → other.id ≡ v
      → (vb.id ≡ v) ⊎ (f j ≡ scanning other)
  own_or_other x f v j other h q r = elim (Bool-cases (i == j)) [
    | inl p ↦
        let same : scanning vb ≡ scanning other = sym e ∙ ap st.workers ((==_iff i j).0 p) ∙ q in
        let q' : vb ≡ other = cc same in inl (ap (λ (b : Vbucket). b.id) q' ∙ r)
    | inr p ↦ inr (h j ∙ update_other st.workers i j x (λ z. ground arith) ∙ q)
  ]

  idle_over :
      (st' : ScanState)
      → ((j : ℕ) → st'.workers j ≡ update st.workers i idle j)
      → AllStopped st'
      → NothingBelow st'.balancer n
  idle_over st' h stops = absurd (clash (sym (update_same st.workers i idle) ∙ sym (h i) ∙ stops i))
    where
      clash : idle ≡ stopped → ⊥
      clash p = cc

  pub done-Keeps : w ≤ 65535 → Keeps n i idle st (act st i vb done)
  unfolding act scan_ended
  done-Keeps le = record {
    live = inv.live;
    moves = λ j. refl;
    same_servers = refl;
    active = less idle (λ t. refl) le;
    placed = λ vb' q. cc;
    accounted = keep;
    over = idle_over (act st i vb done) (λ j. refl);
  }
    where
      keep : (v : ℕ) → Accounted n st v → Accounted n (act st i vb done) v
      keep v (waits t l m) = waits t l m
      keep v (was_scanned m) = was_scanned (Memᴰ.tail m)
      keep v (was_ignored m) = was_ignored m
      keep v (scans j other q r) =
          elim (own_or_other idle (update st.workers i idle) v j other (λ k. refl) q r) [
            | inl p ↦ was_scanned (Memᴰ.head (sym p))
            | inr q' ↦ scans j other q' r
          ]

  pub ignore-Keeps : w ≤ 65535 → Keeps n i idle st (act st i vb ignore)
  unfolding act scan_ended
  ignore-Keeps le = record {
    live = inv.live;
    moves = λ j. refl;
    same_servers = refl;
    active = less idle (λ t. refl) le;
    placed = λ vb' q. cc;
    accounted = keep;
    over = idle_over (act st i vb ignore) (λ j. refl);
  }
    where
      keep : (v : ℕ) → Accounted n st v → Accounted n (act st i vb ignore) v
      keep v (waits t l m) = waits t l m
      keep v (was_scanned m) = was_scanned m
      keep v (was_ignored m) = was_ignored (Memᴰ.tail m)
      keep v (scans j other q r) =
          elim (own_or_other idle (update st.workers i idle) v j other (λ k. refl) q r) [
            | inl p ↦ was_ignored (Memᴰ.head (sym p))
            | inr q' ↦ scans j other q' r
          ]

  -- A partition that is put back waits at the end of its server's channel.
  put_back :
      (st' : ScanState)
      → ((t : ℕ)
          → st'.balancer.channels t
            ≡ update st.balancer.channels vb.server (snoc (st.balancer.channels vb.server) vb.id) t)
      → ((k : ℕ) → st'.workers k ≡ update st.workers i idle k)
      → st'.scanned ≡ st.scanned
      → st'.ignored ≡ st.ignored
      → (v : ℕ) → Accounted n st v
      → Accounted n st' v
  put_back st' ch wk sc ig v a = go a
    where
      channel_same : st'.balancer.channels vb.server ≡ snoc (st.balancer.channels vb.server) vb.id
      channel_same = ch vb.server ∙ update_same st.balancer.channels vb.server _

      go : Accounted n st v → Accounted n st' v
      go (waits t l m) = elim (Bool-cases (vb.server == t)) [
        | inl p ↦
            let q : vb.server ≡ t = (==_iff _ _).0 p in
            waits vb.server (inv.placed i vb e) (
              subst (Memᴰ v) (sym channel_same) (
                Memᴰ.append_left (vb.id ∷ [])
                  (subst (λ s. Memᴰ v (st.balancer.channels s)) (sym q) m)))
        | inr p ↦ waits t l (
            subst (Memᴰ v)
              (sym (ch t ∙ update_other st.balancer.channels vb.server t _ (λ z. ground arith))) m)
      ]
      go (was_scanned m) = was_scanned (subst (Memᴰ v) (sym sc) m)
      go (was_ignored m) = was_ignored (subst (Memᴰ v) (sym ig) m)
      go (scans j other q r) = elim (own_or_other idle st'.workers v j other wk q r) [
        | inl p ↦ waits vb.server (inv.placed i vb e) (
            subst (Memᴰ v) (sym channel_same)
              (Memᴰ.append_right (st.balancer.channels vb.server) (Memᴰ.head (sym p))))
        | inr q' ↦ scans j other q' r
      ]

  pub retry-Keeps : w ≤ 65535 → Keeps n i idle st (act st i vb retry)
  unfolding act scan_ended retry_scan
  retry-Keeps le = record {
    live = inv.live;
    moves = λ j. refl;
    same_servers = refl;
    active = less idle (λ t. refl) le;
    placed = λ vb' q. cc;
    accounted = put_back (act st i vb retry) (λ t. refl) (λ k. refl) refl refl;
    over = idle_over (act st i vb retry) (λ j. refl);
  }

  pub busy-Keeps :
      w ≤ 65535
      → others_run (sub32 st.running 1) ≡ false
      → Keeps n i idle st (act st i vb retry_busy)
  unfolding act scan_ended retry_scan
  busy-Keeps le stays = record {
    live = inv.live;
    moves = moved;
    same_servers = refl;
    active = less idle (λ t. refl) le;
    placed = λ vb' q. cc;
    accounted = put_back (act st i vb retry_busy) (λ t. refl) moved refl refl;
    over = idle_over (act st i vb retry_busy) moved;
  }
    where
      moved : (j : ℕ) → (act st i vb retry_busy).workers j ≡ update st.workers i idle j
      moved j = ap (λ b. update st.workers i (if b then stopped else idle) j) stays
