-- ===== src/RangeScan/Runs.antt =====
-- Whole scans (Scan in rangescanopmanager.go, over the map of servers that kvprovider_core.go builds):
-- what is left when every worker has stopped.
use mathlib.Core.List.{Memᴰ}
use mathlib.Core.List.Memᴰ
use gocb.Base.{
  ℕ, zero, suc, ◌+◌, ◌<◌, ◌≡◌, refl, sym, ap, subst, ◌∙◌, inl, inr, Bool, true, false, List, [],
  ◌∷◌, ◌++◌, arith, ltb, if◌then◌else◌, lt→ltb, ge→ltb, length, snoc, length-append,
}
use gocb.RangeScan.Balancer.{Vbucket, Balancer, update, fill, new_balancer, server_map}
use gocb.RangeScan.Workers.{idle, stopped, scanning, ScanState, start}
use gocb.RangeScan.Tally.{update_same, update_other, tally, busy_at}
use gocb.RangeScan.Account.{Accounted, waits, Inv}

-- The partitions of all servers.
abbrev pub concat {ℓ} : {A : Type ℓ} → List (List A) → List A
concat [] = []
concat (xs ∷ xss) = xs ++ concat xss

none_busy : (s w k : ℕ) → tally k (λ i. busy_at s (if ltb i w then idle else stopped)) ≡ 0
unfolding tally
none_busy s w zero = refl
none_busy s w (suc k) = omega (arith, part (ltb k w), none_busy s w k)
  where
    part : (b : Bool) → busy_at s (if b then idle else stopped) ≡ 0
    part true = refl
    part false = refl

module _ (shuffle : List ℕ → List ℕ) where
  fill-below :
      (from : ℕ) (rest : List (List ℕ)) (b : Balancer) (t : ℕ)
      → t < from
      → (fill shuffle (server_map from rest) b).channels t ≡ b.channels t
  unfolding fill server_map
  fill-below from [] b t lt = refl
  fill-below from (vs ∷ rest) b t lt =
      fill-below (from + 1) rest _ t (omega arith)
      ∙ update_other b.channels from t (shuffle vs) (λ p. omega arith)

  fill-servers :
      (from : ℕ) (rest : List (List ℕ)) (b : Balancer)
      → length (fill shuffle (server_map from rest) b).servers ≡ length b.servers + length rest
  unfolding fill server_map
  fill-servers from [] b = omega arith
  fill-servers from (vs ∷ rest) b = omega (
    arith,
    fill-servers (from + 1) rest (record b {
      servers = snoc b.servers from;
      channels = update b.channels from (shuffle vs);
    }),
    length-append b.servers (from ∷ []),
  )

  fill-active :
      (from : ℕ) (rest : List (List ℕ)) (b : Balancer)
      → (fill shuffle (server_map from rest) b).active ≡ b.active
  unfolding fill server_map
  fill-active from [] b = refl
  fill-active from (vs ∷ rest) b = fill-active (from + 1) rest _

  fill-holds :
      ((xs : List ℕ) (v : ℕ) → Memᴰ v xs → Memᴰ v (shuffle xs))
      → (from : ℕ) (rest : List (List ℕ)) (b : Balancer) (v : ℕ) → Memᴰ v (concat rest)
      → (t : ℕ) × (t < from + length rest)
        × Memᴰ v ((fill shuffle (server_map from rest) b).channels t)
  unfolding fill server_map
  fill-holds keeps from [] b v m = elim m [ ]
  fill-holds keeps from (vs ∷ rest) b v m = elim (Memᴰ.append_cases vs m) [
    | inl m' ↦ (
      from,
      omega arith,
      subst (Memᴰ v)
          (sym (
            fill-below (from + 1) rest _ from (omega arith)
            ∙ update_same b.channels from (shuffle vs)))
          (keeps vs v m'),
    )
    | inr m' ↦ let (t, lt, h) = fill-holds keeps (from + 1) rest _ v m' in (t, omega arith, h)
  ]

  -- A scan of some workers begins with every partition waiting.
  pub start-Inv :
      ((xs : List ℕ) (v : ℕ) → Memᴰ v xs → Memᴰ v (shuffle xs))
      → (servers : List (List ℕ)) (w : ℕ) → 0 < w
      → Inv
          (length servers)
          w
          (concat servers)
          (start (new_balancer shuffle (server_map 0 servers)) w)
  unfolding start new_balancer
  start-Inv keeps servers w pos = record {
    live = refl;
    same_servers = fill-servers 0 servers _ ∙ (omega arith);
    counts = λ s. ap (λ (f : ℕ → ℕ). f s) (fill-active 0 servers _) ∙ sym (none_busy s w w);
    outside = λ i le. rw (ge→ltb i w le) refl;
    placed = λ i vb e. absurd (not_scanning (ltb i w) vb e);
    accounted = λ v m. held v (fill-holds keeps 0 servers _ v m);
    over = λ stops. absurd (idle_first (ltb 0 w) (lt→ltb 0 w pos) (stops 0));
  }
    where
      st : ScanState
      st = start (new_balancer shuffle (server_map 0 servers)) w

      not_scanning : (b : Bool) (vb : Vbucket) → (if b then idle else stopped) ≡ scanning vb → ⊥
      not_scanning true vb p = cc
      not_scanning false vb p = cc

      idle_first : (b : Bool) → b ≡ true → (if b then idle else stopped) ≡ stopped → ⊥
      idle_first true e p = cc
      idle_first false e p = cc

      held :
          (v : ℕ)
          → (t : ℕ) × (t < 0 + length servers)
            × Memᴰ v (
                (fill shuffle
                    (server_map 0 servers)
                    (record { servers = []; channels = λ s. []; active = λ s. 0 })).channels
                  t)
          → Accounted (length servers) st v
      held v (t, lt, m) = unfold start new_balancer in waits t (omega arith) m
