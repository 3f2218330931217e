-- ===== src/RangeScan/Balancer.antt =====
-- The load balancer of a scan (rangeScanLoadBalancer in rangescanopmanager.go), which hands out
-- partitions, server by server. `selectLock` makes each call one step. A Go channel of partitions is
-- the list of what it holds; a server without a channel has a nil channel, whose length is 0.
use gocb.Base.{
  ℕ, zero, suc, ◌+◌, Bool, not, ◌&&◌, Option, none, some, List, [], ◌∷◌, ltb, ◌==◌, if◌then◌else◌,
  length, snoc,
}
use gocb.Go.Word.{add32, sub32}

-- rangeScanVbucket
pub record Vbucket : Type 0 where
  pub id : ℕ
  pub server : ℕ

abbrev pub vbucket : ℕ → ℕ → Vbucket
vbucket id server = record { id = id; server = server }

pub record Balancer : Type 0 where
  pub servers : List ℕ
  pub channels : ℕ → List ℕ
  pub active : ℕ → ℕ

unfoldable pub update {ℓ} : {A : Type ℓ} → (ℕ → A) → ℕ → A → ℕ → A
update f k v i = if k == i then v else f i

-- The loop of `newRangeScanLoadBalancer`; `shuffle` is `rand.Shuffle` with the scan's seed.
unfoldable pub fill : (List ℕ → List ℕ) → List (ℕ × List ℕ) → Balancer → Balancer
fill shuffle [] b = b
fill shuffle ((server, vbuckets) ∷ rest) b = fill shuffle rest (record b {
  servers = snoc b.servers server;
  channels = update b.channels server (shuffle vbuckets);
})

unfoldable pub new_balancer : (List ℕ → List ℕ) → List (ℕ × List ℕ) → Balancer
new_balancer shuffle servers =
    fill shuffle servers (record { servers = []; channels = λ s. []; active = λ s. 0 })

-- The map that `Scan` in kvprovider_core.go builds: the servers `from`, `from + 1`, … of the config.
unfoldable pub server_map : ℕ → List (List ℕ) → List (ℕ × List ℕ)
server_map from [] = []
server_map from (vbuckets ∷ rest) = (from, vbuckets) ∷ server_map (from + 1) rest

unfoldable pub retry_scan : Vbucket → Balancer → Balancer
retry_scan v b = record b {
  channels = update b.channels v.server (snoc (b.channels v.server) v.id);
}

unfoldable pub scan_ended : Vbucket → Balancer → Balancer
scan_ended v b = record b { active = update b.active v.server (sub32 (b.active v.server) 1) }

unfoldable pub scan_starting : Vbucket → Balancer → Balancer
scan_starting v b = record b { active = update b.active v.server (add32 (b.active v.server) 1) }

-- The test of one round: the server has partitions left, and fewer active scans than any so far.
abbrev pub better : Balancer → ℕ → ℕ → Bool
better b s min = not (length (b.channels s) == 0) && ltb (b.active s) min

-- The loop `for s := range b.servers`: `s` counts the places of the list, `n` of them are left.
unfoldable pub pick : Balancer → ℕ → ℕ → ℕ → Option ℕ → Option ℕ
pick b zero s min selected = selected
pick b (suc n) s min selected =
    pick b n (s + 1) (if better b s min then b.active s else min)
      (if better b s min then some s else selected)

abbrev pub max_uint32 : ℕ
max_uint32 = 4_294_967_295

unfoldable pub receive : Balancer → ℕ → List ℕ → Option (Vbucket × Balancer)
receive b s [] = none
receive b s (v ∷ rest) =
    let vb = vbucket v s in
    some (vb, scan_starting vb (record b { channels = update b.channels s rest }))

unfoldable pub select_vbucket : Balancer → Option (Vbucket × Balancer)
select_vbucket b = elim (pick b (length b.servers) 0 max_uint32 none) [
  | none ↦ none
  | some s ↦ receive b s (b.channels s)
]
