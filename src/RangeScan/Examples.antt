-- ===== src/RangeScan/Examples.antt =====
-- Concrete range scans (rangescanopmanager.go).
use mathlib.Core.List.{Memᴰ}
use gocb.Base.{
  ℕ, ◌+◌, String, ◌≡◌, refl, ◌≢◌, ◌↔◌, ◌⊎◌, inl, inr, Bool, true, false, none, some, List, [], ◌∷◌,
  ◌++◌, arith, str_eq, ◌==◌, if◌then◌else◌, length, take, All,
}
use gocb.RangeScan.Items.{
  ScanResult, take_item, from_channel, next_peeked, next, next_items, up_to_limit, next_items-take,
}
use gocb.RangeScan.Tokens.{Token, Requirement, find, put, add_token, merge_tokens}
use gocb.RangeScan.Snapshot.{Asks, merge_tokens-covers}
use gocb.RangeScan.Conflicts.{Conflict, From, merge_tokens-refuses}
use gocb.RangeScan.Balancer.{
  Balancer, update, fill, new_balancer, server_map, retry_scan, scan_ended, scan_starting, pick,
  receive, select_vbucket,
}
use gocb.RangeScan.Least.{Selects, select_vbucket-Selects}
use gocb.RangeScan.Workers.{
  AllStopped, Outcome, complete, create_failed, temporary_failure, busy, classify, act, take_next,
  start, step_worker, step, run,
}
use gocb.RangeScan.Verdict.{DealtWith, scan_of, scan_complete}
use gocb.RangeScan.Busy.{lost, scan_may_lose}
use gocb.RangeScan.Partition.{
  RangeConfig, Create, created, batch, lost as moved, ok, continue_loop, resume, scan_partition,
}
use gocb.RangeScan.Resume.{repeats}
use gocb.RangeScan.Covers.{Server, none_yet, Obeys, scan_partition-covers}

abbrev token : ℕ → ℕ → Token
token vb seq = record { bucket_name = "travel"; vb_id = vb; vb_uuid = 77; seq_no = seq }

abbrev some_tokens : List Token
some_tokens = token 3 10 ∷ token 4 20 ∷ token 3 12 ∷ []

abbrev merged : List (ℕ × Requirement)
merged = (3, record { uuid = 77; seqno = 12 }) ∷ (4, record { uuid = 77; seqno = 20 }) ∷ []

some_tokens-merged : merge_tokens some_tokens [] ≡ some merged
unfolding merge_tokens add_token find put
some_tokens-merged = refl

merge_tokens-covers_example : Asks merged 3 77 10
merge_tokens-covers_example =
    merge_tokens-covers some_tokens [] merged some_tokens-merged (token 3 10) (Memᴰ.head refl)

merge_tokens-refuses_example :
    ((merge_tokens some_tokens [] ≡ none) ↔ Conflict some_tokens)
    × ((m : List (ℕ × Requirement)) → merge_tokens some_tokens [] ≡ some m → From some_tokens m)
merge_tokens-refuses_example = merge_tokens-refuses some_tokens

-- Two servers with a partition each, the first of which is scanned already.
abbrev half_busy : Balancer
half_busy = record {
  servers = 0 ∷ 1 ∷ [];
  channels = λ s. s ∷ [];
  active = λ s. if s == 0 then 1 else 0;
}

select_vbucket-Selects_example : Selects half_busy (select_vbucket half_busy)
select_vbucket-Selects_example = select_vbucket-Selects half_busy (λ t. ground arith)

abbrev two_servers : List (List ℕ)
two_servers = (5 ∷ 6 ∷ []) ∷ (7 ∷ []) ∷ []

-- Two workers; the second one's first attempt meets a temporary failure.
abbrev two_workers : List (ℕ × Outcome)
two_workers =
    (0, complete)
    ∷ (1, complete)
    ∷ (1, create_failed temporary_failure)
    ∷ (0, complete)
    ∷ (0, complete)
    ∷ (0, complete)
    ∷ (1, complete)
    ∷ (1, complete)
    ∷ (0, complete)
    ∷ (1, complete)
    ∷ []

two_workers-AllStopped : AllStopped (scan_of (λ xs. xs) two_servers true 2 two_workers)
unfolding start run step step_worker take_next act classify new_balancer fill server_map
    select_vbucket pick receive scan_starting scan_ended retry_scan update
two_workers-AllStopped = λ i. ground arith

two_workers_live : (scan_of (λ xs. xs) two_servers true 2 two_workers).cancelled ≡ false
unfolding start run step step_worker take_next act classify new_balancer fill server_map
    select_vbucket pick receive scan_starting scan_ended retry_scan update
two_workers_live = refl

calm_events : All (λ e. e.1 ≢ create_failed busy) two_workers
calm_events = ground arith

scan_complete_example : DealtWith (scan_of (λ xs. xs) two_servers true 2 two_workers) 6
scan_complete_example =
    scan_complete (λ xs. xs) (λ xs v m. m) two_servers true 2 two_workers (omega arith)
      (omega arith) calm_events two_workers-AllStopped two_workers_live 6
      (Memᴰ.tail (Memᴰ.head refl))

-- One worker, and a server that is busy once.
abbrev one_worker : List (ℕ × Outcome)
one_worker =
    (0, complete) ∷ (0, create_failed busy) ∷ (0, complete) ∷ (0, complete) ∷ (0, complete) ∷ []

one_worker-AllStopped : AllStopped (scan_of (λ xs. xs) ((5 ∷ []) ∷ []) true 1 one_worker)
unfolding start run step step_worker take_next act classify new_balancer fill server_map
    select_vbucket pick receive scan_starting scan_ended retry_scan update
one_worker-AllStopped = λ i. ground arith

one_worker_live : (scan_of (λ xs. xs) ((5 ∷ []) ∷ []) true 1 one_worker).cancelled ≡ false
unfolding start run step step_worker take_next act classify new_balancer fill server_map
    select_vbucket pick receive scan_starting scan_ended retry_scan update
one_worker_live = refl

scan_may_lose_example :
    AllStopped (lost true 5)
    × ((lost true 5).cancelled ≡ false)
    × ((lost true 5).balancer.channels 0 ≡ 5 ∷ [])
    × ¬ DealtWith (lost true 5) 5
scan_may_lose_example = scan_may_lose true 5

-- A server with the keys a and b.
abbrev keys_after : Bool → List String
keys_after true = "b" ∷ []
keys_after false = "a" ∷ "b" ∷ []

abbrev keys_of : RangeConfig → List String
keys_of c = keys_after (str_eq c.start_term "b")

at_key :
    (xs pre : List String) (k : String) (post : List String)
    → (xs ≡ "b" ∷ []) ⊎ (xs ≡ "a" ∷ "b" ∷ [])
    → xs ≡ pre ++ k ∷ post
    → ((k ≡ "a") × (post ≡ "b" ∷ [])) ⊎ ((k ≡ "b") × (post ≡ []))
at_key xs [] k post (inl e) h = inr (cc, cc)
at_key xs (x ∷ []) k post (inl e) h = cc
at_key xs (x ∷ y ∷ pre) k post (inl e) h = cc
at_key xs [] k post (inr e) h = inl (cc, cc)
at_key xs (x ∷ []) k post (inr e) h = inr (cc, cc)
at_key xs (x ∷ y ∷ []) k post (inr e) h = cc
at_key xs (x ∷ y ∷ z ∷ pre) k post (inr e) h = cc

keys_cases : (b : Bool) → (keys_after b ≡ "b" ∷ []) ⊎ (keys_after b ≡ "a" ∷ "b" ∷ [])
keys_cases true = inl refl
keys_cases false = inr refl

abbrev a_server : Server
a_server = record {
  keys = keys_of;
  keys_from = λ c pre k post e.
      elim (at_key (keys_of c) pre k post (keys_cases (str_eq c.start_term "b")) e) [
        | inl p ↦ rw (p.0, p.1) refl
        | inr p ↦ rw (p.0, p.1) refl
      ];
  nonempty = λ c pre k post e.
      elim (at_key (keys_of c) pre k post (keys_cases (str_eq c.start_term "b")) e) [
        | inl p ↦ rw (p.0) refl
        | inr p ↦ rw (p.0) refl
      ];
}

abbrev whole_range : RangeConfig
whole_range = record { start_term = ""; exclusive_start = ""; end_term = ""; exclusive_end = "z" }

-- The partition moves after the first key.
abbrev interrupted : List Create
interrupted =
    created (batch ("a" ∷ []) false ∷ moved false ∷ [])
    ∷ created (batch ("a" ∷ "b" ∷ []) true ∷ [])
    ∷ []

interrupted-Obeys : Obeys a_server whole_range none_yet interrupted
unfolding continue_loop resume
interrupted-Obeys = (("b" ∷ [], refl, (λ p. cc), refl), (([], refl, (λ p. refl), tt), tt))

interrupted_ok : (scan_partition (some whole_range) none_yet interrupted).1 ≡ ok
unfolding scan_partition continue_loop resume
interrupted_ok = refl

scan_partition-covers_example :
    ((k : String)
      → Memᴰ k (keys_of whole_range)
      → Memᴰ k (scan_partition (some whole_range) none_yet interrupted).0.delivered)
    × (length (scan_partition (some whole_range) none_yet interrupted).0.delivered
        ≡ length (keys_of whole_range) + repeats (some whole_range) none_yet interrupted)
scan_partition-covers_example =
    scan_partition-covers a_server whole_range interrupted interrupted-Obeys interrupted_ok

-- A sampling scan for two items, the first of which was peeked at.
abbrev a_sample : ScanResult ℕ
a_sample = record {
  channel = 5 ∷ 6 ∷ 7 ∷ [];
  limit = 2;
  num_items = 0;
  peeked = some 4;
  cancelled = 0;
}

next_items_test : next_items 4 a_sample ≡ 4 ∷ 5 ∷ []
unfolding next_items next next_peeked from_channel take_item
next_items_test = refl

next_items-take_example : next_items 4 a_sample ≡ take 4 (up_to_limit 2 0 (4 ∷ 5 ∷ 6 ∷ 7 ∷ []))
next_items-take_example = next_items-take 4 a_sample (inr (inr (omega arith))) (omega arith)
