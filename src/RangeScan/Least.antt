-- ===== src/RangeScan/Least.antt =====
-- Which partition the load balancer hands out (selectVbucket in rangescanopmanager.go).
use native.Mathlib.Nat.{add-zero}
use gocb.Base.{
  ℕ, zero, suc, ◌+◌, ◌≤◌, ◌<◌, ◌≡◌, refl, ◌∙◌, ◌≢◌, ◌⊎◌, inl, inr, true, false, Option, none, some,
  List, [], ◌∷◌, arith, ltb, ◌==◌, if◌then◌else◌, ltb→lt, lt→ltb, ltb→ge, Bool-cases, length,
}
use gocb.RangeScan.Balancer.{
  Vbucket, vbucket, Balancer, update, scan_starting, better, pick, max_uint32, receive,
  select_vbucket,
}

-- Nothing waits at the servers below `n`.
abbrev pub NothingBelow : Balancer → ℕ → Type 0
NothingBelow b n = (t : ℕ) → t < n → b.channels t ≡ []

-- `s` has partitions, and of the servers below `n` that have any none has fewer active scans.
pub record IsLeast (b : Balancer) (n s : ℕ) : Type 0 where
  pub within : s < n
  pub waiting : b.channels s ≢ []
  pub least : (t : ℕ) → t < n → b.channels t ≢ [] → b.active s ≤ b.active t

-- What the loop has found after the servers below `n`.
pub data Picked (b : Balancer) (n : ℕ) : ℕ → Option ℕ → Type 0 where
  picked_none : NothingBelow b n → Picked b n max_uint32 none
  picked_some : (s : ℕ) → IsLeast b n s → Picked b n (b.active s) (some s)

-- No server has as many active scans as a uint32 can count.
abbrev pub FewActive : Balancer → Type 0
FewActive b = (t : ℕ) → b.active t < max_uint32

empty_or {ℓ} : {A : Type ℓ} (xs : List A) → (xs ≡ []) ⊎ (xs ≢ [])
empty_or [] = inl refl
empty_or (x ∷ xs) = inr (λ e. cc)

lt-suc-cases : (t n : ℕ) → t < n + 1 → (t < n) ⊎ (t ≡ n)
lt-suc-cases t n h = omega arith

skipped :
    (b : Balancer) (n min : ℕ) (sel : Option ℕ)
    → b.channels n ≡ []
    → Picked b n min sel
    → Picked b (n + 1) min sel
skipped b n min sel e (picked_none h) =
    picked_none λ t lt. elim (lt-suc-cases t n lt) [ inl l ↦ h t l | inr q ↦ rw q e ]
skipped b n min sel e (picked_some s h) = picked_some s (record {
  within = omega (arith, h.within);
  waiting = h.waiting;
  least = λ t lt ne. elim (lt-suc-cases t n lt) [
    | inl l ↦ h.least t l ne
    | inr q ↦ absurd (ne (rw q e))
  ];
})

abbrev next_min : Balancer → ℕ → ℕ → ℕ
next_min b n min = if better b n min then b.active n else min

abbrev next_sel : Balancer → ℕ → ℕ → Option ℕ → Option ℕ
next_sel b n min sel = if better b n min then some n else sel

Picked-round :
    (b : Balancer) (n min : ℕ) (sel : Option ℕ)
    → FewActive b
    → Picked b n min sel
    → Picked b (n + 1) (next_min b n min) (next_sel b n min sel)
Picked-round b n min sel few p = elim (empty_or (b.channels n)) [
  | inl e ↦ rw (not_better e) (skipped b n min sel e p)
  | inr ne ↦ nonempty ne min sel p
]
  where
    not_better : b.channels n ≡ [] → better b n min ≡ false
    not_better e = ground arith

    test : (m : ℕ) → b.channels n ≢ [] → better b n m ≡ ltb (b.active n) m
    test m ne = ground (arith, nonzero (b.channels n) ne)
      where
        nonzero : (xs : List ℕ) → xs ≢ [] → (length xs == 0) ≡ false
        nonzero [] h = absurd (h refl)
        nonzero (x ∷ xs) h = ground arith

    nonempty :
        b.channels n ≢ []
        → (m : ℕ) (o : Option ℕ) → Picked b n m o
        → Picked b (n + 1) (next_min b n m) (next_sel b n m o)
    nonempty ne m o (picked_none h) =
        let e : better b n max_uint32 ≡ true = test max_uint32 ne ∙ lt→ltb _ _ (few n) in
        rw e (
          picked_some n (record {
            within = omega arith;
            waiting = ne;
            least = λ t lt ne'. elim (lt-suc-cases t n lt) [
              | inl l ↦ absurd (ne' (h t l))
              | inr q ↦ rw q (omega arith)
            ];
          }))
    nonempty ne m o (picked_some s h) = elim (Bool-cases (ltb (b.active n) (b.active s))) [
      | inl e ↦
          let lt : b.active n < b.active s = ltb→lt _ _ e in
          rw (test (b.active s) ne ∙ e) (
            picked_some n (record {
              within = omega arith;
              waiting = ne;
              least = λ t l ne'. elim (lt-suc-cases t n l) [
                | inl l' ↦ omega (arith, h.least t l' ne')
                | inr q ↦ rw q (omega arith)
              ];
            }))
      | inr e ↦
          let ge : b.active s ≤ b.active n = ltb→ge _ _ e in
          rw (test (b.active s) ne ∙ e) (
            picked_some s (record {
              within = omega (arith, h.within);
              waiting = h.waiting;
              least = λ t l ne'. elim (lt-suc-cases t n l) [
                | inl l' ↦ h.least t l' ne'
                | inr q ↦ rw q ge
              ];
            }))
    ]

abbrev Found : Balancer → ℕ → Option ℕ → Type 0
Found b n none = NothingBelow b n
Found b n (some s) = IsLeast b n s

Picked-Found : (b : Balancer) (n min : ℕ) (sel : Option ℕ) → Picked b n min sel → Found b n sel
Picked-Found b n min sel (picked_none h) = h
Picked-Found b n min sel (picked_some s h) = h

pick-Found :
    (b : Balancer) (k n min : ℕ) (sel : Option ℕ)
    → FewActive b
    → Picked b n min sel
    → Found b (k + n) (pick b k n min sel)
unfolding pick
pick-Found b zero n min sel few p =
    let e : zero + n ≡ n = omega arith in rw e (Picked-Found b n min sel p)
pick-Found b (suc k) n min sel few p =
    let e : suc k + n ≡ k + (n + 1) = omega arith in
    rw e (pick-Found b k (n + 1) _ _ few (Picked-round b n min sel few p))

-- What the balancer answers: nothing if nothing waits at any of its places, and otherwise the first
-- partition of a server with the fewest active scans, which leaves the channel and counts as active.
pub data Selects (b : Balancer) : Option (Vbucket × Balancer) → Type 0 where
  exhausted : NothingBelow b (length b.servers) → Selects b none
  selects :
      (s v : ℕ) (rest : List ℕ)
      → IsLeast b (length b.servers) s
      → b.channels s ≡ v ∷ rest
      → Selects b (
          some (
            vbucket v s,
            scan_starting (vbucket v s) (record b { channels = update b.channels s rest }),
          ))

-- While no server has 2 ^ 32 - 1 active scans, a selection takes the first partition that waits at a
-- server with the fewest active scans among those where any waits, and fails only if none waits.
pub select_vbucket-Selects : (b : Balancer) → FewActive b → Selects b (select_vbucket b)
unfolding select_vbucket
select_vbucket-Selects b few = answer _ refl (
    rw add-zero at
      (pick-Found b (length b.servers) 0 max_uint32 none few (picked_none λ t lt. elim lt [ ])))
  where
    taken :
        (s : ℕ) (xs : List ℕ)
        → b.channels s ≡ xs
        → IsLeast b (length b.servers) s
        → Selects b (receive b s xs)
    taken s [] e h = absurd (h.waiting e)
    taken s (v ∷ rest) e h = unfold receive in selects s v rest h e

    answer :
        (o : Option ℕ)
        → pick b (length b.servers) 0 max_uint32 none ≡ o
        → Found b (length b.servers) o
        → Selects b (select_vbucket b)
    answer none e h = rw (e, select_vbucket) (exhausted h)
    answer (some s) e h = rw (e, select_vbucket) (taken s (b.channels s) refl h)
