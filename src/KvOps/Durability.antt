-- ===== src/KvOps/Durability.antt =====
-- When waitForDurability calls a mutation durable (collection_dura.go).
use gocb.Base.{
  ℕ, suc, ◌+◌, ◌≤◌, ◌<◌, ◌≡◌, refl, sym, subst, ◌⊎◌, inl, inr, true, false, ◌&&◌, ◌||◌, some, List,
  [], ◌∷◌, ◌++◌, arith, ltb, leb, Bool-cases,
}
use gocb.KvOps.Observe.{
  Event, Round, Signal, asks, cancel, count_loop, count_signal, deadline, delivered, did_persist,
  did_replicate, durable, error_out, observe_once, observe_one, persisted, receive, replicated,
  seqnos, signal, start_observers, tagged, wait_for_durability, wait_with,
}

-- Neither the deadline nor a cancellation is seen.
abbrev pub Undisturbed : List Event → Type 0
Undisturbed [] = Unit
Undisturbed (deadline ∷ es) = ⊥
Undisturbed (cancel ∷ es) = ⊥
Undisturbed (signal s k ∷ es) = Undisturbed es

abbrev pub sent : Signal → List Event → ℕ
sent k [] = 0
sent k (signal s j ∷ es) = count_signal k j (sent k es)
sent k (_ ∷ es) = sent k es

count_loop-durable :
    (r p nr np : ℕ) (es : List Event)
    → Undisturbed es
    → r ≤ nr + sent replicated es
    → p ≤ np + sent persisted es
    → (nr < r) ⊎ (np < p)
    → count_loop r p nr np es ≡ durable
unfolding count_loop
count_loop-durable r p nr np [] h a b c = absurd (omega (arith, a, b, c))
count_loop-durable r p nr np (deadline ∷ es) h a b c = absurd h
count_loop-durable r p nr np (cancel ∷ es) h a b c = absurd h
count_loop-durable r p nr np (signal s replicated ∷ es) h a b c =
    elim (Bool-cases (leb r (nr + 1) && leb p np)) [
      | inl t ↦ rw t refl
      | inr t ↦
          rw t (
            count_loop-durable r p (nr + 1) np es h (omega arith) (omega arith) (ground (arith, t)))
    ]
count_loop-durable r p nr np (signal s persisted ∷ es) h a b c =
    elim (Bool-cases (leb r nr && leb p (np + 1))) [
      | inl t ↦ rw t refl
      | inr t ↦
          rw t (
            count_loop-durable r p nr (np + 1) es h (omega arith) (omega arith) (ground (arith, t)))
    ]

-- A wait for something that the cluster has servers for ends with success once as many of the observers'
-- signals of each kind have come as were asked for, if neither the deadline nor a cancellation is seen.
pub wait_for_durability_ends :
    {E : Type 0} (seq_no : ℕ) (rounds : ℕ → List (Round E)) (r p num_replicas : ℕ)
    (schedule : List Event)
    → let es = delivered (start_observers seq_no rounds (num_replicas + 1) 0) schedule in
      r ≤ num_replicas
      → p ≤ num_replicas + 1
      → (0 < r) ⊎ (0 < p)
      → Undisturbed es
      → r ≤ sent replicated es
      → p ≤ sent persisted es
      → wait_for_durability seq_no rounds r p (some num_replicas) schedule ≡ durable
unfolding wait_for_durability wait_with
wait_for_durability_ends seq_no rounds r p n schedule hr hp c h a b =
    let es = delivered (start_observers seq_no rounds (n + 1) 0) schedule in
    elim (Bool-cases (ltb n r || ltb (n + 1) p)) [
      | inl t ↦ absurd (ground (arith, t))
      | inr t ↦ rw t (count_loop-durable r p 0 0 es h (omega arith) (omega arith) c)
    ]

-- The first signal of an observer whose first reply shows that the server holds the mutation.
replicated_first :
    {E : Type 0} (seq_no current persist : ℕ) (rest : List (Round E))
    → leb seq_no current ≡ true
    → (ks : List Signal) × ((observe_one seq_no false false
          (asks (seqnos current persist) ∷ rest)).0
        ≡ replicated ∷ ks)
unfolding observe_one observe_once did_replicate did_persist error_out
replicated_first k c p rest le = elim (Bool-cases (leb k p)) [
  | inl t ↦ rw (le, t) (_, refl)
  | inr t ↦ rw (le, t) (_, refl)
]

active_received :
    {E : Type 0} (seq_no current persist num_replicas : ℕ) (rest : List (Round E))
    (rounds : ℕ → List (Round E))
    → seq_no ≤ current
    → rounds 0 ≡ asks (seqnos current persist) ∷ rest
    → (qs : List (ℕ × Signal)) × (receive 0 replicated
          (start_observers seq_no rounds (num_replicas + 1) 0)
        ≡ some qs)
unfolding start_observers receive tagged
active_received k c p n rest rounds le e =
    let (ks, h) = replicated_first k c p rest (ground (arith, le)) in
    subst
      (λ m.
        (qs : List (ℕ × Signal)) × (receive 0 replicated (start_observers k rounds m 0) ≡ some qs))
      (suc_plus n)
      (subst
        (λ rs.
          (qs : List (ℕ × Signal)) × (receive 0 replicated
              (tagged 0 (observe_one k false false rs).0 ++ start_observers k rounds n 1)
            ≡ some qs))
        (sym e)
        (subst
          (λ js.
            (qs : List (ℕ × Signal)) × (receive 0 replicated
                (tagged 0 js ++ start_observers k rounds n 1)
              ≡ some qs))
          (sym h) (_, refl)))
  where
    suc_plus : (m : ℕ) → suc m ≡ m + 1
    suc_plus m = omega arith

-- Where there are replicas, a mutation that must be on one of them counts as durable as soon as the
-- active server, the one with the index 0, has answered that it holds it, whatever the replicas answer,
-- though none may hold it.
pub durable_without_replica :
    {E : Type 0} (seq_no current persist num_replicas : ℕ) (rest : List (Round E))
    (rounds : ℕ → List (Round E))
    → 0 < num_replicas
    → seq_no ≤ current
    → rounds 0 ≡ asks (seqnos current persist) ∷ rest
    → wait_for_durability seq_no rounds 1 0 (some num_replicas) (signal 0 replicated ∷ []) ≡ durable
unfolding wait_for_durability wait_with count_loop delivered
durable_without_replica k c p n rest rounds lt le e =
    let (qs, h) = active_received k c p n rest rounds le e in
    elim (Bool-cases (ltb n 1 || ltb (n + 1) 0)) [
      | inl t ↦ absurd (ground (arith, t, lt))
      | inr t ↦ rw (t, delivered, h, count_loop) refl
    ]
