-- ===== src/KvOps/Holders.antt =====
-- Which servers hold a mutation that waitForDurability calls durable (collection_dura.go).
use gocb.Base.{
  ℕ, ◌+◌, ◌≤◌, ◌<◌, ◌≡◌, refl, ◌≢◌, inl, inr, true, false, ◌&&◌, ◌||◌, Option, none, some, List, [],
  ◌∷◌, arith, ltb, leb, Bool-cases, length, All,
}
use gocb.KvOps.Observe.{
  Event, Round, Signal, cancel, count_loop, count_signal, deadline, delivered, durable, observe_one,
  persisted, receive, replicated, signal, start_observers, wait_for_durability, wait_with,
}
use gocb.KvOps.Pending.{tally, tally-receive, tally-start_observers}
use gocb.KvOps.Observers.{observe_one-SignalsOnce, shown, times}

abbrev pub NotAmong : ℕ → List ℕ → Type 0
NotAmong s xs = All (λ t. t ≢ s) xs

abbrev pub AllDifferent : List ℕ → Type 0
AllDifferent [] = Unit
AllDifferent (s ∷ xs) = NotAmong s xs × AllDifferent xs

module _ {E : Type 0} (seq_no : ℕ) (rounds : ℕ → List (Round E)) (num_replicas : ℕ) where
  -- A server, of the active one and the replicas, one of whose replies shows the mutation.
  abbrev pub HasShown : Signal → ℕ → Type 0
  HasShown k s = (s ≤ num_replicas) × (shown seq_no k (rounds s) ≡ true)

  -- The signals come from such servers, and each server's signal of a kind comes once at most.
  abbrev Observed : List ℕ → List ℕ → List Event → Type 0
  Observed rs ps [] = Unit
  Observed rs ps (deadline ∷ es) = Observed rs ps es
  Observed rs ps (cancel ∷ es) = Observed rs ps es
  Observed rs ps (signal s replicated ∷ es) =
      NotAmong s rs × HasShown replicated s × Observed (s ∷ rs) ps es
  Observed rs ps (signal s persisted ∷ es) =
      NotAmong s ps × HasShown persisted s × Observed rs (s ∷ ps) es

  -- Such servers, all different.
  abbrev pub Holders : Signal → List ℕ → Type 0
  Holders k xs = AllDifferent xs × All (HasShown k) xs

  abbrev pub Enough : ℕ → ℕ → Type 0
  Enough r p =
      ((rs : List ℕ) × Holders replicated rs × (r ≤ length rs))
      × ((ps : List ℕ) × Holders persisted ps × (p ≤ length ps))

  count_loop-Enough :
      (r p : ℕ) (rs ps : List ℕ) (es : List Event)
      → Holders replicated rs
      → Holders persisted ps
      → Observed rs ps es
      → count_loop r p (length rs) (length ps) es ≡ durable
      → Enough r p
  unfolding count_loop
  count_loop-Enough r p rs ps [] hr hp ob e = cc
  count_loop-Enough r p rs ps (deadline ∷ es) hr hp ob e = cc
  count_loop-Enough r p rs ps (cancel ∷ es) hr hp ob e = cc
  count_loop-Enough r p rs ps (signal s replicated ∷ es) hr hp ob e =
      elim (Bool-cases (leb r (length rs + 1) && leb p (length ps))) [
        | inl t ↦ ((s ∷ rs, now, ground (arith, t)), (ps, hp, ground (arith, t)))
        | inr t ↦ count_loop-Enough r p (s ∷ rs) ps es now hp ob.2 (ground (arith, t, e))
      ]
    where
      now : Holders replicated (s ∷ rs)
      now = ((ob.0, hr.0), (ob.1, hr.1))
  count_loop-Enough r p rs ps (signal s persisted ∷ es) hr hp ob e =
      elim (Bool-cases (leb r (length rs) && leb p (length ps + 1))) [
        | inl t ↦ ((rs, hr, ground (arith, t)), (s ∷ ps, now, ground (arith, t)))
        | inr t ↦ count_loop-Enough r p rs (s ∷ ps) es hr now ob.2 (ground (arith, t, e))
      ]
    where
      now : Holders persisted (s ∷ ps)
      now = ((ob.0, hp.0), (ob.1, hp.1))

  -- What is pending of a kind, when the servers `xs` have been counted.
  record Fresh (k : Signal) (ps : List (ℕ × Signal)) (xs : List ℕ) : Type 0 where
    pub once : (s : ℕ) → tally s k ps ≤ 1
    pub unused : (s : ℕ) → 0 < tally s k ps → NotAmong s xs
    pub shown_there : (s : ℕ) → 0 < tally s k ps → HasShown k s

  Fresh-kept :
      (k j : Signal) (s : ℕ) (ps ps' : List (ℕ × Signal)) (xs : List ℕ)
      → receive s j ps ≡ some ps'
      → Fresh k ps xs
      → Fresh k ps' xs
  Fresh-kept k j s ps ps' xs e f = record {
    once = λ t. omega (arith, tally-receive s j ps ps' e t k, f.once t);
    unused = λ t lt. f.unused t (omega (arith, tally-receive s j ps ps' e t k, lt));
    shown_there = λ t lt. f.shown_there t (omega (arith, tally-receive s j ps ps' e t k, lt));
  }

  Fresh-taken :
      (k : Signal) (s : ℕ) (ps ps' : List (ℕ × Signal)) (xs : List ℕ)
      → receive s k ps ≡ some ps'
      → count_signal k k 0 ≡ 1
      → Fresh k ps xs
      → NotAmong s xs × HasShown k s × Fresh k ps' (s ∷ xs)
  Fresh-taken k s ps ps' xs e one f =
      let there = pending_there in
      (
        f.unused s there,
        f.shown_there s there,
        record {
          once = (Fresh-kept k k s ps ps' xs e f).once;
          unused = λ t lt. (different t lt, (Fresh-kept k k s ps ps' xs e f).unused t lt);
          shown_there = (Fresh-kept k k s ps ps' xs e f).shown_there;
        },
      )
    where
      pending_there : 0 < tally s k ps
      pending_there = ground (arith, tally-receive s k ps ps' e s k, one)

      different : (t : ℕ) → 0 < tally t k ps' → s ≢ t
      different t lt p = ground (arith, tally-receive s k ps ps' e t k, one, f.once t, lt, p)

  delivered-Observed :
      (es : List Event) (ps : List (ℕ × Signal)) (rs qs : List ℕ)
      → Fresh replicated ps rs
      → Fresh persisted ps qs
      → Observed rs qs (delivered ps es)
  unfolding delivered
  delivered-Observed [] ps rs qs f g = tt
  delivered-Observed (deadline ∷ es) ps rs qs f g = delivered-Observed es ps rs qs f g
  delivered-Observed (cancel ∷ es) ps rs qs f g = delivered-Observed es ps rs qs f g
  delivered-Observed (signal s replicated ∷ es) ps rs qs f g =
      taken (receive s replicated ps) refl (delivered-Observed es ps rs qs f g)
        (λ ps' h k. delivered-Observed es ps' (s ∷ rs) qs h k)
    where
      taken :
          (o : Option (List (ℕ × Signal)))
          → receive s replicated ps ≡ o
          → Observed rs qs (delivered ps es)
          → ((ps' : List (ℕ × Signal))
              → Fresh replicated ps' (s ∷ rs)
              → Fresh persisted ps' qs
              → Observed (s ∷ rs) qs (delivered ps' es))
          → Observed rs qs (elim o [
            | none ↦ delivered ps es
            | some ps' ↦ signal s replicated ∷ delivered ps' es
          ])
      taken none e h more = h
      taken (some ps') e h more =
          let (a, b, c) = Fresh-taken replicated s ps ps' rs e refl f in
          (a, b, more ps' c (Fresh-kept persisted replicated s ps ps' qs e g))
  delivered-Observed (signal s persisted ∷ es) ps rs qs f g =
      taken (receive s persisted ps) refl (delivered-Observed es ps rs qs f g)
        (λ ps' h k. delivered-Observed es ps' rs (s ∷ qs) h k)
    where
      taken :
          (o : Option (List (ℕ × Signal)))
          → receive s persisted ps ≡ o
          → Observed rs qs (delivered ps es)
          → ((ps' : List (ℕ × Signal))
              → Fresh replicated ps' rs
              → Fresh persisted ps' (s ∷ qs)
              → Observed rs (s ∷ qs) (delivered ps' es))
          → Observed rs qs
              (elim o [ none ↦ delivered ps es | some ps' ↦ signal s persisted ∷ delivered ps' es ])
      taken none e h more = h
      taken (some ps') e h more =
          let (a, b, c) = Fresh-taken persisted s ps ps' qs e refl g in
          (a, b, more ps' (Fresh-kept replicated persisted s ps ps' rs e f) c)

  times-once :
      (k : Signal) (s : ℕ)
      → (times k (observe_one seq_no false false (rounds s)).0 ≤ 1)
        × (0 < times k (observe_one seq_no false false (rounds s)).0
            → shown seq_no k (rounds s) ≡ true)
  times-once replicated s =
      let h = observe_one-SignalsOnce seq_no false false (rounds s) in
      (h.replicated_once, h.replicated_shown)
  times-once persisted s =
      let h = observe_one-SignalsOnce seq_no false false (rounds s) in
      (h.persisted_once, h.persisted_shown)

  start_observers-Fresh :
      (k : Signal) → Fresh k (start_observers seq_no rounds (num_replicas + 1) 0) []
  start_observers-Fresh k = record {
    once = λ s.
        let t = tally-start_observers seq_no rounds (num_replicas + 1) 0 s k in
        let h = (times-once k s).0 in ground (arith, t, h);
    unused = λ s lt. tt;
    shown_there = λ s lt.
        let t = tally-start_observers seq_no rounds (num_replicas + 1) 0 s k in
        (ground (arith, t, lt), (times-once k s).1 (ground (arith, t, lt)));
  }

  wait_with-Enough :
      (r p : ℕ) (schedule : List Event)
      → wait_with seq_no rounds r p num_replicas schedule ≡ durable
      → Enough r p
  unfolding wait_with
  wait_with-Enough r p es e = elim (Bool-cases (ltb num_replicas r || ltb (num_replicas + 1) p)) [
    | inl t ↦ cc (rw t at e)
    | inr t ↦
        count_loop-Enough r p [] [] _ (tt, tt) (tt, tt)
          (delivered-Observed es _ [] [] (start_observers-Fresh replicated)
            (start_observers-Fresh persisted))
          (rw t at e)
  ]

-- If a mutation counts as durable then the number of replicas is known, `persist_to` different ones of
-- the servers have answered that they have persisted it, and `replicate_to` different ones that they
-- hold it; the active server may be one of them.
pub wait_for_durability-Enough :
    {E : Type 0} (seq_no : ℕ) (rounds : ℕ → List (Round E)) (r p : ℕ) (snapshot : Option ℕ)
    (schedule : List Event)
    → wait_for_durability seq_no rounds r p snapshot schedule ≡ durable
    → (n : ℕ) × (snapshot ≡ some n) × Enough seq_no rounds n r p
unfolding wait_for_durability
wait_for_durability-Enough k rounds r p none es e = cc
wait_for_durability-Enough k rounds r p (some n) es e =
    (n, refl, wait_with-Enough k rounds n r p es e)
