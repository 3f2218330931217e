-- ===== src/KvOps/Pending.antt =====
-- The signals that observers have sent and that are still to be counted (collection_dura.go).
use gocb.Base.{
  ℕ, zero, suc, ◌+◌, ◌≡◌, refl, ap, ◌∙◌, inl, inr, Bool, true, false, ◌&&◌, Option, none, some,
  List, [], ◌∷◌, ◌++◌, arith, ltb, leb, ◌==◌, if◌then◌else◌, ==_iff, Bool-cases, some-inj,
}
use gocb.KvOps.Observe.{
  Round, Signal, count_signal, observe_one, persisted, receive, replicated, same_signal,
  start_observers, tagged,
}
use gocb.KvOps.Observers.{times}

-- How often a server's signal is pending.
abbrev pub tally : ℕ → Signal → List (ℕ × Signal) → ℕ
tally s k [] = 0
tally s k ((t, j) ∷ ps) = if t == s then count_signal k j (tally s k ps) else tally s k ps

tally-append :
    (s : ℕ) (k : Signal) (ps qs : List (ℕ × Signal))
    → tally s k (ps ++ qs) ≡ tally s k ps + tally s k qs
tally-append s k [] qs = omega arith
tally-append s replicated ((t, replicated) ∷ ps) qs =
    ground (arith, tally-append s replicated ps qs)
tally-append s replicated ((t, persisted) ∷ ps) qs = ground (arith, tally-append s replicated ps qs)
tally-append s persisted ((t, replicated) ∷ ps) qs = ground (arith, tally-append s persisted ps qs)
tally-append s persisted ((t, persisted) ∷ ps) qs = ground (arith, tally-append s persisted ps qs)

tally-tagged :
    (s t : ℕ) (k : Signal) (js : List Signal)
    → tally s k (tagged t js) ≡ (if t == s then times k js else 0)
unfolding tagged
tally-tagged s t k [] = ground arith
tally-tagged s t replicated (replicated ∷ js) = ground (arith, tally-tagged s t replicated js)
tally-tagged s t replicated (persisted ∷ js) = ground (arith, tally-tagged s t replicated js)
tally-tagged s t persisted (replicated ∷ js) = ground (arith, tally-tagged s t persisted js)
tally-tagged s t persisted (persisted ∷ js) = ground (arith, tally-tagged s t persisted js)

head_taken :
    (u s t : ℕ) (i k j : Signal) (n : ℕ)
    → (u == s && same_signal i k) ≡ true
    → (if u == t then count_signal j i n else n) ≡ n + (if t == s then count_signal j k 0 else 0)
head_taken u s t replicated replicated replicated n e = ground (arith, e)
head_taken u s t replicated replicated persisted n e = ground (arith, e)
head_taken u s t replicated persisted j n e = absurd (ground (arith, e))
head_taken u s t persisted replicated j n e = absurd (ground (arith, e))
head_taken u s t persisted persisted replicated n e = ground (arith, e)
head_taken u s t persisted persisted persisted n e = ground (arith, e)

head_kept :
    (b : Bool) (i j : Signal) (n m d : ℕ)
    → n ≡ m + d
    → (if b then count_signal j i n else n) ≡ (if b then count_signal j i m else m) + d
head_kept true replicated replicated n m d e = omega (arith, e)
head_kept true replicated persisted n m d e = e
head_kept true persisted replicated n m d e = e
head_kept true persisted persisted n m d e = omega (arith, e)
head_kept false i j n m d e = e

-- A signal that is taken was pending, and is so once less; all others stay.
pub tally-receive :
    (s : ℕ) (k : Signal) (ps ps' : List (ℕ × Signal))
    → receive s k ps ≡ some ps'
    → (t : ℕ) (j : Signal)
    → tally t j ps ≡ tally t j ps' + (if t == s then count_signal j k 0 else 0)
unfolding receive
tally-receive s k [] ps' e t j = cc
tally-receive s k ((u, i) ∷ ps) ps' e t j = elim (Bool-cases (u == s && same_signal i k)) [
  | inl h ↦
      head_taken u s t i k j (tally t j ps) h
      ∙ ap (λ qs. tally t j qs + (if t == s then count_signal j k 0 else 0)) (some-inj (rw h at e))
  | inr h ↦ later (λ qs q. tally-receive s k ps qs q t j) (receive s k ps) refl (rw h at e)
]
  where
    later :
        ((qs : List (ℕ × Signal))
          → receive s k ps ≡ some qs
          → tally t j ps ≡ tally t j qs + (if t == s then count_signal j k 0 else 0))
        → (o : Option (List (ℕ × Signal))) → receive s k ps ≡ o
        → ◌≡◌ {A = Option (List (ℕ × Signal))}
            (elim o [ none ↦ none | some qs ↦ some ((u, i) ∷ qs) ])
            (some ps')
        → tally t j ((u, i) ∷ ps) ≡ tally t j ps' + (if t == s then count_signal j k 0 else 0)
    later more none q f = absurd cc
    later more (some qs) q f =
        head_kept (u == t) i j (tally t j ps) (tally t j qs) _ (more qs q)
        ∙ ap (λ rs. tally t j rs + (if t == s then count_signal j k 0 else 0)) (some-inj f)

module _ {E : Type 0} (seq_no : ℕ) (rounds : ℕ → List (Round E)) where
  abbrev sent_by : ℕ → List Signal
  sent_by s = (observe_one seq_no false false (rounds s)).0

  -- Each server's observer is started once.
  pub tally-start_observers :
      (n idx s : ℕ) (k : Signal)
      → tally s k (start_observers seq_no rounds n idx)
        ≡ (if leb idx s && ltb s (idx + n) then times k (sent_by s) else 0)
  unfolding start_observers
  tally-start_observers zero idx s k = ground arith
  tally-start_observers (suc n) idx s k =
      let append =
        tally-append s k (tagged idx (sent_by idx)) (start_observers seq_no rounds n (suc idx)) in
      let tagged_here = tally-tagged s idx k (sent_by idx) in
      let rest = tally-start_observers n (suc idx) s k in
      elim (Bool-cases (idx == s)) [
        | inl e ↦
            let same = ap (λ i. times k (sent_by i)) ((==_iff idx s).0 e) in
            ground (arith, e, same, append, tagged_here, rest)
        | inr e ↦ ground (arith, e, append, tagged_here, rest)
      ]
