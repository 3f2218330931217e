-- ===== src/KvOps/Observers.antt =====
-- What one observer signals (observeOne in collection_dura.go).
use mathlib.Core.List.{append-nil}
use gocb.Base.{
  ℕ, ◌+◌, ◌≤◌, ◌<◌, ◌≡◌, refl, sym, ap, subst, ◌∙◌, ◌≢◌, Bool, true, false, not, ◌&&◌, ◌||◌, none,
  List, [], ◌∷◌, ◌++◌, arith, leb, if◌then◌else◌,
}
use gocb.KvOps.Observe.{
  ObserverEnd, Reply, Round, Signal, asks, cancelled, count_signal, did_persist, did_replicate,
  error_out, gave_up, not_sent, observe_once, observe_one, persisted, replicated, reply_error,
  seqnos, signals, stopped,
}

abbrev ending : List Signal × ObserverEnd → ObserverEnd
ending x = x.1

-- How often a signal is in the list.
abbrev pub times : Signal → List Signal → ℕ
times k [] = 0
times k (j ∷ js) = count_signal k j (times k js)

-- Does a reply show that the server holds a mutation, or that it has persisted it: is the server's
-- sequence number at least the mutation's?
abbrev pub shows : {E : Type 0} → ℕ → Signal → Reply E → Bool
shows seq_no replicated (seqnos current persist) = leb seq_no current
shows seq_no persisted (seqnos current persist) = leb seq_no persist
shows seq_no _ (not_sent e) = false
shows seq_no _ (reply_error e) = false

did_replicate-shows : {E : Type 0} (n : ℕ) (r : Reply E) → did_replicate n r ≡ shows n replicated r
unfolding did_replicate
did_replicate-shows n (not_sent e) = refl
did_replicate-shows n (reply_error e) = refl
did_replicate-shows n (seqnos c p) = refl

did_persist-shows : {E : Type 0} (n : ℕ) (r : Reply E) → did_persist n r ≡ shows n persisted r
unfolding did_persist
did_persist-shows n (not_sent e) = refl
did_persist-shows n (reply_error e) = refl
did_persist-shows n (seqnos c p) = refl

-- Does a reply of these rounds show the mutation?
abbrev pub shown : {E : Type 0} → ℕ → Signal → List (Round E) → Bool
shown seq_no k [] = false
shown seq_no k (cancelled ∷ rs) = shown seq_no k rs
shown seq_no k (asks r ∷ rs) = shows seq_no k r || shown seq_no k rs

times-append : (k : Signal) (xs ys : List Signal) → times k (xs ++ ys) ≡ times k xs + times k ys
times-append k [] ys = omega arith
times-append replicated (replicated ∷ xs) ys = omega (arith, times-append replicated xs ys)
times-append replicated (persisted ∷ xs) ys = omega (arith, times-append replicated xs ys)
times-append persisted (replicated ∷ xs) ys = omega (arith, times-append persisted xs ys)
times-append persisted (persisted ∷ xs) ys = omega (arith, times-append persisted xs ys)

abbrev left : Bool → ℕ
left sent = if sent then 0 else 1

times-signals :
    (rep pers sr sp : Bool)
    → (times replicated (signals rep pers sr sp) ≡ (if rep && not sr then 1 else 0))
      × (times persisted (signals rep pers sr sp) ≡ (if pers && not sp then 1 else 0))
times-signals rep pers sr sp = ground arith

module _ {E : Type 0} where
  error_out-none : (seq_no : ℕ) (r : Reply E) → (observe_once seq_no r).2 ≡ none
  unfolding observe_once error_out
  error_out-none n (not_sent e) = refl
  error_out-none n (reply_error e) = refl
  error_out-none n (seqnos c p) = refl

  -- A round in which the observer asks, whatever the reply.
  observe_one-asks :
      (n : ℕ) (sr sp : Bool) (r : Reply E) (rs : List (Round E))
      → observe_one n sr sp (asks r ∷ rs) ≡ (
          if (sp || did_persist n r) && (sr || did_replicate n r)
          then (signals (did_replicate n r) (did_persist n r) sr sp, stopped)
          else (
            signals (did_replicate n r) (did_persist n r) sr sp
                ++ (observe_one n (sr || did_replicate n r) (sp || did_persist n r) rs).0,
            (observe_one n (sr || did_replicate n r) (sp || did_persist n r) rs).1,
          ))
  unfolding observe_one observe_once error_out
  observe_one-asks n sr sp (not_sent e) rs = refl
  observe_one-asks n sr sp (reply_error e) rs = refl
  observe_one-asks n sr sp (seqnos c p) rs = refl

  -- No observer ends on an error: though a request that fails is meant to end it, no error of a
  -- request reaches it.
  pub observe_one_persists :
      (n : ℕ) (sr sp : Bool) (rs : List (Round E)) → (observe_one n sr sp rs).1 ≢ gave_up
  unfolding observe_one
  observe_one_persists n sr sp [] = λ p. cc
  observe_one_persists n sr sp (cancelled ∷ rs) = λ p. cc
  observe_one_persists n sr sp (asks r ∷ rs) =
      subst (λ x. ending x ≢ gave_up) (sym (observe_one-asks n sr sp r rs))
        (choice (_, stopped) (_, _) ((sp || did_persist n r) && (sr || did_replicate n r)) (λ p. cc)
          (observe_one_persists n (sr || did_replicate n r) (sp || did_persist n r) rs))
    where
      choice :
          (x y : List Signal × ObserverEnd) (b : Bool)
          → ending x ≢ gave_up
          → ending y ≢ gave_up
          → ending (if b then x else y) ≢ gave_up
      choice x y true h k = h
      choice x y false h k = k

  -- What an observer signals: each signal once at most, and only after a reply that shows it.
  pub record SignalsOnce (n : ℕ) (sr sp : Bool) (rs : List (Round E)) (xs : List Signal)
      : Type 0 where
    pub replicated_once : times replicated xs ≤ left sr
    pub persisted_once : times persisted xs ≤ left sp
    pub replicated_shown : 0 < times replicated xs → shown n replicated rs ≡ true
    pub persisted_shown : 0 < times persisted xs → shown n persisted rs ≡ true

  round-SignalsOnce :
      (n : ℕ) (sr sp : Bool) (r : Reply E) (rs : List (Round E)) (xs : List Signal)
      → SignalsOnce n (sr || did_replicate n r) (sp || did_persist n r) rs xs
      → SignalsOnce n sr sp
          (asks r ∷ rs)
          (signals (did_replicate n r) (did_persist n r) sr sp ++ xs)
  round-SignalsOnce n sr sp r rs xs h =
      let t = times-signals (did_replicate n r) (did_persist n r) sr sp in
      let a = times-append replicated (signals (did_replicate n r) (did_persist n r) sr sp) xs in
      let b = times-append persisted (signals (did_replicate n r) (did_persist n r) sr sp) xs in
      record {
        replicated_once = ground (arith, t, a, h.replicated_once);
        persisted_once = ground (arith, t, b, h.persisted_once);
        replicated_shown = λ p. ground (arith, t, a, h.replicated_shown, did_replicate-shows n r);
        persisted_shown = λ p. ground (arith, t, b, h.persisted_shown, did_persist-shows n r);
      }

  silent-SignalsOnce : (n : ℕ) (sr sp : Bool) (rs : List (Round E)) → SignalsOnce n sr sp rs []
  silent-SignalsOnce n sr sp rs = record {
    replicated_once = omega arith;
    persisted_once = omega arith;
    replicated_shown = λ p. absurd (omega (arith, p));
    persisted_shown = λ p. absurd (omega (arith, p));
  }

  -- An observer sends each of its two signals once at most, never again what it has sent already, and
  -- only after a reply that shows the mutation to be there, or to be persisted.
  pub observe_one-SignalsOnce :
      (n : ℕ) (sr sp : Bool) (rs : List (Round E))
      → SignalsOnce n sr sp rs (observe_one n sr sp rs).0
  unfolding observe_one
  observe_one-SignalsOnce n sr sp [] = silent-SignalsOnce n sr sp []
  observe_one-SignalsOnce n sr sp (cancelled ∷ rs) = silent-SignalsOnce n sr sp (cancelled ∷ rs)
  observe_one-SignalsOnce n sr sp (asks r ∷ rs) =
      subst (λ x. SignalsOnce n sr sp (asks r ∷ rs) (sent x)) (sym (observe_one-asks n sr sp r rs))
        (choice (_, stopped) (_, _) ((sp || did_persist n r) && (sr || did_replicate n r))
          (subst (SignalsOnce n sr sp (asks r ∷ rs)) (append-nil _)
            (round-SignalsOnce n sr sp r rs [] (silent-SignalsOnce n _ _ rs)))
          (round-SignalsOnce n sr sp r rs _
            (observe_one-SignalsOnce n (sr || did_replicate n r) (sp || did_persist n r) rs)))
    where
      sent : List Signal × ObserverEnd → List Signal
      sent x = x.0

      choice :
          (x y : List Signal × ObserverEnd) (b : Bool)
          → SignalsOnce n sr sp (asks r ∷ rs) (sent x)
          → SignalsOnce n sr sp (asks r ∷ rs) (sent y)
          → SignalsOnce n sr sp (asks r ∷ rs) (sent (if b then x else y))
      choice x y true h k = h
      choice x y false h k = k

  -- Is the observer cancelled at some time?
  abbrev pub is_cancelled : List (Round E) → Bool
  is_cancelled [] = false
  is_cancelled (cancelled ∷ rs) = true
  is_cancelled (asks r ∷ rs) = is_cancelled rs

  -- It is cancelled, or what it has not signalled yet is shown, in one reply or in two.
  abbrev pub Confirms : ℕ → Bool → Bool → List (Round E) → Type 0
  Confirms n sr sp rs =
      (is_cancelled rs || (sr || shown n replicated rs) && (sp || shown n persisted rs)) ≡ true

  -- The loop of an observer that has not sent both signals ends, however many requests fail, once it is
  -- cancelled, or the server's replies have shown it what it has not signalled yet: that the server holds
  -- the mutation, and that it has persisted it, in one reply or in two.
  pub observe_one_ends :
      (n : ℕ) (sr sp : Bool) (rs : List (Round E))
      → (sr && sp) ≡ false
      → Confirms n sr sp rs
      → (observe_one n sr sp rs).1 ≡ stopped
  unfolding observe_one
  observe_one_ends n sr sp [] d h = absurd (ground (arith, d, h))
  observe_one_ends n sr sp (cancelled ∷ rs) d h = refl
  observe_one_ends n sr sp (asks r ∷ rs) d h =
      ap ending (observe_one-asks n sr sp r rs)
      ∙ choice ((sp || did_persist n r) && (sr || did_replicate n r)) refl _ _ refl (λ e.
        observe_one_ends n (sr || did_replicate n r) (sp || did_persist n r) rs (ground (arith, e))
          (ground (arith, h, did_replicate-shows n r, did_persist-shows n r)))
    where
      choice :
          (b : Bool)
          → ((sp || did_persist n r) && (sr || did_replicate n r)) ≡ b
          → (x y : List Signal × ObserverEnd) → ending x ≡ stopped
          → (((sp || did_persist n r) && (sr || did_replicate n r)) ≡ false → ending y ≡ stopped)
          → ending (if b then x else y) ≡ stopped
      choice true q x y e f = e
      choice false q x y e f = f q
