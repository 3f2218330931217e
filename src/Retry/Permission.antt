-- ===== src/Retry/Permission.antt =====
-- Which failures let a request be sent again, and what it records of them (retry.go).
use gocb.Base.{
  ℕ, zero, suc, ◌+◌, ◌-◌, ◌^◌, ◌<◌, ◌≡◌, refl, sym, ap, subst, ◌⊎◌, inl, inr, Bool, true, false,
  not, ◌||◌, Option, none, some, List, [], ◌∷◌, arith, ◌==◌, if◌then◌else◌, Bool-cases, length,
  take, All,
}
use gocb.Retry.Records.{Recorded, record_retry-Recorded}
use gocb.Retry.Errors.{CallError, Error, is_timeout, map_error}
use gocb.Retry.Request.{
  Reason, Request, after_action, ask_strategy, best_effort, maybe_retry, record_retry,
}
use gocb.Retry.Loop.{
  Answer, Attempt, Wait, after_attempt, after_decision, after_reason, after_wait, attempt,
  cancelled, deadline, fails, generic, handle_error, over, request_cancelled, result, send,
  succeeds, timeout,
}

-- May a failure with this reason be followed by another attempt?
abbrev pub may_retry : Bool → Reason → Bool
may_retry idempotent why = why.always || idempotent || why.allows_non_idempotent

shifted : (k : ℕ) → k ≡ suc k - 1
shifted k = omega arith

-- The two outcomes of the decision.
data Decision (why : Reason) (req : Request) : Option ℕ × Request → Type 0 where
  refused : Decision why req (none, req)
  granted :
      (d : ℕ)
      → may_retry req.idempotent why ≡ true
      → Decision why req (some d, record_retry why req)

module _ (calculator : ℕ → ℕ) (why : Reason) (req : Request) where
  after_action-Decision :
      (d : ℕ)
      → (d ≡ 0) ⊎ (may_retry req.idempotent why ≡ true)
      → Decision why req (after_action (some d) why req)
  unfolding after_action
  after_action-Decision d h = elim (Bool-cases (d == 0)) [
    | inl e ↦ rw e refused
    | inr e ↦ rw e (granted d (allowed e h))
  ]
    where
      allowed :
          (d == 0) ≡ false
          → (d ≡ 0) ⊎ (may_retry req.idempotent why ≡ true)
          → may_retry req.idempotent why ≡ true
      allowed e (inl p) = absurd (ground arith)
      allowed e (inr k) = k

  best_effort-Decision : Decision why req (ask_strategy (some (best_effort calculator)) why req)
  unfolding ask_strategy best_effort
  best_effort-Decision = elim (Bool-cases (req.idempotent || why.allows_non_idempotent)) [
    | inl e ↦ rw e (after_action-Decision (calculator req.attempts) (inr (allowed e)))
    | inr e ↦ rw e (after_action-Decision 0 (inl refl))
  ]
    where
      allowed :
          (req.idempotent || why.allows_non_idempotent) ≡ true → may_retry req.idempotent why ≡ true
      allowed e = ground arith

  maybe_retry-Decision :
      (backoff : ℕ → ℕ)
      → req.strategy ≡ some (best_effort calculator)
      → Decision why req (maybe_retry backoff why req)
  unfolding maybe_retry
  maybe_retry-Decision backoff s = by_always why.always refl
    where
      by_always :
          (b : Bool)
          → why.always ≡ b
          → Decision why req (
              if b
              then (some (backoff req.attempts), record_retry why req)
              else ask_strategy req.strategy why req)
      by_always true e = granted (backoff req.attempts) (ground arith)
      by_always false e =
          subst (λ o. Decision why req (ask_strategy o why req)) (sym s) best_effort-Decision

module _ {A : Type 0} (backoff : ℕ → ℕ) (reason_of : Error → Option Reason)
    (calculator : ℕ → ℕ) where
  -- The attempt failed for a reason that allows another one.
  abbrev pub Allowed : Bool → Attempt A → Type 0
  Allowed idempotent (succeeds a) = ⊥
  Allowed idempotent (fails e w) =
      (why : Reason) × (reason_of (map_error e idempotent) ≡ some why)
      × (may_retry idempotent why ≡ true)

  -- With this answer, was the wait after a retry had been decided cut short? A cancellation ends such
  -- a wait, and so does a timeout unless the failure itself was one.
  abbrev pub cut : Bool → Attempt A → Answer A → Bool
  cut idempotent (succeeds a) x = false
  cut idempotent (fails e w) (result a) = false
  cut idempotent (fails e w) (generic f) = false
  cut idempotent (fails e w) (timeout f rs n) = not (is_timeout (map_error e idempotent))
  cut idempotent (fails e w) request_cancelled = true

  -- The same of the n-th attempt.
  abbrev pub cut_at : Bool → ℕ → List (Attempt A) → Answer A → Bool
  cut_at idempotent n [] x = false
  cut_at idempotent zero (a ∷ as') x = false
  cut_at idempotent (suc zero) (a ∷ as') x = cut idempotent a x
  cut_at idempotent (suc (suc k)) (a ∷ as') x = cut_at idempotent (suc k) as' x

  -- What an attempt makes of the request.
  data Step (a : Attempt A) (req : Request) : Option (Answer A) × Request → Type 0 where
    ends : (x : Answer A) → cut req.idempotent a x ≡ false → Step a req (some x, req)
    ends_recorded :
        (x : Answer A) (why : Reason)
        → cut req.idempotent a x ≡ true
        → Step a req (some x, record_retry why req)
    again : (why : Reason) → Allowed req.idempotent a → Step a req (none, record_retry why req)

  after_decision-Step :
      (e : CallError) (w : Wait) (req : Request) (why : Reason) (d : Option ℕ × Request)
      → reason_of (map_error e req.idempotent) ≡ some why
      → is_timeout (map_error e req.idempotent) ≡ false
      → Decision why req d
      → Step (fails e w) req (after_decision backoff reason_of (map_error e req.idempotent) w d)
  unfolding after_decision after_wait
  after_decision-Step e w req why _ q t refused = ends _ refl
  after_decision-Step e over req why _ q t (granted d h) = again why (why, q, h)
  after_decision-Step e deadline req why _ q t (granted d h) = ends_recorded _ why (ap not t)
  after_decision-Step e cancelled req why _ q t (granted d h) = ends_recorded _ why refl

  after_reason-Step :
      (e : CallError) (w : Wait) (req : Request) (o : Option Reason)
      → req.strategy ≡ some (best_effort calculator)
      → reason_of (map_error e req.idempotent) ≡ o
      → is_timeout (map_error e req.idempotent) ≡ false
      → Step (fails e w) req (after_reason backoff reason_of (map_error e req.idempotent) w o req)
  unfolding after_reason
  after_reason-Step e w req none s q t = ends _ refl
  after_reason-Step e w req (some why) s q t =
      after_decision-Step e w req why _ q t (maybe_retry-Decision calculator why req backoff s)

  attempt-Step :
      (a : Attempt A) (req : Request)
      → req.strategy ≡ some (best_effort calculator)
      → Step a req (attempt backoff reason_of a req)
  unfolding attempt handle_error
  attempt-Step (succeeds a) req s = ends _ refl
  attempt-Step (fails e w) req s = elim (Bool-cases (is_timeout (map_error e req.idempotent))) [
    | inl t ↦ rw t (ends _ (ap not t))
    | inr t ↦ rw t (after_reason-Step e w req _ s refl t)
  ]

  -- The attempts that a request has counted, when it was sent `n` times.
  abbrev pub Counted : List (Attempt A) → Request → Option (Answer A) → Request → ℕ → Type 0
  Counted as' req none req' n = req'.attempts ≡ req.attempts + n
  Counted as' req (some x) req' n =
      (0 < n)
      × (req'.attempts + (if cut_at req.idempotent n as' x then 0 else 1) ≡ req.attempts + n)

  -- The answer and the request after the attempts, and how often it was sent.
  pub record Sent (as' : List (Attempt A)) (req : Request) (o : Option (Answer A)) (req' : Request)
      (n : ℕ) : Type 0 where
    pub allowed : All (Allowed req.idempotent) (take (n - 1) as')
    pub recorded : Recorded req'
    pub counted : Counted as' req o req' n

  Counted-again :
      (n : ℕ) (a : Attempt A) (as' : List (Attempt A)) (req req' : Request) (why : Reason)
      (o : Option (Answer A))
      → req.attempts + length (a ∷ as') < 2 ^ 32
      → Counted as' (record_retry why req) o req' n
      → Counted (a ∷ as') req o req' (suc n)
  unfolding record_retry
  Counted-again n a as' req req' why none lt m = omega (arith, m)
  Counted-again zero a as' req req' why (some x) lt m = absurd (omega (arith, m))
  Counted-again (suc k) a as' req req' why (some x) lt m = (omega arith, omega (arith, m.1))

  Sent-again :
      {o : Option (Answer A)} {req' : Request} {n : ℕ} (a : Attempt A) (as' : List (Attempt A))
      (req : Request) (why : Reason)
      → req.attempts + length (a ∷ as') < 2 ^ 32
      → Allowed req.idempotent a
      → Sent as' (record_retry why req) o req' n
      → Sent (a ∷ as') req o req' (suc n)
  unfolding record_retry
  Sent-again {o = o} {req' = req'} {n = zero} a as' req why lt h m = record {
    allowed = tt;
    recorded = m.recorded;
    counted = Counted-again zero a as' req req' why o lt m.counted;
  }
  Sent-again {o = o} {req' = req'} {n = suc k} a as' req why lt h m = record {
    allowed =
        subst (λ i. All (Allowed req.idempotent) (take i (a ∷ as'))) (shifted (suc k))
          (h, subst (λ i. All (Allowed req.idempotent) (take i as')) (sym (shifted k)) (m.allowed));
    recorded = m.recorded;
    counted = Counted-again (suc k) a as' req req' why o lt m.counted;
  }

  -- A request under the best-effort strategy is sent again only after failures with a reason that
  -- always retries, or allows it for this request: one that is not idempotent needs a reason that
  -- says so. If it holds every reason once before, and no more reasons than attempts, then it does
  -- so afterwards, as long as its attempts fit an uint32. They grow by exactly the number of times that
  -- it was sent again; by one more if the wait before another attempt was cut short, which then gives a
  -- timeout or a cancellation; and by one for each attempt given if all of them were retried.
  pub send-Sent :
      (as' : List (Attempt A)) (req : Request)
      → req.strategy ≡ some (best_effort calculator)
      → Recorded req
      → req.attempts + length as' < 2 ^ 32
      → Sent as' req
          (send backoff reason_of as' req).0
          (send backoff reason_of as' req).1
          (send backoff reason_of as' req).2
  unfolding send
  send-Sent [] req s r lt = record { allowed = tt; recorded = r; counted = omega arith }
  send-Sent (a ∷ as') req s r lt =
      go
        (λ why.
          send-Sent as' (record_retry why req) (unfold record_retry in s)
            (record_retry-Recorded why req (omega arith) r) (unfold record_retry in omega arith))
        (attempt backoff reason_of a req) (attempt-Step a req s)
    where
      go :
          ((why : Reason)
            → Sent as'
                (record_retry why req)
                (send backoff reason_of as' (record_retry why req)).0
                (send backoff reason_of as' (record_retry why req)).1
                (send backoff reason_of as' (record_retry why req)).2)
          → (r' : Option (Answer A) × Request) → Step a req r'
          → Sent
              (a ∷ as')
              req
              (after_attempt backoff reason_of r' (λ q. send backoff reason_of as' q)).0
              (after_attempt backoff reason_of r' (λ q. send backoff reason_of as' q)).1
              (after_attempt backoff reason_of r' (λ q. send backoff reason_of as' q)).2
      go more _ (ends x c) =
          unfold after_attempt in
          record { allowed = tt; recorded = r; counted = (omega arith, rw c (omega arith)) }
      go more _ (ends_recorded x why c) =
          unfold after_attempt record_retry in
          record {
            allowed = tt;
            recorded = record_retry-Recorded why req (omega arith) r;
            counted = (omega arith, rw c (omega arith));
          }
      go more _ (again why h) = unfold after_attempt in Sent-again a as' req why lt h (more why)
