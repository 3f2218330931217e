-- ===== src/Retry/Request.antt =====
-- A request that may be retried, and the decision to retry it (retry.go). Times are outside; a duration
-- is a number of nanoseconds. Retry reasons are those of gocbcore.
use gocb.Base.{
  ℕ, Bool, true, false, ◌||◌, Option, none, some, List, [], ◌∷◌, ◌==◌, if◌then◌else◌, snoc,
}
use gocb.Go.Word.{add32}

-- A reason, by its identity and its two answers.
pub record Reason : Type 0 where
  pub id : ℕ
  pub allows_non_idempotent : Bool
  pub always : Bool

-- A strategy: from whether the request is idempotent, how often it was retried, and the reason, to the
-- duration of the action; `none` is no action.
abbrev pub Strategy : Type 0
Strategy = Bool → ℕ → Reason → Option ℕ

-- retriableRequestPs
pub record Request : Type 0 where
  pub reasons : List Reason
  pub attempts : ℕ
  pub idempotent : Bool
  pub strategy : Option Strategy

unfoldable pub new_request : Bool → Option Strategy → Request
new_request idempotent strategy = record {
  reasons = [];
  attempts = 0;
  idempotent = idempotent;
  strategy = strategy;
}

-- BestEffortRetryStrategy.RetryAfter: an action that does not retry has the duration 0.
unfoldable pub best_effort : (ℕ → ℕ) → Strategy
best_effort calculator idempotent attempts why =
    if idempotent || why.allows_non_idempotent then some (calculator attempts) else some 0

unfoldable pub has_reason : Reason → List Reason → Bool
has_reason why [] = false
has_reason why (r ∷ rs) = if r.id == why.id then true else has_reason why rs

-- `recordRetryAttempt`
unfoldable pub record_retry : Reason → Request → Request
record_retry why req = record req {
  attempts = add32 req.attempts 1;
  reasons = if has_reason why req.reasons then req.reasons else snoc req.reasons why;
}

-- The end of `retryOrchMaybeRetry`, with the duration of the strategy's action.
unfoldable pub after_action : Option ℕ → Reason → Request → Option ℕ × Request
after_action none why req = (none, req)
after_action (some d) why req = if d == 0 then (none, req) else (some d, record_retry why req)

unfoldable pub ask_strategy : Option Strategy → Reason → Request → Option ℕ × Request
ask_strategy none why req = (none, req)
ask_strategy (some strategy) why req =
    after_action (strategy req.idempotent req.attempts why) why req

-- `retryOrchMaybeRetry`: how long to wait, if at all; `backoff` is gocbcore's controlled backoff.
unfoldable pub maybe_retry : (ℕ → ℕ) → Reason → Request → Option ℕ × Request
maybe_retry backoff why req =
    if why.always
    then (some (backoff req.attempts), record_retry why req)
    else ask_strategy req.strategy why req
