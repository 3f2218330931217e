-- ===== src/Retry/Loop.antt =====
-- The loop that sends a request until it succeeds or must not be sent again (handleRetriableRequest and
-- handleRetriableRequestError in retry.go). What the server answers, and how the wait before the next
-- attempt ends, is a list of attempts.
use gocb.Base.{ℕ, suc, Option, none, some, List, [], ◌∷◌, if◌then◌else◌}
use gocb.Retry.Errors.{Error, CallError, map_error, is_timeout, unambiguous_timeout}
use gocb.Retry.Request.{Reason, Request, maybe_retry}

-- How the wait ends: the time is over, the context's deadline passes, or the context is cancelled.
pub data Wait : Type 0 where
  over deadline cancelled : Wait

-- What one attempt meets: a result that is accepted, or an error of the call or of the result.
pub data Attempt (A : Type 0) : Type 0 where
  succeeds : A → Attempt A
  fails : CallError → Wait → Attempt A

pub data Answer (A : Type 0) : Type 0 where
  result : A → Answer A
  generic : Error → Answer A
  timeout : Error → List Reason → ℕ → Answer A
  request_cancelled : Answer A

abbrev pub timed_out : {A : Type 0} → Error → Request → Answer A
timed_out e req = timeout e req.reasons req.attempts

module _ {A : Type 0} (backoff : ℕ → ℕ) (reason_of : Error → Option Reason) where
  -- The select behind the decision to retry; `none` is the signal to go on.
  unfoldable pub after_wait : Wait → Request → Option (Answer A)
  after_wait over req = none
  after_wait deadline req = some (timed_out unambiguous_timeout req)
  after_wait cancelled req = some request_cancelled

  unfoldable pub after_decision : Error → Wait → Option ℕ × Request → Option (Answer A) × Request
  after_decision e w (none, req) = (some (generic e), req)
  after_decision e w (some d, req) = (after_wait w req, req)

  unfoldable pub after_reason : Error → Wait → Option Reason → Request → Option (Answer A) × Request
  after_reason e w none req = (some (generic e), req)
  after_reason e w (some why) req = after_decision e w (maybe_retry backoff why req)

  -- `handleRetriableRequestError`, for the error that the mapping made.
  unfoldable pub handle_error : Error → Wait → Request → Option (Answer A) × Request
  handle_error e w req =
      if is_timeout e then (some (timed_out e req), req) else after_reason e w (reason_of e) req

  unfoldable pub attempt : Attempt A → Request → Option (Answer A) × Request
  attempt (succeeds a) req = (some (result a), req)
  attempt (fails e w) req = handle_error (map_error e req.idempotent) w req

  -- The answer of an attempt ends the loop; `rest` is the loop after a retry.
  unfoldable pub after_attempt :
      Option (Answer A) × Request
      → (Request → Option (Answer A) × Request × ℕ)
      → Option (Answer A) × Request × ℕ
  after_attempt (some a, req) rest = (some a, req, 1)
  after_attempt (none, req) rest = ((rest req).0, (rest req).1, suc (rest req).2)

  -- `handleRetriableRequest`, with the number of times that the request is sent. There is no answer if
  -- every attempt given is one that is retried.
  unfoldable pub send : List (Attempt A) → Request → Option (Answer A) × Request × ℕ
  send [] req = (none, req, 0)
  send (a ∷ as') req = after_attempt (attempt a req) (λ r. send as' r)
