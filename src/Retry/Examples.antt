-- ===== src/Retry/Examples.antt =====
-- Concrete statuses and retries (error_ps.go, retry.go).
use gocb.Base.{
  ℕ, ◌+◌, ◌^◌, ◌<◌, ◌≡◌, refl, ◌↔◌, true, false, Option, none, some, List, [], ◌∷◌, arith,
  if◌then◌else◌, length,
}
use gocb.Retry.Records.{Recorded}
use gocb.Retry.Errors.{
  Error, Status, ambiguous_timeout, code_error, deadline_exceeded, detail_error, is_timeout,
  map_error, map_status, other_detail, service_not_available, status, unambiguous_timeout,
  unavailable,
}
use gocb.Retry.Request.{
  Reason, Request, after_action, ask_strategy, best_effort, has_reason, maybe_retry, new_request,
  record_retry,
}
use gocb.Retry.Loop.{
  Attempt, after_attempt, after_decision, after_reason, after_wait, attempt, fails, handle_error,
  over, result, send, succeeds,
}
use gocb.Retry.Timeouts.{map_status-is_timeout}
use gocb.Retry.Permission.{Sent, send-Sent}

abbrev slow_status : Status
slow_status = record { code = deadline_exceeded; detail = some other_detail }

map_status-is_timeout_example :
    ((is_timeout (map_status slow_status false) ≡ true) ↔ (
      (slow_status.code ≡ deadline_exceeded)
      × (detail_error slow_status.code slow_status.detail ≡ none)))
    × (is_timeout (map_status slow_status false) ≡ true
        → map_status slow_status false ≡ (if false then unambiguous_timeout else ambiguous_timeout))
map_status-is_timeout_example = map_status-is_timeout slow_status false

abbrev not_available : Reason
not_available = record { id = 2; allows_non_idempotent = true; always = false }

abbrev reason_of : Error → Option Reason
reason_of service_not_available = some not_available
reason_of _ = none

abbrev one_failure : List (Attempt ℕ)
one_failure = fails (status (record { code = unavailable; detail = none })) over ∷ succeeds 8 ∷ []

abbrev a_request : Request
a_request = new_request false (some (best_effort (λ n. 5)))

send_test :
    ((send (λ n. 1) reason_of one_failure a_request).0 ≡ some (result 8))
    × ((send (λ n. 1) reason_of one_failure a_request).2 ≡ 2)
unfolding new_request send after_attempt attempt handle_error map_error map_status detail_error
    code_error after_reason maybe_retry ask_strategy best_effort after_action after_decision
    after_wait record_retry has_reason
send_test = (refl, refl)

a_request-Recorded : Recorded a_request
unfolding new_request
a_request-Recorded = record { distinct = tt; fewer = omega arith }

a_request_strategy : a_request.strategy ≡ some (best_effort (λ n. 5))
unfolding new_request
a_request_strategy = refl

a_request_room : a_request.attempts + length one_failure < 2 ^ 32
unfolding new_request
a_request_room = omega arith

send-Sent_example :
    Sent
      (λ n. 1)
      reason_of
      (λ n. 5)
      one_failure
      a_request
      (send (λ n. 1) reason_of one_failure a_request).0
      (send (λ n. 1) reason_of one_failure a_request).1
      (send (λ n. 1) reason_of one_failure a_request).2
send-Sent_example =
    send-Sent (λ n. 1) reason_of (λ n. 5) one_failure a_request a_request_strategy
      a_request-Recorded a_request_room
