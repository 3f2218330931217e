-- ===== src/Replicas/Examples.antt =====
-- Concrete schedules of replies (collection_crud.go).
use gocb.Base.{ℕ, ◌≡◌, refl, List, [], ◌∷◌, arith}
use gocb.Replicas.Results.{
  Event, close_called, close_wakes, failed, result, run_events, start_results,
}
use gocb.Replicas.Safety.{IsSafe, before_close, run_events-IsSafe, run_events_open}

-- Three servers; the reader closes after the first result.
abbrev a_schedule : List (Event ℕ)
a_schedule = result 4 ∷ close_called ∷ failed ∷ result 9 ∷ close_wakes ∷ close_called ∷ []

run_events-IsSafe_example :
    IsSafe (run_events a_schedule (start_results 3))
    × ((run_events a_schedule (start_results 3)).sent ≡ before_close a_schedule)
run_events-IsSafe_example = run_events-IsSafe 3 a_schedule (omega arith) (omega arith) (omega arith)

abbrev one_failure : List (Event ℕ)
one_failure = result 4 ∷ failed ∷ []

run_events_open_example :
    ((run_events one_failure (start_results 2)).res_closed ≡ 0)
    × ((run_events one_failure (start_results 2)).children_closed ≡ 1)
run_events_open_example =
    run_events_open 2 one_failure (omega arith) (omega arith) (omega arith) refl
