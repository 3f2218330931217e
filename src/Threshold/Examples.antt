-- ===== src/Threshold/Examples.antt =====
-- Concrete runs of the threshold tracer (thresholdlogtracer.go).
use mathlib.Core.List.{Perm}
use gocb.Base.{
  ℕ, ◌^◌, ◌≤◌, ◌<◌, ◌≡◌, refl, ◌⊎◌, not, Option, none, some, List, [], ◌∷◌, arith, ◌==◌,
  if◌then◌else◌, length, select,
}
use gocb.Go.Sort.{search_loop, search_slice}
use gocb.Go.Slice.{copy_at}
use gocb.Threshold.Order.{top, IsSorted, insert, sort_onto}
use gocb.Threshold.Span.{Span, new_span}
use gocb.Threshold.Group.{
  Group, init_group, too_fast, place, record_locked, record_op_between, record_op, record_all,
}
use gocb.Threshold.Slowest.{key, IsValid}
use gocb.Threshold.Recording.{is_slow, record_op_linearizable, record_all-slowest}
use gocb.Threshold.Tracer.{
  Options, no_options, with_defaults, Tracer, new_tracer, kv_service, group_of, route_all,
  build_json_data,
}
use gocb.Threshold.Logging.{group_name, WellNamed, find_entry}
use gocb.Threshold.Logged.{slowest, entry_for, logs_slowest}
use gocb.Threshold.Lifetime.{add, drop_ref, held, apply, apply-held}
use gocb.Threshold.Totals.{
  Request, request, nil, cons, ended, Adds, sum_request, own_dispatch, own_encode, own_server,
  ended-Adds,
}

abbrev lasting : ℕ → Span
lasting d = record (new_span "get") { duration = d; service_name = "kv" }

abbrev some_spans : List Span
some_spans = lasting 7 ∷ lasting 2 ∷ lasting 9 ∷ lasting 5 ∷ lasting 8 ∷ []

abbrev two_slow : Group
two_slow = record { name = "kv"; floor = 4; ops = lasting 7 ∷ lasting 9 ∷ []; cap_ops = 2 }

record_all_test : (record_all (init_group "kv" 4 2) some_spans).ops ≡ lasting 8 ∷ lasting 9 ∷ []
unfolding record_all record_op record_op_between record_locked too_fast place init_group
    search_slice search_loop copy_at insert
record_all_test = refl

two_slow-IsValid : IsValid two_slow
two_slow-IsValid = record { sorted = ground arith; bounded = omega arith; roomy = omega arith }

-- Between the locks another goroutine has recorded an operation that took longer.
record_op_linearizable_example :
    ((record_op two_slow (lasting 8) ≡ two_slow)
      × (record_op_between two_slow
            (record two_slow { ops = lasting 9 ∷ lasting 12 ∷ [] })
            (lasting 8)
          ≡ record two_slow { ops = lasting 9 ∷ lasting 12 ∷ [] }))
    ⊎ (record_op_between two_slow
          (record two_slow { ops = lasting 9 ∷ lasting 12 ∷ [] })
          (lasting 8)
        ≡ record_op (record two_slow { ops = lasting 9 ∷ lasting 12 ∷ [] }) (lasting 8))
record_op_linearizable_example =
    record_op_linearizable two_slow (record two_slow { ops = lasting 9 ∷ lasting 12 ∷ [] })
      (lasting 8) refl

record_all-slowest_example :
    ((record_all (init_group "kv" 4 2) some_spans).ops
      ≡ top 2 (sort_onto key [] (select (is_slow 4) some_spans)))
    × IsSorted key (sort_onto key [] (select (is_slow 4) some_spans))
    × Perm (sort_onto key [] (select (is_slow 4) some_spans)) (select (is_slow 4) some_spans)
record_all-slowest_example = record_all-slowest "kv" 4 2 some_spans (omega arith)

abbrev small_sample : Options
small_sample = record no_options { sample_size = 2; kv_threshold = 4 }

new_tracer-WellNamed : (opts : Option Options) (now : ℕ) → WellNamed (new_tracer opts now)
unfolding new_tracer init_group
new_tracer-WellNamed opts now kv_service = refl
new_tracer-WellNamed opts now _ = refl

abbrev fresh : Tracer
fresh = new_tracer none 0

logs_slowest_example :
    let logged = build_json_data (route_all (new_tracer (some small_sample) 0) some_spans) in
    let ops = slowest kv_service (with_defaults (some small_sample)) some_spans in
    (find_entry (group_name kv_service) logged.0
      ≡ (if length ops == 0 then none else some (entry_for ops)))
    × (length ops ≤ (with_defaults (some small_sample)).sample_size)
    × ((group_of kv_service logged.1).ops ≡ [])
logs_slowest_example = logs_slowest (some small_sample) 0 some_spans kv_service

counted : (fresh.ref_count < 2 ^ 31) × (fresh.logging ≡ not (fresh.ref_count == 0))
unfolding new_tracer
counted = (omega arith, refl)

held_two : held fresh.ref_count (add ∷ add ∷ drop_ref ∷ []) ≡ some 1
unfolding new_tracer held
held_two = refl

apply-held_example :
    ((apply fresh (add ∷ add ∷ drop_ref ∷ [])).ref_count ≡ 1)
    × ((apply fresh (add ∷ add ∷ drop_ref ∷ [])).logging ≡ not (1 == 0))
apply-held_example = apply-held fresh (add ∷ add ∷ drop_ref ∷ []) 1 counted.0 counted.1 held_two

-- A request that encodes for 3 ns and then waits for a server for 40 ns.
abbrev a_request : Request
a_request = request (new_span "get") 50 (
    cons (request (new_span "request_encoding") 3 nil)
      (cons (request (record (new_span "dispatch_to_server") { server_duration = 20 }) 40 nil) nil))

ended-Adds_example :
    Adds
      (ended a_request)
      (sum_request own_dispatch a_request)
      (sum_request own_encode a_request)
      (sum_request own_server a_request)
ended-Adds_example = ended-Adds a_request
