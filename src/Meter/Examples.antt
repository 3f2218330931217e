-- ===== src/Meter/Examples.antt =====
-- A concrete histogram (logging_meter.go).
use gocb.Base.{◌≡◌, List, [], ◌∷◌, arith}
use gocb.Meter.Histogram.{Event, Scale, aggregates, new_histogram, records, run_events}
use gocb.Meter.Conserved.{accounted, run_events-accounted}

-- Four bins; all values between the two bounds go to the third.
abbrev a_scale : Scale
a_scale = record { max_value = 2_000_000; start_value = 1000; log_bin = λ v. 2 }

-- A value comes into a bin that has been swapped already.
abbrev some_events : List Event
some_events =
    records 10
    ∷ records 5000
    ∷ aggregates
    ∷ records 20
    ∷ aggregates
    ∷ aggregates
    ∷ aggregates
    ∷ aggregates
    ∷ []

run_events-accounted_example : accounted (run_events a_scale some_events (new_histogram 4)) ≡ 3
run_events-accounted_example =
    run_events-accounted a_scale 4 some_events (omega arith, λ v lt le. omega arith) (omega arith)
