-- ===== src/Threshold/Logged.antt =====
-- From the spans that end to the data that is logged, through all of thresholdlogtracer.go.
use mathlib.Core.List.{reverse-cons}
use gocb.Base.{
  ℕ, ◌-◌, ◌≤◌, ◌<◌, ◌≡◌, refl, ap, ◌∙◌, Option, none, some, List, [], ◌∷◌, ◌++◌, map, reverse,
  arith, ◌==◌, if◌then◌else◌, length, snoc, length-append, length-drop, select,
}
use gocb.Threshold.Order.{top, sort_onto}
use gocb.Threshold.Span.{Span}
use gocb.Threshold.Group.{
  Group, init_group, record_locked, record_op_between, record_op, record_all,
}
use gocb.Threshold.Slowest.{key}
use gocb.Threshold.Recording.{is_slow, record_all-slowest}
use gocb.Threshold.Tracer.{
  Options, with_defaults, new_tracer, Service, kv_service, kv_scan_service, views_service,
  query_service, search_service, analytics_service, management_service, group_of, route_all, Item,
  to_item, Entry, entry_of, build_json_data,
}
use gocb.Threshold.Logging.{
  belongs, route_all-group, group_name, find_entry, WellNamed, build_json_data-drains,
}

record_op-name : (g : Group) (s : Span) → (record_op g s).name ≡ g.name
unfolding record_op record_op_between record_locked
record_op-name g s = ground arith

record_all-name : (g : Group) (ss : List Span) → (record_all g ss).name ≡ g.name
unfolding record_all
record_all-name g [] = refl
record_all-name g (s ∷ ss) = record_all-name (record_op g s) ss ∙ record_op-name g s

abbrev pub threshold : Service → Options → ℕ
threshold kv_service o = o.kv_threshold
threshold kv_scan_service o = o.kv_scan_threshold
threshold views_service o = o.views_threshold
threshold query_service o = o.query_threshold
threshold search_service o = o.search_threshold
threshold analytics_service o = o.analytics_threshold
threshold management_service o = o.management_threshold

new_tracer-group :
    (opts : Option Options) (now : ℕ) (v : Service)
    → let o = with_defaults opts in
      group_of v (new_tracer opts now) ≡ init_group (group_name v) (threshold v o) o.sample_size
unfolding new_tracer
new_tracer-group opts now kv_service = refl
new_tracer-group opts now _ = refl

with_defaults-sample : (opts : Option Options) → 0 < (with_defaults opts).sample_size
unfolding with_defaults
with_defaults-sample opts = ground arith

-- The spans of the service that took at least its threshold, and the slowest few of them.
abbrev pub slow_spans : Service → Options → List Span → List Span
slow_spans v o ss = select (is_slow (threshold v o)) (select (belongs v) ss)

abbrev pub slowest : Service → Options → List Span → List Span
slowest v o ss = top o.sample_size (sort_onto key [] (slow_spans v o ss))

recorded :
    (opts : Option Options) (now : ℕ) (ss : List Span) (v : Service)
    → (group_of v (route_all (new_tracer opts now) ss)).ops ≡ slowest v (with_defaults opts) ss
recorded opts now ss v =
    ap (λ (g : Group). g.ops) (route_all-group v (new_tracer opts now) ss)
    ∙ ap (λ g. (record_all g (select (belongs v) ss)).ops) (new_tracer-group opts now v)
    ∙ (record_all-slowest (group_name v) (threshold v (with_defaults opts))
        (with_defaults opts).sample_size (select (belongs v) ss) (with_defaults-sample opts)).0

named :
    (opts : Option Options) (now : ℕ) (ss : List Span)
    → WellNamed (route_all (new_tracer opts now) ss)
named opts now ss v =
    ap (λ (g : Group). g.name) (route_all-group v (new_tracer opts now) ss)
    ∙ record_all-name (group_of v (new_tracer opts now)) (select (belongs v) ss)
    ∙ ap (λ (g : Group). g.name) (new_tracer-group opts now v)
    ∙ (unfold init_group in refl)

-- The items of spans that stand in ascending order of duration, the last one first.
abbrev pub slowest_first : List Span → List Item
slowest_first [] = []
slowest_first (s ∷ ss) = snoc (slowest_first ss) (to_item s)

abbrev pub entry_for : List Span → Entry
entry_for ops = record { count = length ops; top_requests = slowest_first ops }

map-append : (xs ys : List Span) → map to_item (xs ++ ys) ≡ map to_item xs ++ map to_item ys
map-append [] ys = refl
map-append (x ∷ xs) ys = ap (◌∷◌ (to_item x)) (map-append xs ys)

map-reverse : (ops : List Span) → map to_item (reverse ops) ≡ slowest_first ops
map-reverse [] = refl
map-reverse (s ∷ ss) =
    ap (map to_item) (reverse-cons s ss)
    ∙ map-append (reverse ss) (s ∷ [])
    ∙ ap (λ xs. snoc xs (to_item s)) (map-reverse ss)

length-slowest_first : (ops : List Span) → length (slowest_first ops) ≡ length ops
length-slowest_first [] = refl
length-slowest_first (s ∷ ss) =
    omega (arith, length-append (slowest_first ss) (to_item s ∷ []), length-slowest_first ss)

entry_of-entry_for : (ops : List Span) → entry_of ops ≡ entry_for ops
unfolding entry_of
entry_of-entry_for ops =
    ap (λ items. entry_with (length items) items) (map-reverse ops)
    ∙ ap (λ n. entry_with n (slowest_first ops)) (length-slowest_first ops)
  where
    entry_with : ℕ → List Item → Entry
    entry_with n items = record { count = n; top_requests = items }

-- A new tracer that is given any spans logs, for each service, its slowest spans at or above the
-- threshold: no entry if there are none, and otherwise at most the sample size of them, each as an
-- item, the slowest first, with their number as the count. The groups are empty afterwards.
pub logs_slowest :
    (opts : Option Options) (now : ℕ) (ss : List Span) (v : Service)
    → let logged = build_json_data (route_all (new_tracer opts now) ss) in
      let ops = slowest v (with_defaults opts) ss in
      (find_entry (group_name v) logged.0
        ≡ (if length ops == 0 then none else some (entry_for ops)))
      × (length ops ≤ (with_defaults opts).sample_size)
      × ((group_of v logged.1).ops ≡ [])
logs_slowest opts now ss v =
    let t = route_all (new_tracer opts now) ss in
    let (entry, emptied) = build_json_data-drains t (named opts now ss) v in
    let o = with_defaults opts in
    let all = sort_onto key [] (slow_spans v o ss) in
    (
      entry
          ∙ ap (λ ops. if length ops == 0 then none else some (entry_of ops))
              (recorded opts now ss v)
          ∙ ap (λ e. if length (slowest v o ss) == 0 then none else some e)
              (entry_of-entry_for (slowest v o ss)),
      omega (arith, length-drop (length all - o.sample_size) all),
      ap (λ (g : Group). g.ops) emptied,
    )
