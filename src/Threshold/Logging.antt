-- ===== src/Threshold/Logging.antt =====
-- What the tracer records and logs for each service (recordOp, buildJSONData, AddRef and DecRef in
-- thresholdlogtracer.go).
use gocb.Base.{
  String, ◌≡◌, refl, sym, ap, subst, ◌∙◌, inl, inr, Bool, true, false, Option, none, some, List, [],
  ◌∷◌, arith, str_eq, str_eq_iff, ◌==◌, if◌then◌else◌, Bool-cases, length, select,
}
use gocb.Threshold.Span.{Span}
use gocb.Threshold.Group.{Group, record_op, record_all}
use gocb.Threshold.Tracer.{
  Tracer, Service, kv_service, kv_scan_service, views_service, query_service, search_service,
  analytics_service, management_service, span_name, group_of, dispatch_to, route, route_all, Entry,
  entry_of, drained, add_entry, build_json_data,
}

-- Is the span one of the service's?
abbrev pub belongs : Service → Span → Bool
belongs v s = str_eq s.service_name (span_name v)

abbrev Routes : Service → Tracer → Span → String → Type 0
Routes v t s name =
    group_of v (dispatch_to name t s)
    ≡ (if str_eq name (span_name v) then record_op (group_of v t) s else group_of v t)

-- A span goes to its own service's group, and to no other.
dispatch_to-Routes : (v : Service) (t : Tracer) (s : Span) (name : String) → Routes v t s name
dispatch_to-Routes v t s name = elim (Bool-cases (str_eq name (span_name v))) [
  | inl e ↦ subst (Routes v t s) (sym ((str_eq_iff name (span_name v)).0 e)) (own v)
  | inr e ↦ rw e (foreign v e)
]
  where
    own : (w : Service) → Routes w t s (span_name w)
    own kv_service = unfold dispatch_to in refl
    own kv_scan_service = unfold dispatch_to in refl
    own views_service = unfold dispatch_to in refl
    own query_service = unfold dispatch_to in refl
    own search_service = unfold dispatch_to in refl
    own analytics_service = unfold dispatch_to in refl
    own management_service = unfold dispatch_to in refl

    foreign :
        (w : Service)
        → str_eq name (span_name w) ≡ false
        → group_of w (dispatch_to name t s) ≡ group_of w t
    foreign kv_service h = unfold dispatch_to in ground arith
    foreign _ h = unfold dispatch_to in ground arith

route-group :
    (v : Service) (t : Tracer) (s : Span)
    → group_of v (route t s) ≡ (if belongs v s then record_op (group_of v t) s else group_of v t)
unfolding route
route-group v t s = dispatch_to-Routes v t s s.service_name

-- A stream of spans reaches each group as if the group saw its own service's spans alone.
pub route_all-group :
    (v : Service) (t : Tracer) (ss : List Span)
    → group_of v (route_all t ss) ≡ record_all (group_of v t) (select (belongs v) ss)
unfolding route_all record_all
route_all-group v t [] = refl
route_all-group v t (s ∷ ss) =
    route_all-group v (route t s) ss
    ∙ ap (λ g. record_all g (select (belongs v) ss)) (route-group v t s)
    ∙ step (str_eq s.service_name (span_name v))
  where
    step :
        (b : Bool)
        → record_all
            (if b then record_op (group_of v t) s else group_of v t)
            (select (belongs v) ss)
          ≡ record_all
              (group_of v t)
              (if b then s ∷ select (belongs v) ss else select (belongs v) ss)
    step true = unfold record_all in refl
    step false = refl

-- The key of a group in the map of groups, and of its entry in the logged data.
abbrev pub group_name : Service → String
group_name management_service = "management"
group_name v = span_name v

-- The entry under a name in the logged data, a map.
pub find_entry : String → List (String × Entry) → Option Entry
find_entry name [] = none
find_entry name ((k, e) ∷ rest) = if str_eq k name then some e else find_entry name rest

-- Every group has its key for a name.
abbrev pub WellNamed : Tracer → Type 0
WellNamed t = (v : Service) → (group_of v t).name ≡ group_name v

find_entry-add :
    (g : Group) (name : String) (rest : List (String × Entry))
    → find_entry name (add_entry g rest) ≡ (
        if str_eq g.name name
        then (if length g.ops == 0 then find_entry name rest else some (entry_of g.ops))
        else find_entry name rest)
unfolding add_entry find_entry
find_entry-add g name rest = ground arith

find_entry-nil : (name : String) → find_entry name [] ≡ none
unfolding find_entry
find_entry-nil name = refl

abbrev pub logged_of : Group → Option Entry
logged_of g = if length g.ops == 0 then none else some (entry_of g.ops)

-- If each group of a tracer has its service's name, then logging gives each service that recorded
-- something an entry of its own, and empties every group.
pub build_json_data-drains :
    (t : Tracer)
    → WellNamed t
    → (v : Service)
    → (find_entry (group_name v) (build_json_data t).0 ≡ logged_of (group_of v t))
      × (group_of v (build_json_data t).1 ≡ drained (group_of v t))
unfolding build_json_data
build_json_data-drains t w v = (entry v, emptied v)
  where
    entry :
        (u : Service) → find_entry (group_name u) (build_json_data t).0 ≡ logged_of (group_of u t)
    entry kv_service = simp (
      w kv_service,
      w kv_scan_service,
      w views_service,
      w query_service,
      w search_service,
      w analytics_service,
      w management_service,
      find_entry-add,
      find_entry-nil,
    )
    entry _ = simp (
      w kv_service,
      w kv_scan_service,
      w views_service,
      w query_service,
      w search_service,
      w analytics_service,
      w management_service,
      find_entry-add,
      find_entry-nil,
    )

    emptied : (u : Service) → group_of u (build_json_data t).1 ≡ drained (group_of u t)
    emptied kv_service = refl
    emptied _ = refl
