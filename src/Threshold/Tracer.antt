-- ===== src/Threshold/Tracer.antt =====
-- The tracer itself (ThresholdLoggingTracer in thresholdlogtracer.go): its options, its seven groups,
-- its references, the end of a span and the data that it logs. The map of groups is made once and
-- never changed, so it is a record with a field for each key; times and the log sink are outside.
use mathlib.Core.Option.{get_or}
use gocb.Base.{
  ℕ, ◌+◌, ◌-◌, ◌*◌, ◌/◌, ◌%◌, ◌^◌, String, Bool, true, false, ◌&&◌, Option, none, some, List, [],
  ◌∷◌, map, reverse, str_eq, str_append, ltb, ◌==◌, if◌then◌else◌, length,
}
use gocb.Go.Word.{add32, sub32}
use gocb.Threshold.Span.{Span, finish, absorb, is_set}
use gocb.Threshold.Group.{Group, init_group, record_op}

pub record Options : Type 0 where
  pub interval : ℕ
  pub sample_size : ℕ
  pub kv_threshold : ℕ
  pub kv_scan_threshold : ℕ
  pub views_threshold : ℕ
  pub query_threshold : ℕ
  pub search_threshold : ℕ
  pub analytics_threshold : ℕ
  pub management_threshold : ℕ

abbrev pub no_options : Options
no_options = record {
  interval = 0;
  sample_size = 0;
  kv_threshold = 0;
  kv_scan_threshold = 0;
  views_threshold = 0;
  query_threshold = 0;
  search_threshold = 0;
  analytics_threshold = 0;
  management_threshold = 0;
}

abbrev pub second : ℕ
second = 1_000_000_000

abbrev or_default : ℕ → ℕ → ℕ
or_default n d = if n == 0 then d else n

-- The defaults that `NewThresholdLoggingTracer` fills in; no options at all are empty options.
unfoldable pub with_defaults : Option Options → Options
with_defaults opts =
    let o = get_or opts no_options in
    record {
      interval = or_default o.interval (10 * second);
      sample_size = or_default o.sample_size 10;
      kv_threshold = or_default o.kv_threshold 500_000_000;
      kv_scan_threshold = or_default o.kv_scan_threshold second;
      views_threshold = or_default o.views_threshold second;
      query_threshold = or_default o.query_threshold second;
      search_threshold = or_default o.search_threshold second;
      analytics_threshold = or_default o.analytics_threshold second;
      management_threshold = or_default o.management_threshold second;
    }

pub record Tracer : Type 0 where
  pub ref_count : ℕ
  pub logging : Bool
  pub next_tick : ℕ
  pub options : Options
  pub kv : Group
  pub kv_scan : Group
  pub views : Group
  pub query : Group
  pub search_ops : Group
  pub analytics : Group
  pub management : Group

unfoldable pub new_tracer : Option Options → ℕ → Tracer
unfolding init_group
new_tracer opts now =
    let o = with_defaults opts in
    record {
      ref_count = 0;
      logging = false;
      next_tick = now + o.interval;
      options = o;
      kv = init_group "kv" o.kv_threshold o.sample_size;
      kv_scan = init_group "kv_scan" o.kv_scan_threshold o.sample_size;
      views = init_group "views" o.views_threshold o.sample_size;
      query = init_group "query" o.query_threshold o.sample_size;
      search_ops = init_group "search" o.search_threshold o.sample_size;
      analytics = init_group "analytics" o.analytics_threshold o.sample_size;
      management = init_group "management" o.management_threshold o.sample_size;
    }

-- The first reference starts the logging routine, and the last one to go stops it.
unfoldable pub add_ref : Tracer → Tracer
add_ref t =
    let n = add32 t.ref_count 1 in
    record t { ref_count = n; logging = if n == 1 then true else t.logging }

unfoldable pub dec_ref : Tracer → Tracer
dec_ref t =
    let n = sub32 t.ref_count 1 in
    record t { ref_count = n; logging = if n == 0 then false else t.logging }

-- The services with a group, and the names that spans give them.
pub data Service : Type 0 where
  kv_service kv_scan_service views_service query_service search_service : Service
  analytics_service management_service : Service

abbrev pub span_name : Service → String
span_name kv_service = "kv"
span_name kv_scan_service = "kv_scan"
span_name views_service = "views"
span_name query_service = "query"
span_name search_service = "search"
span_name analytics_service = "analytics"
span_name management_service = "mgmt"

-- `t.groups[…]`
abbrev pub group_of : Service → Tracer → Group
group_of kv_service t = t.kv
group_of kv_scan_service t = t.kv_scan
group_of views_service t = t.views
group_of query_service t = t.query
group_of search_service t = t.search_ops
group_of analytics_service t = t.analytics
group_of management_service t = t.management

-- The switch on the service's name in the tracer's `recordOp`.
unfoldable pub dispatch_to : String → Tracer → Span → Tracer
dispatch_to name t s =
    if str_eq name "mgmt"
    then record t { management = record_op t.management s }
    else if str_eq name "kv"
    then record t { kv = record_op t.kv s }
    else if str_eq name "kv_scan"
    then record t { kv_scan = record_op t.kv_scan s }
    else if str_eq name "views"
    then record t { views = record_op t.views s }
    else if str_eq name "query"
    then record t { query = record_op t.query s }
    else if str_eq name "search"
    then record t { search_ops = record_op t.search_ops s }
    else if str_eq name "analytics"
    then record t { analytics = record_op t.analytics s }
    else t

unfoldable pub route : Tracer → Span → Tracer
route t s = dispatch_to s.service_name t s

unfoldable pub route_all : Tracer → List Span → Tracer
route_all t [] = t
route_all t (s ∷ ss) = route_all (route t s) ss

abbrev absorb_into : Span → Option Span → Option Span
absorb_into n none = none
absorb_into n (some p) = some (absorb n p)

-- `End`: the span `n` after `since` nanoseconds, its parent and the tracer.
unfoldable pub end_span : ℕ → Span → Option Span → Tracer → Span × Option Span × Tracer
end_span since n parent t =
    let n' = finish since n in
    (n', absorb_into n' parent, if is_set n'.service_name then route t n' else t)

pub record Item : Type 0 where
  pub operation_name : String
  pub total_time_us : ℕ
  pub encode_duration_us : ℕ
  pub dispatch_duration_us : ℕ
  pub server_duration_us : ℕ
  pub last_remote_address : String
  pub last_local_address : String
  pub last_dispatch_duration_us : ℕ
  pub last_server_duration_us : ℕ
  pub last_operation_id : String
  pub last_local_id : String

pub record Entry : Type 0 where
  pub count : ℕ
  pub top_requests : List Item

-- `uint64(d / time.Microsecond)`: int64 division rounds towards 0.
abbrev pub micros : ℕ → ℕ
micros d = if ltb d (2 ^ 63) then d / 1000 else (2 ^ 64 - (2 ^ 64 - d) / 1000) % 2 ^ 64

-- An address with its port, if both are known.
with_port : String → String → String
with_port host port =
    if is_set host && is_set port then str_append (str_append host ":") port else host

unfoldable pub to_item : Span → Item
unfolding with_port
to_item s = record {
  operation_name = s.op_name;
  total_time_us = micros s.duration;
  encode_duration_us = micros s.total_encode_duration;
  dispatch_duration_us = micros s.total_dispatch_duration;
  server_duration_us = micros s.total_server_duration;
  last_remote_address = with_port s.last_dispatch_peer s.last_dispatch_peer_port;
  last_local_address = with_port s.last_dispatch_local s.last_dispatch_local_port;
  last_dispatch_duration_us = micros s.last_dispatch_duration;
  last_server_duration_us = micros s.last_server_duration;
  last_operation_id = s.last_operation_id;
  last_local_id = s.last_local_id;
}

-- The loop over a group's operations, from the last one down to the first.
unfoldable pub entry_of : List Span → Entry
entry_of ops =
    let items = map to_item (reverse ops) in record { count = length items; top_requests = items }

abbrev pub drained : Group → Group
drained g = record g { ops = [] }

-- A group with no operations adds no entry.
unfoldable pub add_entry : Group → List (String × Entry) → List (String × Entry)
add_entry g rest = if length g.ops == 0 then rest else (g.name, entry_of g.ops) ∷ rest

-- `buildJSONData`: the entries that are logged, and the tracer with its groups emptied.
unfoldable pub build_json_data : Tracer → List (String × Entry) × Tracer
build_json_data t = (
  add_entry t.kv (
      add_entry t.kv_scan (
        add_entry t.views (
          add_entry t.query
            (add_entry t.search_ops (add_entry t.analytics (add_entry t.management [])))))),
  record t {
    kv = drained t.kv;
    kv_scan = drained t.kv_scan;
    views = drained t.views;
    query = drained t.query;
    search_ops = drained t.search_ops;
    analytics = drained t.analytics;
    management = drained t.management;
  },
)
