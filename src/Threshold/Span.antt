-- ===== src/Threshold/Span.antt =====
-- A span of the threshold tracer (thresholdLogSpan in thresholdlogtracer.go). Durations are int64
-- nanoseconds, kept as 64-bit patterns; the clock is what `End` measures, an argument here.
use gocb.Base.{ℕ, String, Bool, not, ◌||◌, str_eq, if◌then◌else◌}
use gocb.Go.Word.{lt_int64, add64}

pub record Span : Type 0 where
  pub op_name : String
  pub service_name : String
  pub peer_address : String
  pub local_address : String
  pub peer_port : String
  pub local_port : String
  pub server_duration : ℕ
  pub duration : ℕ
  pub total_server_duration : ℕ
  pub total_dispatch_duration : ℕ
  pub total_encode_duration : ℕ
  pub last_dispatch_peer : String
  pub last_dispatch_local : String
  pub last_dispatch_peer_port : String
  pub last_dispatch_local_port : String
  pub last_dispatch_duration : ℕ
  pub last_server_duration : ℕ
  pub last_operation_id : String
  pub last_local_id : String

abbrev pub new_span : String → Span
new_span name = record {
  op_name = name;
  service_name = "";
  peer_address = "";
  local_address = "";
  peer_port = "";
  local_port = "";
  server_duration = 0;
  duration = 0;
  total_server_duration = 0;
  total_dispatch_duration = 0;
  total_encode_duration = 0;
  last_dispatch_peer = "";
  last_dispatch_local = "";
  last_dispatch_peer_port = "";
  last_dispatch_local_port = "";
  last_dispatch_duration = 0;
  last_server_duration = 0;
  last_operation_id = "";
  last_local_id = "";
}

-- A value of an attribute: the two types that the tracer casts to, and any other.
pub data Attribute : Type 0 where
  text : String → Attribute
  time : ℕ → Attribute
  other : Attribute

-- A failed type assertion leaves the zero value behind.
abbrev pub as_text : Attribute → String
as_text (text s) = s
as_text (time d) = ""
as_text other = ""

abbrev pub as_time : Attribute → ℕ
as_time (text s) = 0
as_time (time d) = d
as_time other = 0

-- The attribute keys that `SetAttribute` acts on.
pub data Key : Type 0 where
  server_duration_key service_key peer_name_key host_name_key operation_id_key : Key
  local_id_key peer_port_key host_port_key other_key : Key

unfoldable pub set_attribute : Key → Attribute → Span → Span
set_attribute server_duration_key v n = record n { server_duration = as_time v }
set_attribute service_key v n = record n { service_name = as_text v }
set_attribute peer_name_key v n = record n { peer_address = as_text v }
set_attribute host_name_key v n = record n { local_address = as_text v }
set_attribute operation_id_key v n = record n { last_operation_id = as_text v }
set_attribute local_id_key v n = record n { last_local_id = as_text v }
set_attribute peer_port_key v n = record n { peer_port = as_text v }
set_attribute host_port_key v n = record n { local_port = as_text v }
set_attribute other_key v n = n

abbrev pub is_set : String → Bool
is_set s = not (str_eq s "")

abbrev pub span_name_dispatch : String
span_name_dispatch = "dispatch_to_server"

abbrev pub span_name_encoding : String
span_name_encoding = "request_encoding"

dispatched : Span → Span
dispatched n = record n {
  total_dispatch_duration = add64 n.total_dispatch_duration n.duration;
  last_dispatch_peer = n.peer_address;
  last_dispatch_local = n.local_address;
  last_dispatch_peer_port = n.peer_port;
  last_dispatch_local_port = n.local_port;
  last_dispatch_duration = n.duration;
  last_server_duration = n.server_duration;
}

-- The part of `End` that completes the span itself; `since` is the time since it began.
unfoldable pub finish : ℕ → Span → Span
unfolding dispatched
finish since n =
    let timed = record n {
      duration = since;
      total_server_duration = add64 n.total_server_duration n.server_duration;
    } in
    let sent = if str_eq n.op_name span_name_dispatch then dispatched timed else timed in
    if str_eq n.op_name span_name_encoding
    then record sent { total_encode_duration = add64 sent.total_encode_duration sent.duration }
    else sent

-- The part of `End` that adds the child `n` into its parent `p`.
unfoldable pub absorb : Span → Span → Span
absorb n p = record p {
  total_server_duration = add64 p.total_server_duration n.total_server_duration;
  total_dispatch_duration = add64 p.total_dispatch_duration n.total_dispatch_duration;
  total_encode_duration = add64 p.total_encode_duration n.total_encode_duration;
  last_dispatch_peer =
      if is_set n.last_dispatch_peer || lt_int64 0 n.last_dispatch_duration
      then n.last_dispatch_peer
      else p.last_dispatch_peer;
  last_dispatch_duration =
      if is_set n.last_dispatch_peer || lt_int64 0 n.last_dispatch_duration
      then n.last_dispatch_duration
      else p.last_dispatch_duration;
  last_server_duration =
      if is_set n.last_dispatch_peer || lt_int64 0 n.last_server_duration
      then n.last_server_duration
      else p.last_server_duration;
  last_dispatch_local =
      if is_set n.last_dispatch_local then n.last_dispatch_local else p.last_dispatch_local;
  last_operation_id =
      if is_set n.last_operation_id then n.last_operation_id else p.last_operation_id;
  last_local_id = if is_set n.last_local_id then n.last_local_id else p.last_local_id;
  last_dispatch_local_port =
      if is_set n.last_dispatch_local_port
      then n.last_dispatch_local_port
      else p.last_dispatch_local_port;
  last_dispatch_peer_port =
      if is_set n.last_dispatch_peer_port
      then n.last_dispatch_peer_port
      else p.last_dispatch_peer_port;
}
