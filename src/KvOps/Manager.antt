-- ===== src/KvOps/Manager.antt =====
-- The manager of an operation (kvOpManagerCore in kvopmanager_core.go): the options that a provider sets
-- one after the other, the first error that they meet, and the timeouts made of them. A duration is an
-- int64 number of nanoseconds, as its pattern.
use gocb.Base.{
  ℕ, ◌+◌, Bool, false, not, ◌&&◌, ◌||◌, Option, none, some, [], ltb, ◌==◌, if◌then◌else◌,
}
use gocb.Go.Word.{lt_int64}
use gocb.Transcoding.Defs.{Bytes, Error, Result, ok, err}
use gocb.KvOps.Level.{
  DurabilityLevel, unknown_level, no_level, LevelError, MemdLevel, memd, no_memd, to_memd,
  is_above_zero,
}

pub data OpError : Type 0 where
  no_mutation_tokens mixed_durability no_transcoder no_timeout : OpError
  bad_level : LevelError → OpError
  encoding : Error → OpError

-- The collection's part in an operation.
pub record Parent : Type 0 where
  pub kv_timeout : ℕ
  pub kv_durable_timeout : ℕ
  pub use_mutation_tokens : Bool

pub record Manager : Type 0 where
  pub parent : Parent
  pub error : Option OpError
  pub timeout : ℕ
  pub deadline : Option ℕ
  pub bytes : Bytes
  pub flags : ℕ
  pub persist_to : ℕ
  pub replicate_to : ℕ
  pub durability_level : ℕ
  pub preserve_ttl : Bool

unfoldable pub new_manager : Parent → Manager
new_manager parent = record {
  parent = parent;
  error = none;
  timeout = 0;
  deadline = none;
  bytes = [];
  flags = 0;
  persist_to = 0;
  replicate_to = 0;
  durability_level = 0;
  preserve_ttl = false;
}

unfoldable pub set_timeout : ℕ → Manager → Manager
set_timeout t m = record m { timeout = t }

unfoldable pub set_preserve_expiry : Bool → Manager → Manager
set_preserve_expiry b m = record m { preserve_ttl = b }

-- `SetValue`, for a transcoder that was set before or not, applied to the value.
unfoldable pub store_encoded : Option (Result (Bytes × ℕ)) → Manager → Manager
store_encoded none m = record m { error = some no_transcoder }
store_encoded (some (err e)) m = record m { error = some (encoding e) }
store_encoded (some (ok (b, f))) m = record m { bytes = b; flags = f }

unfoldable pub set_value : Option (Result (Bytes × ℕ)) → Manager → Manager
set_value encoded m = elim m.error [ some e ↦ m | none ↦ store_encoded encoded m ]

-- The last part of `SetDuraOptions`.
unfoldable pub store_level : ℕ → ℕ → MemdLevel → Manager → Manager
store_level persist_to replicate_to (memd l) m = record m {
  persist_to = persist_to;
  replicate_to = replicate_to;
  durability_level = l;
}
store_level persist_to replicate_to (no_memd e) m = record m {
  persist_to = persist_to;
  replicate_to = replicate_to;
  error = some (bad_level e);
}

abbrev pub or_none : DurabilityLevel → DurabilityLevel
or_none unknown_level = no_level
or_none l = l

abbrev pub observes : ℕ → ℕ → Bool
observes persist_to replicate_to = not (persist_to == 0) || not (replicate_to == 0)

unfoldable pub set_dura_options : ℕ → ℕ → DurabilityLevel → Manager → Manager
set_dura_options persist_to replicate_to level m =
    if observes persist_to replicate_to && not m.parent.use_mutation_tokens
    then record m { error = some no_mutation_tokens }
    else if observes persist_to replicate_to && is_above_zero level
    then record m { error = some mixed_durability }
    else store_level persist_to replicate_to (to_memd (or_none level)) m

-- 1500 ms
abbrev pub durability_timeout_floor : ℕ
durability_timeout_floor = 1_500_000_000

abbrev at_least_floor : ℕ → ℕ
at_least_floor t = if lt_int64 t durability_timeout_floor then durability_timeout_floor else t

unfoldable pub default_timeout : Manager → ℕ
default_timeout m =
    let t =
      if ltb 1 m.durability_level || ltb 0 m.persist_to
      then m.parent.kv_durable_timeout
      else m.parent.kv_timeout in
    if ltb 0 m.durability_level then at_least_floor t else t

-- `getTimeout`, which keeps a timeout that it has raised.
unfoldable pub get_timeout : Manager → ℕ × Manager
get_timeout m =
    if lt_int64 0 m.timeout
    then if ltb 0 m.durability_level
      then (at_least_floor m.timeout, record m { timeout = at_least_floor m.timeout })
      else (m.timeout, m)
    else (default_timeout m, m)

-- `DurabilityTimeout`; `scale` multiplies by 0.9 in floating point.
unfoldable pub durability_timeout : (ℕ → ℕ) → Manager → ℕ
durability_timeout scale m =
    if m.durability_level == 0 then 0 else at_least_floor (scale (get_timeout m).0)

-- `Deadline`, at the time `now`.
unfoldable pub set_deadline : ℕ → Option ℕ → Manager → ℕ × Manager
set_deadline now (some d) m = (d, m)
set_deadline now none m =
    let (t, m') = get_timeout m in (now + t, record m' { deadline = some (now + t) })

unfoldable pub get_deadline : ℕ → Manager → ℕ × Manager
get_deadline now m = set_deadline now m.deadline m

unfoldable pub check_ready : Manager → Option OpError
check_ready m = elim m.error [
  | some e ↦ some e
  | none ↦ if (get_timeout m).0 == 0 then some no_timeout else none
]

-- `NeedsObserve`
unfoldable pub needs_observe : Manager → Bool
needs_observe m = ltb 0 m.persist_to || ltb 0 m.replicate_to
