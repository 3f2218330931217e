-- ===== src/KvOps/Requests.antt =====
-- What the methods of the key-value provider ask of gocbcore (kvprovider_core.go): each sets up a
-- manager with its options, and makes a request of it.
use gocb.Base.{ℕ, ◌-◌, ◌/◌, ◌%◌, ◌^◌, Bool, false, some, [], if◌then◌else◌}
use gocb.Go.Word.{lt_int64}
use gocb.Transcoding.Defs.{Bytes, Result}
use gocb.KvOps.Level.{DurabilityLevel}
use gocb.KvOps.Manager.{
  Manager, Parent, durability_timeout, get_deadline, new_manager, set_dura_options, set_timeout,
  set_value,
}
use gocb.KvOps.Expiry.{duration_to_expiry, second}

-- The method of the agent that is called.
pub data Command : Type 0 where
  add_doc set_doc replace_doc delete_doc prepend_doc append_doc increment_doc decrement_doc :
      Command
  touch_doc unlock_doc get_doc get_and_touch_doc get_and_lock_doc get_meta : Command

-- The options of a command in gocbcore; what its own struct does not have stays zero.
pub record Request : Type 0 where
  pub command : Command
  pub value : Bytes
  pub flags : ℕ
  pub expiry : ℕ
  pub cas : ℕ
  pub preserve_expiry : Bool
  pub durability_level : ℕ
  pub durability_timeout_of : ℕ
  pub deadline : ℕ
  pub delta : ℕ
  pub initial : ℕ
  pub lock_time : ℕ

-- The options of the mutations, InsertOptions to DecrementOptions; each method reads those it has.
pub record MutationOptions : Type 0 where
  pub timeout : ℕ
  pub expiry : ℕ
  pub cas : ℕ
  pub persist_to : ℕ
  pub replicate_to : ℕ
  pub durability_level : DurabilityLevel
  pub preserve_expiry : Bool

module _ (parent : Parent) (o : MutationOptions) where
  -- The manager of a mutation without a transcoder, and of one that has encoded its value.
  unfoldable pub mutation_manager : Manager
  mutation_manager =
      set_timeout o.timeout
        (set_dura_options o.persist_to o.replicate_to o.durability_level (new_manager parent))

  unfoldable pub value_manager : Result (Bytes × ℕ) → Manager
  value_manager encoded = set_timeout o.timeout (
      set_dura_options o.persist_to o.replicate_to o.durability_level
        (set_value (some encoded) (new_manager parent)))

-- Of an operation that reads, touches or unlocks.
unfoldable pub plain_manager : Parent → ℕ → Manager
plain_manager parent timeout = set_timeout timeout (new_manager parent)

-- A request at the time `now`.
module _ (now : ℕ) (scale : ℕ → ℕ) (m : Manager) where
  unfoldable pub plain_request : Command → Request
  plain_request c = record {
    command = c;
    value = [];
    flags = 0;
    expiry = 0;
    cas = 0;
    preserve_expiry = false;
    durability_level = 0;
    durability_timeout_of = 0;
    deadline = (get_deadline now m).0;
    delta = 0;
    initial = 0;
    lock_time = 0;
  }

  unfoldable pub durable_request : Command → Request
  durable_request c = record (plain_request c) {
    durability_level = m.durability_level;
    durability_timeout_of = durability_timeout scale m;
  }

  unfoldable pub insert_request : MutationOptions → Request
  insert_request o = record (durable_request add_doc) {
    value = m.bytes;
    flags = m.flags;
    expiry = duration_to_expiry now o.expiry;
  }

  unfoldable pub upsert_request : MutationOptions → Request
  upsert_request o = record (durable_request set_doc) {
    value = m.bytes;
    flags = m.flags;
    expiry = duration_to_expiry now o.expiry;
    preserve_expiry = m.preserve_ttl;
  }

  unfoldable pub replace_request : MutationOptions → Request
  replace_request o = record (durable_request replace_doc) {
    value = m.bytes;
    flags = m.flags;
    expiry = duration_to_expiry now o.expiry;
    cas = o.cas;
    preserve_expiry = m.preserve_ttl;
  }

  unfoldable pub remove_request : MutationOptions → Request
  remove_request o = record (durable_request delete_doc) { cas = o.cas }

  unfoldable pub prepend_request : Bytes → MutationOptions → Request
  prepend_request b o = record (durable_request prepend_doc) { value = b; cas = o.cas }

  unfoldable pub append_request : Bytes → MutationOptions → Request
  append_request b o = record (durable_request append_doc) { value = b; cas = o.cas }

  -- An initial value below 0, an int64, stands for none: all bits are set.
  unfoldable pub real_initial : ℕ → ℕ
  real_initial i = if lt_int64 i 0 then 2 ^ 64 - 1 else i

  unfoldable pub increment_request : ℕ → ℕ → MutationOptions → Request
  increment_request delta initial o = record (durable_request increment_doc) {
    delta = delta;
    initial = real_initial initial;
    expiry = duration_to_expiry now o.expiry;
  }

  unfoldable pub decrement_request : ℕ → ℕ → MutationOptions → Request
  decrement_request delta initial o = record (durable_request decrement_doc) {
    delta = delta;
    initial = real_initial initial;
    expiry = duration_to_expiry now o.expiry;
  }

  unfoldable pub touch_request : ℕ → Request
  touch_request expiry = record (plain_request touch_doc) { expiry = duration_to_expiry now expiry }

  unfoldable pub unlock_request : ℕ → Request
  unlock_request cas = record (plain_request unlock_doc) { cas = cas }

  unfoldable pub get_and_touch_request : ℕ → Request
  get_and_touch_request expiry = record (plain_request get_and_touch_doc) {
    expiry = duration_to_expiry now expiry;
  }

  -- `uint32(lockTime / time.Second)`; the division is towards zero.
  unfoldable pub lock_seconds : ℕ → ℕ
  lock_seconds t =
      if lt_int64 t 0 then (2 ^ 64 - (2 ^ 64 - t) / second) % 2 ^ 32 else t / second % 2 ^ 32

  unfoldable pub get_and_lock_request : ℕ → Request
  get_and_lock_request t = record (plain_request get_and_lock_doc) { lock_time = lock_seconds t }
