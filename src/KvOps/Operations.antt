-- ===== src/KvOps/Operations.antt =====
-- The methods of the key-value provider as a whole (kvprovider_core.go, with Wait, EnhanceMt and
-- CheckReadyForOp of kvopmanager_core.go): the request is sent, its answer becomes a result and an
-- error, and a mutation with observe-based durability waits for the servers. What gocbcore and the
-- servers do is a parameter.
use gocb.Base.{ℕ, String, Bool, Option, none, some, List, ltb, ◌==◌, if◌then◌else◌}
use gocb.Transcoding.Defs.{Bytes, Result}
use gocb.RangeScan.Tokens.{Token}
use gocb.KvOps.Manager.{Manager, OpError, Parent, check_ready, needs_observe, set_preserve_expiry}
use gocb.KvOps.Observe.{Event, Round, Verdict, durable, wait_for_durability, waiting}
use gocb.KvOps.Requests.{
  MutationOptions, Request, append_request, decrement_request, increment_request, insert_request,
  mutation_manager, plain_manager, prepend_request, remove_request, replace_request, touch_request,
  unlock_request, upsert_request, value_manager,
}

-- What comes of a request: it is not sent, or its callback has an error or an answer.
pub data Response (E A : Type 0) : Type 0 where
  unsent refused : E → Response E A
  answered : A → Response E A

pub data Failure (E : Type 0) : Type 0 where
  bad_options : OpError → Failure E
  core : E → Failure E
  cas_not_supported no_mutation_token : Failure E
  not_durable : Verdict → Failure E

-- A method returns a result, or nil, and an error, or nil; or it is still waiting.
pub data Ended (E A : Type 0) : Type 0 where
  returned : Option A → Option (Failure E) → Ended E A
  blocked : Ended E A

-- What the server says of a mutation.
pub record Stored : Type 0 where
  pub cas : ℕ
  pub vb_id : ℕ
  pub vb_uuid : ℕ
  pub seq_no : ℕ
  pub value : ℕ

-- MutationResult and CounterResult.
pub record MutationResult : Type 0 where
  pub cas : ℕ
  pub token : Option Token
  pub content : ℕ

-- `EnhanceMt`
unfoldable pub enhance_mt : String → Stored → Option Token
enhance_mt bucket s =
    if s.vb_uuid == 0
    then none
    else some
        (record { bucket_name = bucket; vb_id = s.vb_id; vb_uuid = s.vb_uuid; seq_no = s.seq_no })

unfoldable pub mutation_result : String → Stored → MutationResult
mutation_result bucket s = record { cas = s.cas; token = enhance_mt bucket s; content = s.value }

-- What Wait makes of the verdict on a mutation, whose result the callback has set.
unfoldable pub after_verdict : {E : Type 0} → MutationResult → Verdict → Ended E MutationResult
after_verdict out durable = returned (some out) none
after_verdict out waiting = blocked
after_verdict out v = returned (some out) (some (not_durable v))

-- What is known of the servers when a mutation is waited for: the number of replicas, if there is a
-- snapshot of the configuration, what each server's observer meets, and the order in which the signals
-- and the clock are seen.
pub record Servers (E : Type 0) : Type 0 where
  pub snapshot : Option ℕ
  pub rounds : Token → ℕ → List (Round E)
  pub schedule : Token → List Event

module _ {E : Type 0} (x : Servers E) where
  unfoldable pub after_token : Manager → MutationResult → Option Token → Ended E MutationResult
  after_token m out none = returned (some out) (some no_mutation_token)
  after_token m out (some t) = after_verdict out (
      wait_for_durability t.seq_no (x.rounds t) m.replicate_to m.persist_to x.snapshot
        (x.schedule t))

  -- The end of Wait, after an answer.
  unfoldable pub wait_answered : Manager → MutationResult → Ended E MutationResult
  wait_answered m out =
      if needs_observe m then after_token m out out.token else returned (some out) none

-- gocbcore's errors: what is added to one, whether one is that nothing was stored, and that error with
-- the inner error that the document was not found.
pub record Errors (E : Type 0) : Type 0 where
  pub enhance : E → E
  pub is_not_stored : E → Bool
  pub as_not_found : E → E

-- What the methods use of the rest of the client, and of gocbcore and the servers.
pub record Setting (E : Type 0) : Type 0 where
  pub parent : Parent
  pub bucket : String
  pub now : ℕ
  pub scale : ℕ → ℕ
  pub errors : Errors E
  pub send : Request → Response E Stored
  pub servers : Servers E

module _ {E : Type 0} (x : Setting E) where
  -- The callback's error is enhanced, one of gocbcore's method itself is not.
  unfoldable pub complete : (E → E) → Manager → Response E Stored → Ended E MutationResult
  complete fix m (unsent e) = returned none (some (core e))
  complete fix m (refused e) = returned none (some (core (x.errors.enhance (fix e))))
  complete fix m (answered s) = wait_answered x.servers m (mutation_result x.bucket s)

  unfoldable pub when_ready : (E → E) → Manager → Request → Option OpError → Ended E MutationResult
  when_ready fix m r (some e) = returned none (some (bad_options e))
  when_ready fix m r none = complete fix m (x.send r)

  -- A mutation, its manager being set up.
  unfoldable pub run_mutation : (E → E) → Manager → Request → Ended E MutationResult
  run_mutation fix m r = when_ready fix m r (check_ready m)

  abbrev pub same_error : E → E
  same_error e = e

  -- An error that nothing was stored is one that the document was not found.
  unfoldable pub adjoin_error : E → E
  adjoin_error e = if x.errors.is_not_stored e then x.errors.as_not_found e else e

  unfoldable pub insert : Result (Bytes × ℕ) → MutationOptions → Ended E MutationResult
  insert encoded o =
      let m = value_manager x.parent o encoded in
      run_mutation same_error m (insert_request x.now x.scale m o)

  unfoldable pub upsert : Result (Bytes × ℕ) → MutationOptions → Ended E MutationResult
  upsert encoded o =
      let m = set_preserve_expiry o.preserve_expiry (value_manager x.parent o encoded) in
      run_mutation same_error m (upsert_request x.now x.scale m o)

  unfoldable pub replace : Result (Bytes × ℕ) → MutationOptions → Ended E MutationResult
  replace encoded o =
      let m = set_preserve_expiry o.preserve_expiry (value_manager x.parent o encoded) in
      run_mutation same_error m (replace_request x.now x.scale m o)

  unfoldable pub remove : MutationOptions → Ended E MutationResult
  remove o =
      let m = mutation_manager x.parent o in
      run_mutation same_error m (remove_request x.now x.scale m o)

  unfoldable pub prepend : Bytes → MutationOptions → Ended E MutationResult
  prepend b o =
      let m = mutation_manager x.parent o in
      run_mutation adjoin_error m (prepend_request x.now x.scale m b o)

  unfoldable pub append : Bytes → MutationOptions → Ended E MutationResult
  append b o =
      let m = mutation_manager x.parent o in
      run_mutation adjoin_error m (append_request x.now x.scale m b o)

  unfoldable pub increment : ℕ → ℕ → MutationOptions → Ended E MutationResult
  increment delta initial o =
      let m = mutation_manager x.parent o in
      let run = run_mutation same_error m (increment_request x.now x.scale m delta initial o) in
      if ltb 0 o.cas then returned none (some cas_not_supported) else run

  unfoldable pub decrement : ℕ → ℕ → MutationOptions → Ended E MutationResult
  decrement delta initial o =
      let m = mutation_manager x.parent o in
      let run = run_mutation same_error m (decrement_request x.now x.scale m delta initial o) in
      if ltb 0 o.cas then returned none (some cas_not_supported) else run

  unfoldable pub touch : ℕ → ℕ → Ended E MutationResult
  touch expiry timeout =
      let m = plain_manager x.parent timeout in
      run_mutation same_error m (touch_request x.now x.scale m expiry)

  -- Unlock returns its error alone.
  unfoldable pub error_alone : Ended E MutationResult → Ended E MutationResult
  error_alone (returned out e) = returned none e
  error_alone blocked = blocked

  unfoldable pub unlock : ℕ → ℕ → Ended E MutationResult
  unlock cas timeout =
      let m = plain_manager x.parent timeout in
      error_alone (run_mutation same_error m (unlock_request x.now x.scale m cas))
