-- ===== src/KvOps/Examples.antt =====
-- Concrete operations (kvopmanager_core.go, collection_dura.go).
use gocb.Base.{
  ℕ, zero, suc, ◌+◌, ◌*◌, ◌/◌, ◌≤◌, ◌<◌, ◌≡◌, refl, ◌≢◌, ◌↔◌, ◌⊎◌, inl, true, false, none, some,
  List, [], ◌∷◌, arith,
}
use gocb.KvOps.Level.{is_above_zero, no_level, to_memd, unknown_level}
use gocb.KvOps.Manager.{
  Manager, Parent, check_ready, default_timeout, durability_timeout, get_timeout, needs_observe,
  new_manager, set_dura_options, set_preserve_expiry, set_timeout, set_value, store_encoded,
  store_level,
}
use gocb.KvOps.Expiry.{duration_to_expiry, duration_to_expiry-expires_at, expires_at, second}
use gocb.KvOps.Options.{Acceptable, Asks, set_dura_options-accepts}
use gocb.KvOps.Observe.{
  Event, Round, ambiguous_timeout, asks, cancelled, count_loop, deadline, delivered, did_persist,
  did_replicate, durable, error_out, gave_up, observe_once, observe_one, persisted, receive,
  replicated, reply_error, seqnos, signal, start_observers, stopped, tagged, wait_for_durability,
  wait_with,
}
use gocb.KvOps.Observers.{
  SignalsOnce, observe_one-SignalsOnce, observe_one_ends, observe_one_persists,
}
use gocb.Transcoding.Defs.{ok}
use gocb.KvOps.Requests.{MutationOptions, value_manager}
use gocb.KvOps.Operations.{
  MutationResult, Setting, Stored, after_token, after_verdict, answered, complete, enhance_mt,
  mutation_result, returned, run_mutation, upsert, wait_answered, when_ready,
}
use gocb.KvOps.Promises.{Held, mutate, mutate-Enough, upserts}
use gocb.KvOps.Durability.{durable_without_replica, wait_for_durability_ends}

-- Some time in 2023, and a minute.
abbrev some_time : ℕ
some_time = 1_700_000_000_000_000_000

abbrev minute : ℕ
minute = 60_000_000_000

duration_to_expiry-expires_at_example :
    ((minute ≡ 0) × (expires_at (some_time / second) (duration_to_expiry some_time minute) ≡ none))
    ⊎ ((t : ℕ) × (expires_at (some_time / second) (duration_to_expiry some_time minute) ≡ some t)
        × (some_time + minute < (t + 2) * second)
        × ((t * second ≤ some_time + minute) ⊎ ((minute < second) × (t ≡ some_time / second + 1))))
duration_to_expiry-expires_at_example =
    duration_to_expiry-expires_at some_time minute (omega arith) (omega arith) (omega arith)

abbrev a_parent : Parent
a_parent = record {
  kv_timeout = 2_500_000_000;
  kv_durable_timeout = 10_000_000_000;
  use_mutation_tokens = true;
}

abbrev durable_manager : Manager
durable_manager = record {
  parent = a_parent;
  error = none;
  timeout = 1_000_000_000;
  deadline = none;
  bytes = [];
  flags = 0;
  persist_to = 0;
  replicate_to = 0;
  durability_level = 1;
  preserve_ttl = false;
}

abbrev nine_tenths : ℕ → ℕ
nine_tenths t = 9 * t / 10

durability_timeout_test : durability_timeout nine_tenths durable_manager ≡ 1_500_000_000
unfolding durability_timeout get_timeout
durability_timeout_test = refl

set_dura_options-accepts_example :
    (((set_dura_options 1 0 no_level durable_manager).error ≡ none)
      ↔ Acceptable 1 0 no_level durable_manager)
    × ((set_dura_options 1 0 no_level durable_manager).error ≡ none
        → Asks 1 0 no_level (set_dura_options 1 0 no_level durable_manager))
set_dura_options-accepts_example = set_dura_options-accepts 1 0 no_level durable_manager refl

-- An observer whose server fails once, then holds the mutation, then has persisted it.
abbrev three_rounds : List (Round ℕ)
three_rounds = asks (reply_error 4) ∷ asks (seqnos 7 3) ∷ asks (seqnos 8 7) ∷ cancelled ∷ []

observe_one_test : observe_one 7 false false three_rounds ≡ (replicated ∷ persisted ∷ [], stopped)
unfolding observe_one observe_once did_replicate did_persist error_out
observe_one_test = refl

observe_one_persists_example : (observe_one 7 false false three_rounds).1 ≢ gave_up
observe_one_persists_example = observe_one_persists 7 false false three_rounds

observe_one_ends_example : (observe_one 7 false false three_rounds).1 ≡ stopped
observe_one_ends_example = observe_one_ends 7 false false three_rounds refl refl

observe_one-SignalsOnce_example :
    SignalsOnce 7 false false three_rounds (observe_one 7 false false three_rounds).0
observe_one-SignalsOnce_example = observe_one-SignalsOnce 7 false false three_rounds

-- Servers 0 and 2 hold the mutation, and server 0 persists it.
abbrev some_events : List Event
some_events = signal 0 replicated ∷ signal 0 persisted ∷ signal 2 replicated ∷ deadline ∷ []

abbrev all_three_rounds : ℕ → List (Round ℕ)
all_three_rounds s = three_rounds

some_events-durable : wait_for_durability 7 all_three_rounds 2 1 (some 2) some_events ≡ durable
unfolding wait_for_durability wait_with start_observers tagged receive delivered observe_one
    observe_once did_replicate did_persist error_out count_loop
some_events-durable = refl

-- A signal that the server never sends is not counted.
unsent_signal_test :
    wait_for_durability 9 all_three_rounds 1 0 (some 2) (signal 0 replicated ∷ deadline ∷ [])
    ≡ ambiguous_timeout
unfolding wait_for_durability wait_with start_observers tagged receive delivered observe_one
    observe_once did_replicate did_persist error_out count_loop
unsent_signal_test = refl

abbrev some_options : MutationOptions
some_options = record {
  timeout = 0;
  expiry = minute;
  cas = 0;
  persist_to = 1;
  replicate_to = 2;
  durability_level = unknown_level;
  preserve_expiry = false;
}

-- A cluster that stores everything under one token, and whose servers signal as above.
abbrev a_setting : Setting ℕ
a_setting = record {
  parent = a_parent;
  bucket = "travel";
  now = some_time;
  scale = nine_tenths;
  errors = record { enhance = λ e. e; is_not_stored = λ e. false; as_not_found = λ e. e };
  send = λ r. answered (record { cas = 3; vb_id = 12; vb_uuid = 5; seq_no = 7; value = 0 });
  servers = record { snapshot = some 2; rounds = λ t s. three_rounds; schedule = λ t. some_events };
}

abbrev a_result : MutationResult
a_result = record {
  cas = 3;
  token = some (record { bucket_name = "travel"; vb_id = 12; vb_uuid = 5; seq_no = 7 });
  content = 0;
}

an_upsert :
    mutate a_setting (upserts (ok (b'7' ∷ [], 2))) some_options ≡ returned (some a_result) none
unfolding mutate upsert value_manager new_manager set_value store_encoded set_dura_options
    store_level to_memd is_above_zero set_timeout set_preserve_expiry run_mutation check_ready
    get_timeout default_timeout when_ready complete mutation_result enhance_mt wait_answered
    needs_observe after_token after_verdict wait_for_durability wait_with start_observers tagged
    receive delivered observe_one observe_once did_replicate did_persist error_out count_loop
an_upsert = refl

mutate-Enough_example : (s : Stored) × Held a_setting some_options a_result s
mutate-Enough_example =
    mutate-Enough a_setting some_options (upserts (ok (b'7' ∷ [], 2))) a_result an_upsert
      (inl (omega arith))

abbrev two_events : List Event
two_events = signal 0 persisted ∷ signal 1 replicated ∷ []

wait_for_durability_ends_example :
    wait_for_durability 7 all_three_rounds 1 1 (some 2) two_events ≡ durable
unfolding start_observers tagged receive delivered observe_one observe_once did_replicate
    did_persist error_out
wait_for_durability_ends_example =
    wait_for_durability_ends 7 all_three_rounds 1 1 2 two_events (omega arith) (omega arith)
      (inl (omega arith)) tt (omega arith) (omega arith)

-- Server 0 alone holds the mutation.
abbrev active_alone : ℕ → List (Round ℕ)
active_alone zero = asks (seqnos 7 0) ∷ []
active_alone (suc s) = asks (seqnos 0 0) ∷ []

durable_without_replica_example :
    wait_for_durability 7 active_alone 1 0 (some 2) (signal 0 replicated ∷ []) ≡ durable
durable_without_replica_example =
    durable_without_replica 7 7 0 2 [] active_alone (omega arith) (omega arith) refl
