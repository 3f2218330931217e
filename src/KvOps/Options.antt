-- ===== src/KvOps/Options.antt =====
-- Which durability options an operation takes (SetDuraOptions in kvopmanager_core.go).
use gocb.Base.{ℕ, String, ◌≡◌, refl, ◌≢◌, ◌↔◌, ◌⊎◌, true, false, none, some, arith, some-inj}
use gocb.KvOps.Level.{
  DurabilityLevel, from_management_api, is_above_zero, majority, majority_and_persist_on_master,
  no_level, other_level, persist_to_majority, to_management_api, to_memd, unknown_level,
}
use gocb.KvOps.Manager.{Manager, needs_observe, observes, set_dura_options, store_level}

-- What SetDuraOptions takes: with observe-based durability there must be mutation tokens, and the level
-- must be left unset.
abbrev pub Acceptable : ℕ → ℕ → DurabilityLevel → Manager → Type 0
Acceptable p r l m =
    ((observes p r ≡ false) × (l ≢ other_level))
    ⊎ ((observes p r ≡ true) × (m.parent.use_mutation_tokens ≡ true) × (l ≡ unknown_level))

-- The number of a level in the memcached protocol; an unset one is none.
abbrev pub protocol_level : DurabilityLevel → ℕ
protocol_level unknown_level = 0
protocol_level no_level = 0
protocol_level majority = 1
protocol_level majority_and_persist_on_master = 2
protocol_level persist_to_majority = 3
protocol_level other_level = 0

-- The manager has the counts of its options, and asks the server for the level.
abbrev pub Asks : ℕ → ℕ → DurabilityLevel → Manager → Type 0
Asks p r l m =
    (m.persist_to ≡ p)
    × (m.replicate_to ≡ r)
    × (needs_observe m ≡ observes p r)
    × (m.durability_level ≡ protocol_level l)

-- An operation without an error so far has none after SetDuraOptions exactly if either it observes
-- nothing and the level is a known one, or it observes, has mutation tokens, and its level is
-- unset: an explicit level of none counts as synchronous durability. It then has the two counts it
-- was given, observes if one of them is not 0, and asks the server for the level, by its number in
-- the protocol.
pub set_dura_options-accepts :
    (p r : ℕ) (l : DurabilityLevel) (m : Manager)
    → m.error ≡ none
    → (((set_dura_options p r l m).error ≡ none) ↔ Acceptable p r l m)
      × ((set_dura_options p r l m).error ≡ none → Asks p r l (set_dura_options p r l m))
unfolding set_dura_options store_level to_memd is_above_zero needs_observe
set_dura_options-accepts p r l m e = by_level l
  where
    by_level :
        (l : DurabilityLevel)
        → (((set_dura_options p r l m).error ≡ none) ↔ Acceptable p r l m)
          × ((set_dura_options p r l m).error ≡ none → Asks p r l (set_dura_options p r l m))
    by_level unknown_level = ground arith
    by_level no_level = ground arith
    by_level majority = ground arith
    by_level majority_and_persist_on_master = ground arith
    by_level persist_to_majority = ground arith
    by_level other_level = ground arith

-- The management API's word for a level is read back as the level.
pub from-to_management_api :
    (l : DurabilityLevel) (s : String) → to_management_api l ≡ some s → from_management_api s ≡ l
unfolding to_management_api from_management_api
from-to_management_api no_level s e = rw (← some-inj e) refl
from-to_management_api majority s e = rw (← some-inj e) refl
from-to_management_api majority_and_persist_on_master s e = rw (← some-inj e) refl
from-to_management_api persist_to_majority s e = rw (← some-inj e) refl
from-to_management_api unknown_level s e = cc
from-to_management_api other_level s e = cc
