-- ===== src/KvOps/Level.antt =====
-- Durability levels (DurabilityLevel in constants.go). The levels of the memcached protocol are its
-- numbers, 0 for none.
use gocb.Base.{ℕ, String, Bool, true, false, Option, none, some, str_eq, if◌then◌else◌}

-- The constants in their order, from 0, and any other value.
pub data DurabilityLevel : Type 0 where
  unknown_level no_level majority majority_and_persist_on_master persist_to_majority :
      DurabilityLevel
  other_level : DurabilityLevel

pub data LevelError : Type 0 where
  unset_level unexpected_level : LevelError

-- A level of the protocol, or the error of toMemd.
pub data MemdLevel : Type 0 where
  memd : ℕ → MemdLevel
  no_memd : LevelError → MemdLevel

unfoldable pub to_memd : DurabilityLevel → MemdLevel
to_memd no_level = memd 0
to_memd majority = memd 1
to_memd majority_and_persist_on_master = memd 2
to_memd persist_to_majority = memd 3
to_memd unknown_level = no_memd unset_level
to_memd other_level = no_memd unexpected_level

-- `level > 0`
unfoldable pub is_above_zero : DurabilityLevel → Bool
is_above_zero unknown_level = false
is_above_zero _ = true

unfoldable pub to_management_api : DurabilityLevel → Option String
to_management_api no_level = some "none"
to_management_api majority = some "majority"
to_management_api majority_and_persist_on_master = some "majorityAndPersistActive"
to_management_api persist_to_majority = some "persistToMajority"
to_management_api unknown_level = none
to_management_api other_level = none

unfoldable pub from_management_api : String → DurabilityLevel
from_management_api s =
    if str_eq s "majority"
    then majority
    else if str_eq s "majorityAndPersistActive"
    then majority_and_persist_on_master
    else if str_eq s "persistToMajority"
    then persist_to_majority
    else no_level
