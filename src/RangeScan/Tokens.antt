-- ===== src/RangeScan/Tokens.antt =====
-- The snapshot requirements of a scan: the tokens of a mutation state merged by partition, as
-- newRangeScanOpManager in rangescanopmanager.go does. Partition ids are uint16, the others uint64.
use gocb.Base.{
  ℕ, ◌%◌, ◌^◌, String, ◌≡◌, refl, Option, none, some, List, [], ◌∷◌, arith, ltb, ◌==◌,
  if◌then◌else◌,
}

pub record Token : Type 0 where
  pub bucket_name : String
  pub vb_id : ℕ
  pub vb_uuid : ℕ
  pub seq_no : ℕ

-- gocbcore.RangeScanCreateSnapshotRequirements
pub record Requirement : Type 0 where
  pub uuid : ℕ
  pub seqno : ℕ

-- A Go map from partition ids.
unfoldable pub find : ℕ → List (ℕ × Requirement) → Option Requirement
find v [] = none
find v ((k, r) ∷ m) = if k == v then some r else find v m

unfoldable pub put : ℕ → Requirement → List (ℕ × Requirement) → List (ℕ × Requirement)
put v r [] = (v, r) ∷ []
put v r ((k, q) ∷ m) = if k == v then (v, r) ∷ m else (k, q) ∷ put v r m

abbrev pub required : Token → Requirement
required t = record { uuid = t.vb_uuid; seqno = t.seq_no }

-- One round of the loop over the tokens; `none` is the error about two uuids for one partition.
unfoldable pub add_token : Token → List (ℕ × Requirement) → Option (List (ℕ × Requirement))
add_token t m = elim (find (t.vb_id % 2 ^ 16) m) [
  | none ↦ some (put (t.vb_id % 2 ^ 16) (required t) m)
  | some entry ↦
      if entry.uuid == t.vb_uuid
      then some (if ltb entry.seqno t.seq_no then put (t.vb_id % 2 ^ 16) (required t) m else m)
      else none
]

unfoldable pub merge_tokens : List Token → List (ℕ × Requirement) → Option (List (ℕ × Requirement))
merge_tokens [] m = some m
merge_tokens (t ∷ ts) m = elim (add_token t m) [ none ↦ none | some m' ↦ merge_tokens ts m' ]

-- `SnapshotOptions`
unfoldable pub snapshot_options : List (ℕ × Requirement) → ℕ → Option Requirement
snapshot_options m vb = find vb m

pub find-put :
    (v w : ℕ) (r : Requirement) (m : List (ℕ × Requirement))
    → find w (put v r m) ≡ (if v == w then some r else find w m)
unfolding find put
find-put v w r [] = refl
find-put v w r ((k, q) ∷ m) = ground (arith, find-put v w r m)
