-- ===== src/RangeScan/Partition.antt =====
-- The scan of one partition (scanPartition in rangescanopmanager.go): a stream that is created, read in
-- batches, and created again from the last key seen if the partition moved. What the server answers is
-- a list of attempts; keys and errors are texts, and an item is its key.
use gocb.Base.{String, Bool, Option, none, some, List, [], ◌∷◌, ◌++◌, str_eq, if◌then◌else◌}

-- gocbcore.RangeScanCreateRangeScanConfig: an end that is not set is empty.
pub record RangeConfig : Type 0 where
  pub start_term : String
  pub exclusive_start : String
  pub end_term : String
  pub exclusive_end : String

pub record ScanTerm : Type 0 where
  pub term : String
  pub exclusive : Bool

-- RangeScan.toCore in collection_rangescan.go; a missing term was filled in by its caller.
unfoldable pub to_core : ScanTerm → ScanTerm → RangeConfig
to_core from to = record {
  start_term = if from.exclusive then "" else from.term;
  exclusive_start = if from.exclusive then from.term else "";
  end_term = if to.exclusive then "" else to.term;
  exclusive_end = if to.exclusive then to.term else "";
}

-- One answer to a continue request. A cut batch is one whose delivery the scan's cancellation stops,
-- behind the items given; `lost` is NotMyVBucket or EOF, with what the scan's cancel flag then is.
pub data Continue : Type 0 where
  batch : List String → Bool → Continue
  cut : List String → Continue
  lost : Bool → Continue
  continue_error : String → Continue

pub data Create : Type 0 where
  create_error : String → Create
  created : List Continue → Create

-- How the reading of one stream ends; `pending` if the answers given are not all.
pub data StreamEnd : Type 0 where
  finished resumes pending : StreamEnd
  failed : String → StreamEnd

pub data ScanEnd : Type 0 where
  ok waiting : ScanEnd
  failed_create failed_continue : String → ScanEnd

pub record Progress : Type 0 where
  pub delivered : List String
  pub last_term : String

-- `items[len(items)-1].Key`, if there are items.
abbrev pub last_of : String → List String → String
last_of k [] = k
last_of k (x ∷ xs) = last_of x xs

abbrev pub deliver : Progress → List String → Progress
deliver p items = record { delivered = p.delivered ++ items; last_term = last_of p.last_term items }

-- The inner loop.
unfoldable pub continue_loop : Progress → List Continue → Progress × StreamEnd
continue_loop p [] = (p, pending)
continue_loop p (batch items is_complete ∷ cs) =
    let rest = continue_loop (deliver p items) cs in
    if is_complete then (deliver p items, finished) else rest
continue_loop p (cut items ∷ cs) = (record p { delivered = p.delivered ++ items }, finished)
continue_loop p (lost cancelled ∷ cs) = (p, if cancelled then finished else resumes)
continue_loop p (continue_error e ∷ cs) = (p, failed e)

-- The range of the next stream: from the last key seen, if there was one.
unfoldable pub resume : RangeConfig → String → RangeConfig
resume c last = if str_eq last "" then c else record c { start_term = last }

abbrev pub resumed : Option RangeConfig → String → Option RangeConfig
resumed none last = none
resumed (some c) last = some (resume c last)

-- What follows a stream, `next` being the outer loop's next round.
abbrev pub after_stream : Progress → StreamEnd → Progress × ScanEnd → Progress × ScanEnd
after_stream p finished next = (p, ok)
after_stream p pending next = (p, waiting)
after_stream p (failed e) next = (p, failed_continue e)
after_stream p resumes next = next

-- The outer loop.
unfoldable pub scan_partition : Option RangeConfig → Progress → List Create → Progress × ScanEnd
scan_partition opts p [] = (p, waiting)
scan_partition opts p (create_error e ∷ rest) = (p, failed_create e)
scan_partition opts p (created cs ∷ rest) =
    let q = (continue_loop p cs).0 in
    let next = scan_partition (resumed opts q.last_term) q rest in
    after_stream q (continue_loop p cs).1 next
