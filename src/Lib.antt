-- ===== src/Lib.antt =====
-- A model of gocb, the Go client of Couchbase, for the parts of it that carry logic of their own
-- rather than passing requests to gocbcore or to a gRPC service, and theorems about them.
--
-- The parts and their files:
--
-- * The threshold logging tracer (thresholdlogtracer.go): Threshold. Spans end, add up their times in
--   their parents, and are recorded in a bounded group for each service; a timer logs the groups and
--   empties them. Threshold/Span is `thresholdLogSpan` (`set_attribute`, `finish` and `absorb` for
--   `End`), Threshold/Group is `thresholdLogGroup` (`record_op` for `recordOp`; the read lock and the
--   write lock are two arguments of `record_op_between`), Threshold/Tracer is `ThresholdLoggingTracer`
--   (`route` for `recordOp`, `build_json_data` for `buildJSONData`, `add_ref` and `dec_ref`).
-- * Range and sampling scans (rangescanopmanager.go, with collection_rangescan.go and the server map of
--   kvprovider_core.go): RangeScan. RangeScan/Tokens merges the mutation state
--   (`newRangeScanOpManager`), RangeScan/Balancer is `rangeScanLoadBalancer`, RangeScan/Workers the
--   goroutines of `Scan`, RangeScan/Partition `scanPartition`, RangeScan/Items the reader's `Next`. The
--   workers are a list, their interleaving and the outcomes of the partitions are a list of events, so
--   a theorem over all lists is one over all schedules.
-- * Transcoders (transcoding.go): Transcoding/Defs has the five `Encode` and `Decode` pairs; the JSON
--   package and the common flags of gocbcore are the record `Codec`.
-- * Projections (results.go): Projection/Paths is `pathParts`, Projection/Content is `set` and
--   `fromSubDoc`, Projection/Fields says what they leave of a list of dotted paths; Projection/Get has
--   the paths that `getProjected` looks up, which Projection/Specs is about, and `fromFullProjection`.
-- * The data structures (collection_ds.go): Structures. Structures/Queue has `Push` and `Pop`,
--   Structures/Set has `Remove`, `Contains` and the list's `IndexOf`. Both loops read the document,
--   change it under the CAS that they have read, and try again, 16 times at most, if another client was
--   faster. The provider is the record `Agent` of Structures/Agent, what other clients do is a function
--   of the moment, and what is assumed of the server is named there: an error that is neither a CAS
--   mismatch nor that the document exists may leave the mutation stored. Structures/Cluster is an
--   instance.
-- * Retries of gRPC requests (retry.go, error_ps.go): Retry. Retry/Errors maps statuses to errors,
--   Retry/Request decides whether to retry and records it, Retry/Loop is `handleRetriableRequest` over
--   a list of what the attempts meet. The reasons of errors and gocbcore's backoff are parameters.
-- * The manager of a key-value operation (kvopmanager_core.go, with the durability levels of
--   constants.go): KvOps/Level, KvOps/Manager (`set_dura_options`, `get_timeout`, `get_deadline` and
--   `durability_timeout` have the names of their methods) and KvOps/Expiry (`durationToExpiry`).
-- * Observe-based durability (collection_dura.go): KvOps/Observe. `start_observers` starts `observe_one`
--   for the active server, index 0, and each replica; each is one goroutine over what its server answers.
--   `count_loop` is the one that counts signals. The channels hold what the observers have sent, and a
--   schedule is the order in which `delivered` takes it from them and the clock is seen. KvOps/Observers
--   is about one observer, KvOps/Pending about what is in the channels, KvOps/Holders and
--   KvOps/Durability about the whole.
-- * Mutations (kvprovider_core.go): KvOps/Requests is what each method asks of gocbcore, and
--   KvOps/Operations the methods as a whole, with the durability wait at their end. gocbcore and the
--   servers are the records `Setting` and `Servers`.
-- * Reads of all replicas (collection_crud.go): Replicas/Results is `coreReplicasResult`; how often a
--   channel is closed or written to when closed is counted, and a run is a list of events.
-- * Mutation states (token.go): MutationState/Json, whose maps are association lists.
-- * Subdocument operations (subdocspecs.go, kvprovider_coresubdoc.go, results.go): Subdoc/Specs has the
--   specs, Subdoc/Lookup is `internalLookupIn` and `Exists`, Subdoc/Mutate `MutateIn` up to the request
--   that gocbcore gets, with the manager of KvOps. The JSON package is a parameter.
-- * Latency histograms (logging_meter.go): Meter/Histogram; recordings and the rounds of an aggregation
--   are a list of events, and the logarithm that finds a bin is a parameter.
-- * The parts of Go that these use: Go/Word (machine integers), Go/Slice (`copy`), Go/Sort
--   (`sort.Search`), Go/Decimal (`%d` and `strconv.Atoi`), Go/Bytes and Go/ByteMap (maps from texts).
--   Base has the names and lemmas that all of them share.
--
-- Numbers are natural numbers: a w-bit integer is its bit pattern, with the wrap-around written out;
-- `time.Duration` is an int64 pattern that `lt_int64` compares with its sign. The loop of `sort.Search`
-- runs on fuel, the length of the slice, which bounds its rounds since each at least halves what is
-- left. `Pop` and `Remove` recur on the tries that are left, the load balancer on the servers that are
-- left, and every other loop on its list. Times come from outside, as arguments.
--
-- Multiplication by 0.9 in floating point is a parameter of `durability_timeout`. `%d` is printed with
-- fuel for 20 digits, which a uint64 does not exceed.
--
-- What is left out: what gocbcore and the gRPC services do with a request, the gRPC provider, the
-- management and query clients, transactions, and the wrappers for metrics and tracing. The JSON text of what is
-- logged and the log sink are outside as well, and so are the contents of scanned documents.
pub mod Base
pub mod Go
pub mod KvOps
pub mod Meter
pub mod MutationState
pub mod Projection
pub mod RangeScan
pub mod Replicas
pub mod Retry
pub mod Structures
pub mod Subdoc
pub mod Threshold
pub mod Transcoding
