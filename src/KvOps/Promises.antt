-- ===== src/KvOps/Promises.antt =====
-- What a mutation that returns no error promises (kvprovider_core.go with collection_dura.go).
use gocb.Base.{
  ℕ, ◌<◌, String, ◌≡◌, refl, subst, ◌⊎◌, inl, inr, Bool, true, false, ◌||◌, Option, none, some,
  arith, ltb, ◌==◌, if◌then◌else◌, Bool-cases,
}
use gocb.Transcoding.Defs.{Bytes, Result}
use gocb.RangeScan.Tokens.{Token}
use gocb.KvOps.Level.{
  DurabilityLevel, is_above_zero, majority, majority_and_persist_on_master, no_level, other_level,
  persist_to_majority, to_memd, unknown_level,
}
use gocb.KvOps.Manager.{
  Manager, OpError, Parent, check_ready, get_timeout, needs_observe, no_timeout, set_dura_options,
  set_preserve_expiry, set_timeout, store_level,
}
use gocb.KvOps.Observe.{
  Verdict, ambiguous_timeout, durable, impossible, no_config, request_canceled, waiting,
}
use gocb.KvOps.Holders.{Enough, wait_for_durability-Enough}
use gocb.KvOps.Requests.{MutationOptions, Request, mutation_manager, value_manager}
use gocb.KvOps.Operations.{
  Ended, MutationResult, Response, Setting, Stored, after_token, after_verdict, answered, append,
  cas_not_supported, complete, decrement, enhance_mt, increment, insert, mutation_result, prepend,
  refused, remove, replace, returned, run_mutation, unsent, upsert, wait_answered, when_ready,
}

-- The mutations that take durability options.
pub data Mutation : Type 0 where
  inserts upserts replaces : Result (Bytes × ℕ) → Mutation
  removes : Mutation
  prepends appends : Bytes → Mutation
  increments decrements : ℕ → ℕ → Mutation

unfoldable pub mutate :
    {E : Type 0} → Setting E → Mutation → MutationOptions → Ended E MutationResult
mutate x (inserts v) o = insert x v o
mutate x (upserts v) o = upsert x v o
mutate x (replaces v) o = replace x v o
mutate x removes o = remove x o
mutate x (prepends b) o = prepend x b o
mutate x (appends b) o = append x b o
mutate x (increments d i) o = increment x d i o
mutate x (decrements d i) o = decrement x d i o

-- Without an error, a manager has the counts of its options.
abbrev Counts : MutationOptions → Manager → Type 0
Counts o m = m.error ≡ none → (m.persist_to ≡ o.persist_to) × (m.replicate_to ≡ o.replicate_to)

pub set_dura_options-Counts :
    (p r : ℕ) (l : DurabilityLevel) (m : Manager)
    → (set_dura_options p r l m).error ≡ none
    → ((set_dura_options p r l m).persist_to ≡ p)
      × ((set_dura_options p r l m).replicate_to ≡ r)
      × (m.error ≡ none)
unfolding set_dura_options store_level to_memd is_above_zero
set_dura_options-Counts p r unknown_level m e = ground (arith, e)
set_dura_options-Counts p r no_level m e = ground (arith, e)
set_dura_options-Counts p r majority m e = ground (arith, e)
set_dura_options-Counts p r majority_and_persist_on_master m e = ground (arith, e)
set_dura_options-Counts p r persist_to_majority m e = ground (arith, e)
set_dura_options-Counts p r other_level m e = ground (arith, e)

mutation_manager-Counts :
    (parent : Parent) (o : MutationOptions) → Counts o (mutation_manager parent o)
unfolding mutation_manager set_timeout
mutation_manager-Counts parent o e =
    let h = set_dura_options-Counts o.persist_to o.replicate_to o.durability_level _ e in (h.0, h.1)

value_manager-Counts :
    (parent : Parent) (o : MutationOptions) (v : Result (Bytes × ℕ))
    → Counts o (value_manager parent o v)
unfolding value_manager set_timeout
value_manager-Counts parent o v e =
    let h = set_dura_options-Counts o.persist_to o.replicate_to o.durability_level _ e in (h.0, h.1)

-- The token that names a stored mutation.
abbrev pub token_of : String → Stored → Token
token_of bucket s = record {
  bucket_name = bucket;
  vb_id = s.vb_id;
  vb_uuid = s.vb_uuid;
  seq_no = s.seq_no;
}

module _ {E : Type 0} (x : Setting E) (o : MutationOptions) where
  -- The mutation `s` is the one of the result, and the servers hold it.
  pub record Held (out : MutationResult) (s : Stored) : Type 0 where
    pub request : Request
    pub stored : x.send request ≡ answered s
    pub same_cas : out.cas ≡ s.cas
    pub same_token : out.token ≡ some (token_of x.bucket s)
    pub num_replicas : ℕ
    pub known : x.servers.snapshot ≡ some num_replicas
    pub enough :
        Enough s.seq_no
          (x.servers.rounds (token_of x.bucket s))
          num_replicas
          o.replicate_to
          o.persist_to

  abbrev Promise : MutationResult → Type 0
  Promise out = (0 < o.persist_to) ⊎ (0 < o.replicate_to) → (s : Stored) × Held out s

  abbrev Keeps : Ended E MutationResult → Type 0
  Keeps (returned (some out) none) = Promise out
  Keeps _ = Unit

  after_verdict-Keeps :
      (out : MutationResult) (v : Verdict)
      → (v ≡ durable → Promise out)
      → Keeps (after_verdict out v)
  unfolding after_verdict
  after_verdict-Keeps out no_config h = tt
  after_verdict-Keeps out durable h = h refl
  after_verdict-Keeps out impossible h = tt
  after_verdict-Keeps out ambiguous_timeout h = tt
  after_verdict-Keeps out request_canceled h = tt
  after_verdict-Keeps out waiting h = tt

  abbrev SameCounts : Manager → Type 0
  SameCounts m = (m.persist_to ≡ o.persist_to) × (m.replicate_to ≡ o.replicate_to)

  after_token-Keeps :
      (m : Manager) (q : Request) (s : Stored)
      → x.send q ≡ answered s
      → SameCounts m
      → Keeps (after_token x.servers m (mutation_result x.bucket s) (enhance_mt x.bucket s))
  unfolding after_token enhance_mt mutation_result
  after_token-Keeps m q s answer c = elim (Bool-cases (s.vb_uuid == 0)) [
    | inl e ↦ rw e tt
    | inr e ↦ rw e (
        after_verdict-Keeps _ _ (λ d h.
          let t = token_of x.bucket s in
          let (n, known, enough) =
            wait_for_durability-Enough s.seq_no (x.servers.rounds t) m.replicate_to m.persist_to
              x.servers.snapshot (x.servers.schedule t) d in
          (
            s,
            record {
              request = q;
              stored = answer;
              same_cas = refl;
              same_token = refl;
              num_replicas = n;
              known = known;
              enough =
                  subst (λ r. Enough s.seq_no (x.servers.rounds t) n r o.persist_to) c.1
                    (subst (λ p. Enough s.seq_no (x.servers.rounds t) n m.replicate_to p) c.0
                      enough);
            },
          )))
  ]

  wait_answered-Keeps :
      (m : Manager) (q : Request) (s : Stored)
      → x.send q ≡ answered s
      → SameCounts m
      → Keeps (wait_answered x.servers m (mutation_result x.bucket s))
  unfolding wait_answered needs_observe mutation_result
  wait_answered-Keeps m q s answer c = by_test (ltb 0 m.persist_to || ltb 0 m.replicate_to) refl
    where
      out : MutationResult
      out = mutation_result x.bucket s

      by_test :
          (b : Bool)
          → (ltb 0 m.persist_to || ltb 0 m.replicate_to) ≡ b
          → Keeps (
              if b
              then after_token x.servers m out (enhance_mt x.bucket s)
              else returned (some out) none)
      by_test true e = after_token-Keeps m q s answer c
      by_test false e = λ h. absurd (ground (arith, e, c, h))

  run_mutation-Keeps :
      (fix : E → E) (m : Manager) (r : Request) → Counts o m → Keeps (run_mutation x fix m r)
  unfolding run_mutation when_ready complete check_ready
  run_mutation-Keeps fix m r c = by_error m.error refl
    where
      sent : (p : Response E Stored) → x.send r ≡ p → SameCounts m → Keeps (complete x fix m p)
      sent (unsent e) q h = tt
      sent (refused e) q h = tt
      sent (answered s) q h = wait_answered-Keeps m r s q h

      ready : (e : Option OpError) → SameCounts m → Keeps (when_ready x fix m r e)
      ready (some e) h = tt
      ready none h = sent (x.send r) refl h

      by_error :
          (e : Option OpError)
          → m.error ≡ e
          → Keeps (
              when_ready x fix m r (elim e [
                | some e ↦ some e
                | none ↦ if (get_timeout m).0 == 0 then some no_timeout else none
              ]))
      by_error (some e) h = tt
      by_error none h = ready _ (c h)

  unless :
      (e : Ended E MutationResult) (b : Bool)
      → Keeps e
      → Keeps (if b then returned none (some cas_not_supported) else e)
  unless e true h = tt
  unless e false h = h

  mutate-Keeps : (k : Mutation) → Keeps (mutate x k o)
  unfolding mutate insert upsert replace remove prepend append increment decrement
      set_preserve_expiry
  mutate-Keeps (inserts v) = run_mutation-Keeps _ _ _ (value_manager-Counts x.parent o v)
  mutate-Keeps (upserts v) = run_mutation-Keeps _ _ _ (value_manager-Counts x.parent o v)
  mutate-Keeps (replaces v) = run_mutation-Keeps _ _ _ (value_manager-Counts x.parent o v)
  mutate-Keeps removes = run_mutation-Keeps _ _ _ (mutation_manager-Counts x.parent o)
  mutate-Keeps (prepends b) = run_mutation-Keeps _ _ _ (mutation_manager-Counts x.parent o)
  mutate-Keeps (appends b) = run_mutation-Keeps _ _ _ (mutation_manager-Counts x.parent o)
  mutate-Keeps (increments d i) =
      unless _ (ltb 0 o.cas) (run_mutation-Keeps _ _ _ (mutation_manager-Counts x.parent o))
  mutate-Keeps (decrements d i) =
      unless _ (ltb 0 o.cas) (run_mutation-Keeps _ _ _ (mutation_manager-Counts x.parent o))

  -- If a mutation with observe-based durability returns a result and no error, then the server has
  -- answered a request with a stored mutation; the result has its CAS and the token that names it, by
  -- its own sequence number; the number of replicas is known; and of the active server and the replicas,
  -- as many different ones as the options ask for have answered that they hold that mutation, and as
  -- many as the options ask for that they have persisted it.
  pub mutate-Enough :
      (k : Mutation) (out : MutationResult)
      → mutate x k o ≡ returned (some out) none
      → (0 < o.persist_to) ⊎ (0 < o.replicate_to)
      → (s : Stored) × Held out s
  mutate-Enough k out e = subst Keeps e (mutate-Keeps k)
