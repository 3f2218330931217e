-- ===== src/KvOps/Observe.antt =====
-- Observe-based durability (collection_dura.go): one goroutine for each server asks for its sequence
-- numbers until the mutation is there, and signals that once; another one counts the signals. What the
-- servers answer, and the order in which the signals and the clock are seen, are lists.
use gocb.Base.{
  ℕ, zero, suc, ◌+◌, Bool, true, false, not, ◌&&◌, ◌||◌, Option, none, some, List, [], ◌∷◌, ◌++◌,
  ltb, leb, ◌==◌, if◌then◌else◌,
}

-- How one observe request ends: it is not sent, its callback has an error, or it has the current and
-- the persisted sequence number.
pub data Reply (E : Type 0) : Type 0 where
  not_sent reply_error : E → Reply E
  seqnos : ℕ → ℕ → Reply E

module _ {E : Type 0} where
  -- What Wait returns, and what the callback has stored as the error.
  abbrev wait_error : Reply E → Option E
  wait_error (not_sent e) = some e
  wait_error _ = none

  abbrev callback_error : Reply E → Option E
  callback_error (reply_error e) = some e
  callback_error _ = none

  -- `if err == nil { errOut = err }`
  unfoldable pub error_out : Option E → Option E → Option E
  error_out none stored = none
  error_out (some e) stored = stored

  -- Whether the server at least holds the mutation `seq_no`, and whether it has persisted it.
  unfoldable pub did_replicate : ℕ → Reply E → Bool
  did_replicate seq_no (seqnos current persist) = leb seq_no current
  did_replicate seq_no _ = false

  unfoldable pub did_persist : ℕ → Reply E → Bool
  did_persist seq_no (seqnos current persist) = leb seq_no persist
  did_persist seq_no _ = false

  -- `observeOnceSeqNo`
  unfoldable pub observe_once : ℕ → Reply E → Bool × Bool × Option E
  observe_once seq_no r =
      (did_replicate seq_no r, did_persist seq_no r, error_out (wait_error r) (callback_error r))

-- A round of an observer: it finds that it is cancelled, or it asks and gets this reply.
pub data Round (E : Type 0) : Type 0 where
  cancelled : Round E
  asks : Reply E → Round E

pub data Signal : Type 0 where
  replicated persisted : Signal

-- How an observer ends: on an error, because it is done or cancelled, or not within the rounds given.
pub data ObserverEnd : Type 0 where
  gave_up stopped running : ObserverEnd

-- The signals of one round, for what was sent before and what the reply shows.
abbrev pub signals : Bool → Bool → Bool → Bool → List Signal
signals rep pers sent_rep sent_pers =
    (if rep && not sent_rep then replicated ∷ [] else [])
    ++ (if pers && not sent_pers then persisted ∷ [] else [])

module _ {E : Type 0} (seq_no : ℕ) where
  -- `observeOne`, with the two flags for what it has sent.
  unfoldable pub observe_one : Bool → Bool → List (Round E) → List Signal × ObserverEnd
  observe_one sr sp [] = ([], running)
  observe_one sr sp (cancelled ∷ rs) = ([], stopped)
  observe_one sr sp (asks r ∷ rs) =
      let (rep, pers, e) = observe_once seq_no r in
      let rest = observe_one (sr || rep) (sp || pers) rs in
      elim e [
        | some x ↦ ([], gave_up)
        | none ↦
            if (sp || pers) && (sr || rep)
            then (signals rep pers sr sp, stopped)
            else (signals rep pers sr sp ++ rest.0, rest.1)
      ]

-- What the counting goroutine sees: a server's signal, the deadline, or a cancellation.
pub data Event : Type 0 where
  signal : ℕ → Signal → Event
  deadline cancel : Event

pub data Verdict : Type 0 where
  no_config durable impossible ambiguous_timeout request_canceled waiting : Verdict

-- The counters after a signal.
abbrev pub count_signal : Signal → Signal → ℕ → ℕ
count_signal replicated replicated n = n + 1
count_signal persisted persisted n = n + 1
count_signal _ _ n = n

module _ (replicate_to persist_to : ℕ) where
  unfoldable pub count_loop : ℕ → ℕ → List Event → Verdict
  count_loop nr np [] = waiting
  count_loop nr np (deadline ∷ es) = ambiguous_timeout
  count_loop nr np (cancel ∷ es) = request_canceled
  count_loop nr np (signal s k ∷ es) =
      let rest = count_loop (count_signal replicated k nr) (count_signal persisted k np) es in
      if leb replicate_to (count_signal replicated k nr)
        && leb persist_to (count_signal persisted k np)
      then durable
      else rest

abbrev pub same_signal : Signal → Signal → Bool
same_signal replicated replicated = true
same_signal persisted persisted = true
same_signal _ _ = false

-- The signals of one server.
unfoldable pub tagged : ℕ → List Signal → List (ℕ × Signal)
tagged s [] = []
tagged s (k ∷ ks) = (s, k) ∷ tagged s ks

-- A signal is taken from a channel, if the server has sent it.
unfoldable pub receive : ℕ → Signal → List (ℕ × Signal) → Option (List (ℕ × Signal))
receive s k [] = none
receive s k ((t, j) ∷ ps) =
    if t == s && same_signal j k
    then some ps
    else elim (receive s k ps) [ none ↦ none | some ps' ↦ some ((t, j) ∷ ps') ]

-- What the counting goroutine sees of the signals sent, in the order of a schedule; where that names a
-- signal that is not there, nothing is seen.
unfoldable pub delivered : List (ℕ × Signal) → List Event → List Event
delivered ps [] = []
delivered ps (deadline ∷ es) = deadline ∷ delivered ps es
delivered ps (cancel ∷ es) = cancel ∷ delivered ps es
delivered ps (signal s k ∷ es) = elim (receive s k ps) [
  | none ↦ delivered ps es
  | some ps' ↦ signal s k ∷ delivered ps' es
]

module _ {E : Type 0} (seq_no : ℕ) (rounds : ℕ → List (Round E)) where
  -- The loop that starts an observer for each of `n` servers from the index `idx` on, and what they all
  -- send.
  unfoldable pub start_observers : ℕ → ℕ → List (ℕ × Signal)
  start_observers zero idx = []
  start_observers (suc n) idx =
      tagged idx (observe_one seq_no false false (rounds idx)).0 ++ start_observers n (suc idx)

  module _ (replicate_to persist_to : ℕ) where
    unfoldable pub wait_with : ℕ → List Event → Verdict
    wait_with num_replicas schedule =
        if ltb num_replicas replicate_to || ltb (num_replicas + 1) persist_to
        then impossible
        else count_loop replicate_to persist_to 0 0
            (delivered (start_observers (num_replicas + 1) 0) schedule)

    -- `waitForDurability`; without a snapshot of the configuration, or a number of replicas in it, that
    -- error is returned.
    unfoldable pub wait_for_durability : Option ℕ → List Event → Verdict
    wait_for_durability none schedule = no_config
    wait_for_durability (some num_replicas) schedule = wait_with num_replicas schedule
