-- ===== src/Replicas/Results.antt =====
-- The shared result of one request for each replica (coreReplicasResult in collection_crud.go, started
-- by GetAllReplicas in kvprovider_core.go). Every method holds the lock, so that a run is a list of
-- events. How often a channel is closed is a number, since a second time is a panic, and so is how
-- often something is written to a closed one.
use gocb.Base.{ℕ, ◌+◌, ◌-◌, ◌&&◌, List, [], ◌∷◌, ltb, leb, ◌==◌, if◌then◌else◌, snoc}
use gocb.Go.Word.{add32}

pub record Results (A : Type 0) : Type 0 where
  pub total_requests : ℕ
  pub success_results : ℕ
  pub total_results : ℕ
  pub sent : List A
  pub sent_late : ℕ
  pub res_closed : ℕ
  pub cancel_closed : ℕ
  pub children_closed : ℕ
  pub span_ended : ℕ
  pub closing : ℕ

module _ {A : Type 0} where
  -- For this many servers; with none, everything is closed at once.
  unfoldable pub start_results : ℕ → Results A
  start_results n =
      let done = if n == 0 then 1 else 0 in
      record {
        total_requests = n;
        success_results = 0;
        total_results = 0;
        sent = [];
        sent_late = 0;
        res_closed = done;
        cancel_closed = done;
        children_closed = done;
        span_ended = done;
        closing = 0;
      }

  -- One request more is over.
  unfoldable pub add_failed : Results A → Results A
  add_failed s = record s {
    total_results = add32 s.total_results 1;
    children_closed =
        if add32 s.total_results 1 == s.total_requests
        then s.children_closed + 1
        else s.children_closed;
  }

  -- `resCh <- res`
  unfoldable pub send_result : A → Results A → Results A
  send_result a s = record s {
    sent = snoc s.sent a;
    sent_late = if s.res_closed == 0 then s.sent_late else s.sent_late + 1;
  }

  unfoldable pub end_results : Results A → Results A
  end_results s = record s {
    cancel_closed = s.cancel_closed + 1;
    res_closed = s.res_closed + 1;
    span_ended = s.span_ended + 1;
  }

  unfoldable pub add_result : A → Results A → Results A
  add_result a s =
      let count = add32 s.success_results 1 in
      let counted = record s { success_results = count } in
      let written = if leb count s.total_requests then send_result a counted else counted in
      let ended = if count == s.total_requests then end_results written else written in
      add_failed ended

  -- `Close`, up to where it gives the lock back: a call that has closed the channels is left waiting.
  unfoldable pub close_results : Results A → Results A
  close_results s =
      let counted = record s { success_results = add32 s.success_results 100_000 } in
      if ltb s.success_results s.total_requests
      then record counted {
        cancel_closed = s.cancel_closed + 1;
        res_closed = s.res_closed + 1;
        closing = s.closing + 1;
      }
      else counted

  -- A waiting call sees that all requests are over, and ends the span; before that it is blocked.
  unfoldable pub finish_close : Results A → Results A
  finish_close s =
      if ltb 0 s.closing && ltb 0 s.children_closed
      then record s { closing = s.closing - 1; span_ended = s.span_ended + 1 }
      else s

pub data Event (A : Type 0) : Type 0 where
  failed close_called close_wakes : Event A
  result : A → Event A

module _ {A : Type 0} where
  unfoldable pub on_event : Event A → Results A → Results A
  on_event failed s = add_failed s
  on_event (result a) s = add_result a s
  on_event close_called s = close_results s
  on_event close_wakes s = finish_close s

  unfoldable pub run_events : List (Event A) → Results A → Results A
  run_events [] s = s
  run_events (e ∷ es) s = run_events es (on_event e s)
