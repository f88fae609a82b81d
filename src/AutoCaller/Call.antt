-- ===== src/AutoCaller/Call.antt =====
-- autocaller/xcall/repository.go (SaveIfFoundStateIsNotDone of calls) and
-- autocaller/xcall/autocaller.go (onCallEvent, executeCall, onCallError, callResult).
-- A `go c.callResult(cm)` puts the call on the list `pending`; a step of its own runs it later, in
-- any order. What Invoke and GetResult answer is an argument of the step. Failures of a save
-- that the source only logs leave the store as it was.
pub mod Safety
pub mod Events
use btp_sdk.Base.{
  ℕ, zero, suc, ◌≡◌, String, Bool, true, false, not, Option, none, some, List, [], ◌∷◌, ◌++◌,
  str_eq, ◌==◌, if◌then◌else◌,
}
use btp_sdk.Base.Int.{ℤ, pos}
use btp_sdk.Base.Results.{Result, ok, err, ◌>>=◌}
use btp_sdk.AutoCaller.Task.{
  TaskState, task_none, sending, sent, skip, done, error, not_applicable, Task, new_task, is_done,
}
use btp_sdk.AutoCaller.Repository.{DbError, Table, save_if}
use btp_sdk.AutoCaller.Event.{
  Error, unknown_event, database, Event, InvokeError, estimate_error, other_error, error_text,
  TxResult, success, failure, ResultError, not_found_transaction, other_result_error,
}
use btp_sdk.AutoCaller.CallRow.{
  event_call_message, event_call_executed, reason_invalid_request_id, Call, zero_call, key, with_id,
  new_call,
}

-- `FindOneByNetworkAndReqID(network, reqID)`
pub data CallQuery : Type 0 where
  by_network_and_req_id : String → ℕ → CallQuery

abbrev pub not_done : Option Call → Bool
not_done none = true
not_done (some found) = not (is_done found.task.state)

-- The part of the AutoCaller that its goroutines share: the call table, the calls whose result
-- is awaited, and for each `executeCall` the request id.
pub record World (t : Table Call CallQuery key) : Type 0 where
  pub store : t.Store
  pub pending : List Call
  pub invocations : List ℕ

-- The call that `onCallError` saves.
unfoldable pub failed_call : Call → InvokeError → Call
failed_call cm (estimate_error reason text) =
    if str_eq reason reason_invalid_request_id
    then record cm { task = record cm.task { state = skip; tx_id = "" } }
    else record cm { task = record cm.task { state = error; failure = text } }
failed_call cm (other_error text) = record cm {
  task = record cm.task { state = error; failure = text };
}

-- The row that the case EventCallExecuted saves.
unfoldable pub executed_call : Call → Call → Call
executed_call cm found = record found {
  task = record found.task {
    state = done;
    tx_id = cm.task.tx_id;
    block_height = cm.task.block_height;
    block_id = cm.task.block_id;
  };
  exec_result_code = cm.exec_result_code;
  exec_result_msg = cm.exec_result_msg;
}

-- Input of the auto-caller: an event of a network, or the i-th awaited result.
pub data Input : Type 0 where
  event : String → Event → Result InvokeError String → Input
  result : ℕ → Result ResultError TxResult → Result InvokeError String → Input

abbrev pub take_out : ℕ → List Call → Option (Call × List Call)
take_out i [] = none
take_out zero (c ∷ cs) = some (c, cs)
take_out (suc i) (c ∷ cs) = elim (take_out i cs) [ none ↦ none | some r ↦ some (r.0, c ∷ r.1) ]

module _ (t : Table Call CallQuery key) where
  open t use {Store, save, find_one}

  -- `SaveIfFoundStateIsNotDone`
  unfoldable pub save_call : Call → Store → Result DbError (Store × Call × Bool)
  unfolding save_if
  save_call v s =
      if key v == 0 then (save v s >>= λ r. ok (r.0, r.1, true)) else save_if t v not_done s

  -- The error of a save is logged.
  unfoldable pub save_logged : Call → World t → World t
  unfolding save_call
  save_logged cm w = elim (save_call cm w.store) [ ok r ↦ record w { store = r.0 } | err e ↦ w ]

  unfoldable pub on_call_error : Call → InvokeError → World t → World t
  unfolding failed_call save_logged
  on_call_error cm e w = save_logged (failed_call cm e) w

  -- the end of `executeCall`: the call is saved, with the primary key that this assigns, and awaited
  unfoldable pub await_call : Call → World t → World t
  unfolding save_call
  await_call cm w = elim (save_call cm w.store) [
    | ok r ↦ record w { store = r.0; pending = w.pending ++ r.1 ∷ [] }
    | err e ↦ record w { pending = w.pending ++ cm ∷ [] }
  ]

  unfoldable pub execute_call : Call → Result InvokeError String → World t → World t
  unfolding on_call_error await_call
  execute_call cm invoked w =
      let logged = record w { invocations = w.invocations ++ cm.req_id ∷ [] } in
      elim invoked [
        | err e ↦ on_call_error cm e logged
        | ok tx ↦
            await_call (record cm { task = record cm.task { state = sending; tx_id = tx } }) logged
      ]

  unfoldable pub call_result :
      Call → Result ResultError TxResult → Result InvokeError String → World t → World t
  unfolding execute_call on_call_error save_logged
  call_result cm (err not_found_transaction) invoked w =
      execute_call (record cm { task = record cm.task { tx_id = "" } }) invoked w
  call_result cm (err other_result_error) invoked w = record w { pending = w.pending ++ cm ∷ [] }
  call_result cm (ok (failure e)) invoked w = on_call_error cm e w
  call_result cm (ok (success height block_id)) invoked w =
      save_logged
        (record cm {
          task = record cm.task { state = sent; block_id = block_id; block_height = height };
        })
        w

  -- the case EventCallMessage of `onCallEvent`
  unfoldable pub on_call_message :
      Call → Option Call → Result InvokeError String → World t → World t
  unfolding execute_call
  on_call_message cm none invoked w = execute_call cm invoked w
  on_call_message cm (some found) invoked w = elim found.task.state [
    | task_none ↦ execute_call (with_id found.task.id cm) invoked w
    | sending ↦ record w { pending = w.pending ++ found ∷ [] }
    | _ ↦ w
  ]

  -- the case EventCallExecuted
  unfoldable pub on_call_executed : Call → Option Call → World t → Result Error (World t)
  unfolding executed_call
  on_call_executed cm none w = ok w
  on_call_executed cm (some found) w =
      if is_done found.task.state then ok w else elim (save (executed_call cm found) w.store) [
        | ok r ↦ ok (record w { store = r.0 })
        | err e ↦ err (database e)
      ]

  unfoldable pub on_call_event :
      String → Event → Result InvokeError String → World t → Result Error (World t)
  unfolding new_call on_call_message on_call_executed
  on_call_event network e invoked w = new_call network e >>= λ cm.
      elim (find_one (by_network_and_req_id cm.task.network cm.req_id) w.store) [
        | err x ↦ err (database x)
        | ok found ↦
            if str_eq e.name event_call_message
            then ok (on_call_message cm found invoked w)
            else if str_eq e.name event_call_executed
            then on_call_executed cm found w
            else ok w
      ]

  -- An event whose handler returns an error changes nothing; the monitor starts again.
  unfoldable pub step : Input → World t → World t
  unfolding on_call_event call_result
  step (event network e invoked) w = elim (on_call_event network e invoked w) [
    | ok w' ↦ w'
    | err x ↦ w
  ]
  step (result i r invoked) w = elim (take_out i w.pending) [
    | none ↦ w
    | some (cm, rest) ↦ call_result cm r invoked (record w { pending = rest })
  ]

  unfoldable pub run : List Input → World t → World t
  unfolding step
  run [] w = w
  run (i ∷ is) w = run is (step i w)
