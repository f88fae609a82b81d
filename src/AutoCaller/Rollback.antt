-- ===== src/AutoCaller/Rollback.antt =====
-- autocaller/xcall/repository.go (SaveIfFoundStateIsNotDone of rollbacks) and
-- autocaller/xcall/autocaller.go (onRollbackEvent, executeRollback, onRollbackError,
-- rollbackResult), in the way of the module Call.
pub mod Safety
pub mod Events
use btp_sdk.Base.{
  ℕ, zero, suc, ◌≡◌, String, Bool, true, false, not, ◌||◌, ◌&&◌, Option, none, some, List, [], ◌∷◌,
  ◌++◌, str_eq, ◌==◌, if◌then◌else◌,
}
use btp_sdk.Base.Int.{ℤ, pos, negsuc}
use btp_sdk.Base.Results.{Result, ok, err, ◌>>=◌}
use btp_sdk.AutoCaller.Task.{
  TaskState, task_none, sending, sent, skip, done, error, not_applicable, Task, new_task, is_done,
}
use btp_sdk.AutoCaller.Repository.{DbError, Table, save_if}
use btp_sdk.AutoCaller.Event.{
  Error, unknown_event, database, panicked, Event, InvokeError, estimate_error, other_error,
  error_text, TxResult, success, failure, ResultError, not_found_transaction, other_result_error,
}
use btp_sdk.AutoCaller.RollbackRow.{
  event_call_message_sent, event_response_message, event_rollback_executed,
  reason_invalid_serial_num, reason_rollback_not_enabled, Rollback, key, zero_rollback, with_id,
  is_success, sent_fields, response_fields, executed_fields, new_rollback,
}

-- `FindOneByNetworkAndSn(network, sn)`
pub data RollbackQuery : Type 0 where
  by_network_and_sn : String → ℕ → RollbackQuery

abbrev pub not_done : Option Rollback → Bool
not_done none = true
not_done (some found) = not (is_done found.task.state)

-- The part of the AutoCaller that its goroutines share: the rollback table, the rollbacks whose
-- result is awaited, and for each `executeRollback` the serial number.
pub record World (t : Table Rollback RollbackQuery key) : Type 0 where
  pub store : t.Store
  pub pending : List Rollback
  pub invocations : List ℕ

-- The call that `onRollbackError` saves.
unfoldable pub failed_rollback : Rollback → InvokeError → Rollback
failed_rollback rm (estimate_error reason text) =
    if str_eq reason reason_invalid_serial_num || str_eq reason reason_rollback_not_enabled
    then record rm { task = record rm.task { state = skip; tx_id = "" } }
    else record rm { task = record rm.task { state = error; failure = text } }
failed_rollback rm (other_error text) = record rm {
  task = record rm.task { state = error; failure = text };
}

-- The row that the case EventRollbackExecuted saves.
unfoldable pub executed_rollback : Rollback → Rollback → Rollback
executed_rollback rm found = record found {
  task = record found.task {
    state = done;
    tx_id = rm.task.tx_id;
    block_height = rm.task.block_height;
    block_id = rm.task.block_id;
  };
  exec_result_code = rm.exec_result_code;
  exec_result_msg = rm.exec_result_msg;
}

abbrev pub is_not_applicable : TaskState → Bool
is_not_applicable not_applicable = true
is_not_applicable _ = false

-- The rollback that the case EventResponseMessage goes on with.
unfoldable pub responded : Rollback → Rollback → Rollback
responded rm found = record rm {
  task = record rm.task { id = found.task.id };
  trigger_height = found.trigger_height;
  trigger_block_id = found.trigger_block_id;
  from = found.from;
  to = found.to;
}

-- Input of the auto-caller: an event of a network, or the i-th awaited result.
pub data Input : Type 0 where
  event : String → Event → Result InvokeError String → Input
  result : ℕ → Result ResultError TxResult → Result InvokeError String → Input

abbrev pub take_out : ℕ → List Rollback → Option (Rollback × List Rollback)
take_out i [] = none
take_out zero (c ∷ cs) = some (c, cs)
take_out (suc i) (c ∷ cs) = elim (take_out i cs) [ none ↦ none | some r ↦ some (r.0, c ∷ r.1) ]

module _ (t : Table Rollback RollbackQuery key) where
  open t use {Store, save, find_one}

  -- `SaveIfFoundStateIsNotDone`
  unfoldable pub save_rollback : Rollback → Store → Result DbError (Store × Rollback × Bool)
  unfolding save_if
  save_rollback v s =
      if key v == 0 then (save v s >>= λ r. ok (r.0, r.1, true)) else save_if t v not_done s

  -- The error of a save is logged.
  unfoldable pub save_logged : Rollback → World t → World t
  unfolding save_rollback
  save_logged rm w = elim (save_rollback rm w.store) [ ok r ↦ record w { store = r.0 } | err e ↦ w ]

  unfoldable pub on_rollback_error : Rollback → InvokeError → World t → World t
  unfolding failed_rollback save_logged
  on_rollback_error rm e w = save_logged (failed_rollback rm e) w

  -- the end of `executeRollback`: the rollback is saved, with the primary key that this assigns, and awaited
  unfoldable pub await_rollback : Rollback → World t → World t
  unfolding save_rollback
  await_rollback rm w = elim (save_rollback rm w.store) [
    | ok r ↦ record w { store = r.0; pending = w.pending ++ r.1 ∷ [] }
    | err e ↦ record w { pending = w.pending ++ rm ∷ [] }
  ]

  unfoldable pub execute_rollback : Rollback → Result InvokeError String → World t → World t
  unfolding on_rollback_error await_rollback
  execute_rollback rm invoked w =
      let logged = record w { invocations = w.invocations ++ rm.sn ∷ [] } in
      elim invoked [
        | err e ↦ on_rollback_error rm e logged
        | ok tx ↦
            await_rollback (record rm { task = record rm.task { state = sending; tx_id = tx } })
              logged
      ]

  unfoldable pub rollback_result :
      Rollback → Result ResultError TxResult → Result InvokeError String → World t → World t
  unfolding execute_rollback on_rollback_error save_logged
  rollback_result rm (err not_found_transaction) invoked w =
      execute_rollback (record rm { task = record rm.task { tx_id = "" } }) invoked w
  rollback_result rm (err other_result_error) invoked w = record w {
    pending = w.pending ++ rm ∷ [];
  }
  rollback_result rm (ok (failure e)) invoked w = on_rollback_error rm e w
  rollback_result rm (ok (success height block_id)) invoked w =
      save_logged
        (record rm {
          task = record rm.task { state = sent; block_id = block_id; block_height = height };
        })
        w

  -- the case EventCallMessageSent of `onRollbackEvent`
  unfoldable pub on_message_sent : Rollback → Option Rollback → World t → Result Error (World t)
  on_message_sent rm none w = elim (save rm w.store) [
    | ok r ↦ ok (record w { store = r.0 })
    | err e ↦ err (database e)
  ]
  on_message_sent rm (some found) w =
      if str_eq found.to rm.to && str_eq found.from rm.from then ok w else elim (save rm w.store) [
        | ok r ↦ ok (record w { store = r.0 })
        | err e ↦ err (database e)
      ]

  -- the case EventResponseMessage
  unfoldable pub on_response :
      Rollback → Option Rollback → Result InvokeError String → World t → Result Error (World t)
  unfolding execute_rollback responded
  on_response rm none invoked w = ok w
  on_response rm (some found) invoked w =
      let rm' = responded rm found in
      elim found.task.state [
        | task_none ↦ elim (is_not_applicable rm.task.state) [
          | true ↦ elim (save rm' w.store) [
            | ok r ↦ ok (record w { store = r.0 })
            | err e ↦ err (database e)
          ]
          | false ↦ ok (execute_rollback rm' invoked w)
        ]
        | sending ↦ ok (record w { pending = w.pending ++ found ∷ [] })
        | _ ↦ ok w
      ]

  -- the case EventRollbackExecuted
  unfoldable pub on_rollback_executed :
      Rollback → Option Rollback → World t → Result Error (World t)
  unfolding executed_rollback
  on_rollback_executed rm none w = ok w
  on_rollback_executed rm (some found) w =
      if is_done found.task.state
      then ok w
      else if is_not_applicable found.task.state
      then err panicked
      else elim (save (executed_rollback rm found) w.store) [
        | ok r ↦ ok (record w { store = r.0 })
        | err e ↦ err (database e)
      ]

  unfoldable pub on_rollback_event :
      String → Event → Result InvokeError String → World t → Result Error (World t)
  unfolding new_rollback on_message_sent on_response on_rollback_executed
  on_rollback_event network e invoked w = new_rollback network e >>= λ rm.
      elim (find_one (by_network_and_sn rm.task.network rm.sn) w.store) [
        | err x ↦ err (database x)
        | ok found ↦
            if str_eq e.name event_call_message_sent
            then on_message_sent rm found w
            else if str_eq e.name event_response_message
            then on_response rm found invoked w
            else if str_eq e.name event_rollback_executed
            then on_rollback_executed rm found w
            else ok w
      ]

  -- An event whose handler returns an error changes nothing; the monitor starts again. A panic ends the
  -- program; it too leaves the stored rows as they are.
  unfoldable pub step : Input → World t → World t
  unfolding on_rollback_event rollback_result
  step (event network e invoked) w = elim (on_rollback_event network e invoked w) [
    | ok w' ↦ w'
    | err x ↦ w
  ]
  step (result i r invoked) w = elim (take_out i w.pending) [
    | none ↦ w
    | some (rm, rest) ↦ rollback_result rm r invoked (record w { pending = rest })
  ]

  unfoldable pub run : List Input → World t → World t
  unfolding step
  run [] w = w
  run (i ∷ is) w = run is (step i w)
