-- ===== src/Tests/Rollbacks.antt =====
-- A failed call whose rollback is executed, on a table in memory.
use btp_sdk.Base.{
  ◌≡◌, refl, ◌⊎◌, String, Bool, false, ◌&&◌, some, List, [], ◌∷◌, ◌++◌, str_eq, ◌==◌, if◌then◌else◌,
}
use btp_sdk.Base.Int.{ℤ, pos, negsuc}
use btp_sdk.Base.Results.{ok, err}
use btp_sdk.AutoCaller.Task.{TaskState, task_none, sending, done, new_task}
use btp_sdk.AutoCaller.Repository.{Table, IsTable}
use btp_sdk.AutoCaller.Memory.{no_rows, save_row, write, find_below, memory, memory-IsTable}
use btp_sdk.AutoCaller.Event.{invalid_param, Event, success}
use btp_sdk.AutoCaller.RollbackRow.{
  Rollback, zero_rollback, key, with_id, new_rollback, event_call_message_sent,
  event_response_message, event_rollback_executed, response_fields,
}
use btp_sdk.AutoCaller.Rollback.{
  RollbackQuery, by_network_and_sn, is_not_applicable, World, Input, event, result, run,
  on_rollback_event, on_response, responded, execute_rollback, await_rollback, save_rollback,
}
use btp_sdk.AutoCaller.Repository.{save_if}
use btp_sdk.AutoCaller.Rollback.Safety.{Fits, rollback_run-Fits, rollback_run-done_final}
use btp_sdk.AutoCaller.Rollback.Events.{on_rollback_event_invokes}

abbrev matches : RollbackQuery → Rollback → Bool
matches (by_network_and_sn network sn) c = str_eq c.task.network network && c.sn == sn

abbrev rollbacks : Table Rollback RollbackQuery key
rollbacks = memory key with_id matches

rollbacks-IsTable : IsTable rollbacks with_id
rollbacks-IsTable = memory-IsTable key with_id matches (λ id v. refl) (λ v. refl)

abbrev rollback_event : String → ℤ → Event
rollback_event name code = record {
  name = name;
  block_height = 8;
  block_id = "0xb8";
  tx_id = "0xt1";
  string_of = λ p. if str_eq p "_from" then ok "cx1" else ok "cx2";
  uint64_of = λ p. ok 4;
  int64_of = λ p. ok code;
  bytes_of = λ p. err (invalid_param p);
}

abbrev failed_response : Event
failed_response = rollback_event event_response_message (negsuc 0)

abbrev history : List Input
history =
    event "net1" (rollback_event event_call_message_sent (pos 0)) (ok "")
    ∷ event "net1" failed_response (ok "0xaa")
    ∷ result 0 (ok (success 9 "0xb9")) (ok "0xbb")
    ∷ event "net1" (rollback_event event_rollback_executed (pos 0)) (ok "")
    ∷ []

abbrev no_rollbacks : World rollbacks
unfolding memory
no_rollbacks = record { store = no_rows; pending = []; invocations = [] }

rollback_run-Fits_example :
    Fits
      (rollbacks.row no_rollbacks.store 1)
      (rollbacks.row (run rollbacks history no_rollbacks).store 1)
rollback_run-Fits_example = rollback_run-Fits rollbacks rollbacks-IsTable history no_rollbacks 1

-- a rollback with a primary key, in a state
abbrev known : TaskState → Rollback
known st = record (zero_rollback "net1") {
  task = record (new_task "rollback" "net1") { id = 1; state = st };
  from = "cx1";
  to = "cx2";
  sn = 4;
}

abbrev with_row : Rollback → World rollbacks
unfolding memory write
with_row c = record no_rollbacks {
  store = record (write key with_id matches 1 c no_rows) { last_id = 1 };
}

rollback_run-done_final_example :
    rollbacks.row (run rollbacks history (with_row (known done))).store 1 ≡ some (known done)
unfolding with_row memory write
rollback_run-done_final_example =
    rollback_run-done_final rollbacks rollbacks-IsTable history (with_row (known done)) 1
      (known done) refl refl

-- the rollback that the response starts, and the world after it
abbrev started : Rollback
started = record (known sending) {
  task = record (new_task "rollback" "net1") { id = 1; state = sending; tx_id = "0xaa" };
  event_height = 8;
  event_block_id = "0xb8";
}

abbrev after_response : World rollbacks
unfolding memory write with_row
after_response = record {
  store = write key with_id matches 1 started (with_row (known task_none)).store;
  pending = started ∷ [];
  invocations = 4 ∷ [];
}

response_handled :
    on_rollback_event rollbacks "net1" failed_response (ok "0xaa") (with_row (known task_none))
    ≡ ok after_response
unfolding on_rollback_event new_rollback response_fields memory with_row find_below write
    on_response responded execute_rollback await_rollback save_rollback save_if save_row
    after_response
response_handled = refl

on_rollback_event_invokes_example :
    (after_response.invocations ≡ (with_row (known task_none)).invocations)
    ⊎ ((rm : Rollback) × (found : Rollback) × (failed_response.name ≡ event_response_message)
        × (new_rollback "net1" failed_response ≡ ok rm)
        × (is_not_applicable rm.task.state ≡ false)
        × (rollbacks.find_one
              (by_network_and_sn rm.task.network rm.sn)
              (with_row (known task_none)).store
            ≡ ok (some found))
        × (found.task.state ≡ task_none)
        × (after_response.invocations ≡ (with_row (known task_none)).invocations ++ rm.sn ∷ []))
on_rollback_event_invokes_example =
    on_rollback_event_invokes rollbacks "net1" failed_response (ok "0xaa")
      (with_row (known task_none)) after_response response_handled
