-- ===== src/Tests/Calls.antt =====
-- A call message that is executed, its result and its CallExecuted event, on a table in memory.
use btp_sdk.Base.{
  ◌≡◌, refl, ◌⊎◌, Bool, false, ◌&&◌, Option, some, List, [], ◌∷◌, ◌++◌, str_eq, ◌==◌, if◌then◌else◌,
}
use btp_sdk.Base.Int.{pos}
use btp_sdk.Base.Results.{ok, err}
use btp_sdk.AutoCaller.Task.{TaskState, done, new_task}
use btp_sdk.AutoCaller.Repository.{Table, IsTable}
use btp_sdk.AutoCaller.Memory.{no_rows, save_row, write, find_below, memory, memory-IsTable}
use btp_sdk.AutoCaller.Event.{invalid_param, Event, success}
use btp_sdk.AutoCaller.CallRow.{
  Call, zero_call, key, with_id, new_call, event_call_message, event_call_executed,
}
use btp_sdk.AutoCaller.Call.{
  CallQuery, by_network_and_req_id, World, Input, event, result, run, on_call_event,
  on_call_executed, executed_call,
}
use btp_sdk.AutoCaller.Call.Safety.{Fits, run-Fits, run-done_final}
use btp_sdk.AutoCaller.Call.Events.{IsDue, on_call_event_invokes, on_call_event-executed}

abbrev matches : CallQuery → Call → Bool
matches (by_network_and_req_id network req_id) c =
    str_eq c.task.network network && c.req_id == req_id

abbrev calls : Table Call CallQuery key
calls = memory key with_id matches

calls-IsTable : IsTable calls with_id
calls-IsTable = memory-IsTable key with_id matches (λ id v. refl) (λ v. refl)

abbrev no_calls : World calls
unfolding memory
no_calls = record { store = no_rows; pending = []; invocations = [] }

abbrev call_message : Event
call_message = record {
  name = event_call_message;
  block_height = 8;
  block_id = "0xb8";
  tx_id = "0xt1";
  string_of = λ p. if str_eq p "_from" then ok "cx1" else ok "cx2";
  uint64_of = λ p. if str_eq p "_sn" then ok 4 else ok 7;
  int64_of = λ p. err (invalid_param p);
  bytes_of = λ p. ok (1 ∷ 2 ∷ []);
}

abbrev call_executed : Event
call_executed = record {
  name = event_call_executed;
  block_height = 9;
  block_id = "0xb9";
  tx_id = "0xt2";
  string_of = λ p. ok "";
  uint64_of = λ p. ok 7;
  int64_of = λ p. ok (pos 0);
  bytes_of = λ p. err (invalid_param p);
}

abbrev history : List Input
history =
    event "net1" call_message (ok "0xaa")
    ∷ result 0 (ok (success 9 "0xb9")) (ok "0xbb")
    ∷ event "net1" call_executed (ok "0xcc")
    ∷ []

run-Fits_example :
    Fits (calls.row no_calls.store 1) (calls.row (run calls history no_calls).store 1)
run-Fits_example = run-Fits calls calls-IsTable history no_calls 1

-- the call of call_message, sent and not done, in row 1
abbrev sent_call : Call
sent_call = record {
  task = record (new_task "call" "net1") { id = 1; state = TaskState.sent; tx_id = "0xaa" };
  event_height = 8;
  event_block_id = "0xb8";
  event_finalized = false;
  from = "cx1";
  to = "cx2";
  sn = 4;
  req_id = 7;
  calldata = 1 ∷ 2 ∷ [];
  exec_result_code = pos 0;
  exec_result_msg = "";
}

abbrev one_call : World calls
unfolding memory write
one_call = record no_calls {
  store = record (write key with_id matches 1 sent_call no_rows) { last_id = 1 };
}

abbrev executed : Call
executed = record (zero_call "net1") {
  task = record (new_task "call" "net1") {
    state = done;
    tx_id = "0xt2";
    block_height = 9;
    block_id = "0xb9";
  };
  req_id = 7;
}

abbrev one_executed : World calls
unfolding memory write executed_call
one_executed = record one_call {
  store = write key with_id matches 1 (executed_call executed sent_call) one_call.store;
}

new_call-executed : new_call "net1" call_executed ≡ ok executed
unfolding new_call
new_call-executed = refl

found_call : calls.find_one (by_network_and_req_id "net1" 7) one_call.store ≡ ok (some sent_call)
unfolding memory one_call find_below write
found_call = refl

handled : on_call_event calls "net1" call_executed (ok "0xcc") one_call ≡ ok one_executed
unfolding on_call_event new_call memory one_call one_executed find_below write on_call_executed
    save_row executed_call
handled = refl

run-done_final_example :
    calls.row (run calls history one_executed).store 1 ≡ some (executed_call executed sent_call)
unfolding one_executed memory write executed_call
run-done_final_example =
    run-done_final calls calls-IsTable history one_executed 1 (executed_call executed sent_call)
      refl refl

on_call_event_invokes_example :
    (one_executed.invocations ≡ one_call.invocations)
    ⊎ ((cm : Call) × (o : Option Call) × (call_executed.name ≡ event_call_message)
        × (new_call "net1" call_executed ≡ ok cm)
        × (calls.find_one (by_network_and_req_id cm.task.network cm.req_id) one_call.store ≡ ok o)
        × (one_executed.invocations ≡ one_call.invocations ++ cm.req_id ∷ [])
        × IsDue calls o)
on_call_event_invokes_example =
    on_call_event_invokes calls "net1" call_executed (ok "0xcc") one_call one_executed handled

on_call_event-executed_example :
    (c : Call) × (calls.row one_executed.store 1 ≡ some c)
    × (c.task.state ≡ done)
    × (c.req_id ≡ sent_call.req_id)
    × (c.task.tx_id ≡ call_executed.tx_id)
    × (c.task.block_height ≡ call_executed.block_height)
    × (c.task.block_id ≡ call_executed.block_id)
    × (call_executed.int64_of "_code" ≡ ok c.exec_result_code)
    × (call_executed.string_of "_msg" ≡ ok c.exec_result_msg)
on_call_event-executed_example =
    on_call_event-executed calls calls-IsTable "net1" call_executed (ok "0xcc") one_call
      one_executed executed sent_call refl new_call-executed found_call refl handled
