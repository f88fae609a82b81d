-- ===== src/AutoCaller/RollbackRow.antt =====
-- autocaller/xcall/repository.go: a row of the rollback table, and NewRollback, which reads one from an
-- event.
use btp_sdk.Base.{ℕ, String, Bool, false, str_eq, ◌==◌, if◌then◌else◌}
use btp_sdk.Base.Int.{ℤ, pos, negsuc}
use btp_sdk.Base.Results.{Result, ok, err, ◌>>=◌}
use btp_sdk.AutoCaller.Task.{task_none, done, not_applicable, Task, new_task}
use btp_sdk.AutoCaller.Event.{Error, unknown_event, Event}

abbrev pub event_call_message_sent : String
event_call_message_sent = "CallMessageSent"

abbrev pub event_response_message : String
event_response_message = "ResponseMessage"

abbrev pub event_rollback_executed : String
event_rollback_executed = "RollbackExecuted"

abbrev pub reason_invalid_serial_num : String
reason_invalid_serial_num = "InvalidSerialNum"

abbrev pub reason_rollback_not_enabled : String
reason_rollback_not_enabled = "RollbackNotEnabled"

pub record Rollback : Type 0 where
  pub task : Task
  pub trigger_height : ℕ
  pub trigger_block_id : String
  pub trigger_finalized : Bool
  pub event_height : ℕ
  pub event_block_id : String
  pub event_finalized : Bool
  pub from : String
  pub to : String
  pub sn : ℕ
  pub exec_result_code : ℤ
  pub exec_result_msg : String

abbrev pub key : Rollback → ℕ
key c = c.task.id

abbrev pub zero_rollback : String → Rollback
zero_rollback network = record {
  task = new_task "rollback" network;
  trigger_height = 0;
  trigger_block_id = "";
  trigger_finalized = false;
  event_height = 0;
  event_block_id = "";
  event_finalized = false;
  from = "";
  to = "";
  sn = 0;
  exec_result_code = pos 0;
  exec_result_msg = "";
}

abbrev pub with_id : ℕ → Rollback → Rollback
with_id id c = record c { task = record c.task { id = id } }

-- ExecuteResultCodeSuccess
abbrev pub is_success : ℤ → Bool
is_success (pos n) = n == 0
is_success (negsuc n) = false

-- the three cases of `NewRollback`
unfoldable pub sent_fields : String → Event → Result Error Rollback
sent_fields network e = do
  from ← e.string_of "_from"
  to ← e.string_of "_to"
  ok (record (zero_rollback network) {
    trigger_height = e.block_height;
    trigger_block_id = e.block_id;
    from = from;
    to = to;
  })

unfoldable pub response_fields : String → Event → Result Error Rollback
response_fields network e = do
  code ← e.int64_of "_code"
  ok (record (zero_rollback network) {
    task = record (new_task "rollback" network) {
      state = if is_success code then not_applicable else task_none;
    };
    event_height = e.block_height;
    event_block_id = e.block_id;
  })

unfoldable pub executed_fields : String → Event → Result Error Rollback
executed_fields network e = do
  code ← e.int64_of "_code"
  msg ← e.string_of "_msg"
  ok (record (zero_rollback network) {
    task = record (new_task "rollback" network) {
      state = done;
      tx_id = e.tx_id;
      block_height = e.block_height;
      block_id = e.block_id;
    };
    exec_result_code = code;
    exec_result_msg = msg;
  })

-- `NewRollback`
unfoldable pub new_rollback : String → Event → Result Error Rollback
unfolding sent_fields response_fields executed_fields
new_rollback network e =
    let fields : Result Error Rollback =
      if str_eq e.name event_call_message_sent
      then sent_fields network e
      else if str_eq e.name event_response_message
      then response_fields network e
      else if str_eq e.name event_rollback_executed
      then executed_fields network e
      else err (unknown_event e.name) in
    fields >>= λ c. e.uint64_of "_sn" >>= λ sn. ok (record c { sn = sn })
