-- ===== src/AutoCaller/CallRow.antt =====
-- autocaller/xcall/repository.go: a row of the call table, and NewCall, which reads one from an event.
use btp_sdk.Base.{ℕ, String, Bool, false, List, [], str_eq, if◌then◌else◌}
use btp_sdk.Base.Int.{ℤ, pos}
use btp_sdk.Base.Results.{Result, ok, err, ◌>>=◌}
use btp_sdk.AutoCaller.Task.{done, Task, new_task}
use btp_sdk.AutoCaller.Event.{Error, unknown_event, Event}

abbrev pub event_call_message : String
event_call_message = "CallMessage"

abbrev pub event_call_executed : String
event_call_executed = "CallExecuted"

abbrev pub reason_invalid_request_id : String
reason_invalid_request_id = "InvalidRequestId"

pub record Call : Type 0 where
  pub task : Task
  pub event_height : ℕ
  pub event_block_id : String
  pub event_finalized : Bool
  pub from : String
  pub to : String
  pub sn : ℕ
  pub req_id : ℕ
  pub calldata : List ℕ
  pub exec_result_code : ℤ
  pub exec_result_msg : String

abbrev pub zero_call : String → Call
zero_call network = record {
  task = new_task "call" network;
  event_height = 0;
  event_block_id = "";
  event_finalized = false;
  from = "";
  to = "";
  sn = 0;
  req_id = 0;
  calldata = [];
  exec_result_code = pos 0;
  exec_result_msg = "";
}

abbrev pub key : Call → ℕ
key c = c.task.id

abbrev pub with_id : ℕ → Call → Call
with_id id c = record c { task = record c.task { id = id } }

-- `NewCall`
unfoldable pub new_call : String → Event → Result Error Call
new_call network e =
    let fields : Result Error Call =
      if str_eq e.name event_call_message
      then (do
        from ← e.string_of "_from"
        to ← e.string_of "_to"
        sn ← e.uint64_of "_sn"
        bytes ← e.bytes_of "_data"
        ok (record (zero_call network) {
          event_height = e.block_height;
          event_block_id = e.block_id;
          from = from;
          to = to;
          sn = sn;
          calldata = bytes;
        }))
      else if str_eq e.name event_call_executed
      then (do
        code ← e.int64_of "_code"
        msg ← e.string_of "_msg"
        ok (record (zero_call network) {
          task = record (new_task "call" network) {
            state = done;
            tx_id = e.tx_id;
            block_height = e.block_height;
            block_id = e.block_id;
          };
          exec_result_code = code;
          exec_result_msg = msg;
        }))
      else err (unknown_event e.name) in
    fields >>= λ c. e.uint64_of "_reqId" >>= λ req_id. ok (record c { req_id = req_id })
