-- ===== src/AutoCaller/Task.antt =====
-- autocaller/factory.go: TaskState with its texts, and Task without the time stamps of its Model.
use btp_sdk.Base.{ℕ, ◌≡◌, ◌↔◌, String, Bool, str_eq, eq_iff, if◌then◌else◌, arith, refl}
use btp_sdk.Base.Results.{Result, ok, err}

pub data TaskState : Type 0 where
  task_none sending sent skip done error not_applicable : TaskState

unfoldable pub to_string : TaskState → String
to_string task_none = "none"
to_string sending = "sending"
to_string sent = "sent"
to_string skip = "skip"
to_string done = "done"
to_string error = "error"
to_string not_applicable = "not_applicable"

pub data ParseError : Type 0 where
  invalid_task_state : String → ParseError

unfoldable pub parse_task_state : String → Result ParseError TaskState
parse_task_state s =
    if str_eq s "none"
    then ok task_none
    else if str_eq s "sending"
    then ok sending
    else if str_eq s "sent"
    then ok sent
    else if str_eq s "skip"
    then ok skip
    else if str_eq s "done"
    then ok done
    else if str_eq s "error"
    then ok error
    else if str_eq s "not_applicable"
    then ok not_applicable
    else err (invalid_task_state s)

pub parse-to_string : (st : TaskState) → parse_task_state (to_string st) ≡ ok st
unfolding parse_task_state to_string
parse-to_string task_none = refl
parse-to_string sending = refl
parse-to_string sent = refl
parse-to_string skip = refl
parse-to_string done = refl
parse-to_string error = refl
parse-to_string not_applicable = refl

parses : (s : String) (st : TaskState) → parse_task_state s ≡ ok st → s ≡ to_string st
unfolding parse_task_state to_string
parses s task_none h = ground (arith, eq_iff s "none")
parses s sending h = ground (arith, eq_iff s "sending")
parses s sent h = ground (arith, eq_iff s "sent")
parses s skip h = ground (arith, eq_iff s "skip")
parses s done h = ground (arith, eq_iff s "done")
parses s error h = ground (arith, eq_iff s "error")
parses s not_applicable h = ground (arith, eq_iff s "not_applicable")

-- A text parses to a state exactly when it is the text of this state, so parsing and printing
-- are inverse to each other and every other text is refused.
pub parse_iff : (s : String) (st : TaskState) → (parse_task_state s ≡ ok st) ↔ (s ≡ to_string st)
parse_iff s st = (parses s st, λ h. rw h (parse-to_string st))

pub record Task : Type 0 where
  pub id : ℕ
  pub name : String
  pub network : String
  pub state : TaskState
  pub tx_id : String
  pub block_height : ℕ
  pub block_id : String
  pub finalized : Bool
  pub failure : String

-- a new Task with every other field zero
abbrev pub new_task : String → String → Task
new_task name network = record {
  id = 0;
  name = name;
  network = network;
  state = task_none;
  tx_id = "";
  block_height = 0;
  block_id = "";
  finalized = Bool.false;
  failure = "";
}

abbrev pub is_done : TaskState → Bool
is_done done = Bool.true
is_done _ = Bool.false
