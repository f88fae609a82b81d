-- ===== src/Tracker/Event.antt =====
-- tracker/bmc/repository.go (type BTPEvent) and the constants of tracker/bmc/tracker.go.
-- The time stamps of database.Model are left out: nothing modelled reads them.
use btp_sdk.Base.{ℕ, String, Bool, true, false}
use btp_sdk.Base.Int.{ℤ}

pub record BtpEvent : Type 0 where
  pub id : ℕ
  pub src : String
  pub nsn : ℤ
  pub next : String
  pub event : String
  pub block_id : ℕ
  pub btp_status_id : ℕ
  pub tx_hash : String
  pub event_id : ℕ  -- the decimal text of an index in the source
  pub network_name : String
  pub network_address : String
  pub finalized : Bool

abbrev pub send : String
send = "SEND"

abbrev pub route : String
route = "ROUTE"

abbrev pub receive : String
receive = "RECEIVE"

abbrev pub reply : String
reply = "REPLY"

abbrev pub dropped : String
dropped = "DROP"

abbrev pub error : String
error = "ERROR"

-- the constants Unknown, Sending, WaitReply, Replying and Completed
pub data Status : Type 0 where
  unknown sending wait_reply replying completed : Status

pub Status-discrete : Discrete Status
Status-discrete = hlevel

abbrev pub is_completed : Status → Bool
is_completed completed = true
is_completed _ = false
