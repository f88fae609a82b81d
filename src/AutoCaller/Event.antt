-- ===== src/AutoCaller/Event.antt =====
-- A contract.Event as NewCall and NewRollback read it. The conversions of its parameters (stringOf
-- of eventIndexedValue, uint64Of, int64Of, contract.BytesOf) are parameters: what each yields for
-- the parameter of a name, or the error that it returns. Texts of transaction and block
-- identifiers are what `%s` prints.
use btp_sdk.Base.{ℕ, String, List}
use btp_sdk.Base.Int.{ℤ}
use btp_sdk.Base.Results.{Result}
use btp_sdk.AutoCaller.Repository.{DbError}

-- `panicked` is a Panicf of the source.
pub data Error : Type 0 where
  invalid_param : String → Error
  unknown_event : String → Error
  database : DbError → Error
  panicked : Error

pub record Event : Type 0 where
  pub name : String
  pub block_height : ℕ
  pub block_id : String
  pub tx_id : String
  pub string_of : String → Result Error String
  pub uint64_of : String → Result Error ℕ
  pub int64_of : String → Result Error ℤ
  pub bytes_of : String → Result Error (List ℕ)

-- What the Adaptor answers for a transaction, and the errors of an Invoke. `reason` is that of an
-- EstimateError, and `error_text` is what Error() prints.
pub data InvokeError : Type 0 where
  estimate_error : String → String → InvokeError
  other_error : String → InvokeError

abbrev pub error_text : InvokeError → String
error_text (estimate_error reason text) = text
error_text (other_error text) = text

pub data TxResult : Type 0 where
  success : ℕ → String → TxResult
  failure : InvokeError → TxResult

pub data ResultError : Type 0 where
  not_found_transaction other_result_error : ResultError
