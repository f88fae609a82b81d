-- ===== src/AutoCaller/Params.antt =====
-- autocaller/xcall/autocaller.go: stringOf, uint64Of and int64Of, with which NewCall and NewRollback read the
-- parameters of an event.
use btp_sdk.Base.{arith, ℕ, ◌≡◌, ◌<◌, ◌^◌, String}
use btp_sdk.Base.Int.{ℤ}
use btp_sdk.Base.Results.{Result, ok, err}
use btp_sdk.Convert.{Value, string, address, go_string, go_uint, Failure, Outside}
use btp_sdk.Convert.Primitive.{integer_of}
use btp_sdk.Convert.Integers.{NumberError, as_uint64, as_int64, ReadsBack, integer_of-as_uint64}

pub data ParamError : Type 0 where
  conversion : Failure → ParamError
  number : NumberError → ParamError
  invalid_type : ParamError

unfoldable pub string_of : Value → Result ParamError String
string_of (string s) = ok s
string_of (go_string s) = ok s
string_of (address s) = ok s
string_of _ = err invalid_type

abbrev number_result {ℓ} : {A : Type ℓ} → Result NumberError A → Result ParamError A
number_result (ok n) = ok n
number_result (err e) = err (number e)

module _ (out : Outside) where
  unfoldable pub uint64_of : Value → Result ParamError ℕ
  uint64_of v = elim (integer_of out v) [
    | err e ↦ err (conversion e)
    | ok i ↦ number_result (as_uint64 out i)
  ]

  unfoldable pub int64_of : Value → Result ParamError ℤ
  int64_of v = elim (integer_of out v) [
    | err e ↦ err (conversion e)
    | ok i ↦ number_result (as_int64 out i)
  ]

  -- Where printed numbers are read back, every number of 64 bits comes back from the parameter it is.
  pub uint64_of-go_uint : ReadsBack out → (n : ℕ) → n < 2 ^ 64 → uint64_of (go_uint n) ≡ ok n
  unfolding uint64_of
  uint64_of-go_uint back n small =
      let (s, i, u) = integer_of-as_uint64 out back n small in ground (arith, i, u)
