-- ===== src/Convert/Must.antt =====
-- contract/convert.go: the wrappers that panic where the conversion that they call fails.
use btp_sdk.Base.{ℕ, String, Bool, List}
use btp_sdk.Base.Results.{Result}
use btp_sdk.Convert.{Value, KeyValues, Failure, Outside, must}
use btp_sdk.Convert.Primitive.{integer_of, boolean_of, string_of, bytes_of, address_of}
use btp_sdk.Convert.Untyped.{param_of, struct_of, params_of}

module _ (out : Outside) where
  abbrev pub must_param_of : Value → Result Failure Value
  must_param_of v = must (param_of out v)

  abbrev pub must_integer_of : Value → Result Failure String
  must_integer_of v = must (integer_of out v)

  abbrev pub must_boolean_of : Value → Result Failure Bool
  must_boolean_of v = must (boolean_of v)

  abbrev pub must_string_of : Value → Result Failure String
  must_string_of v = must (string_of v)

  abbrev pub must_bytes_of : Value → Result Failure (List ℕ)
  must_bytes_of v = must (bytes_of out v)

  abbrev pub must_struct_of : Value → Result Failure (String × KeyValues)
  must_struct_of v = must (struct_of out v)

  abbrev pub must_address_of : Value → Result Failure String
  must_address_of v = must (address_of v)

  abbrev pub must_params_of : Value → Result Failure KeyValues
  must_params_of v = must (params_of out v)
