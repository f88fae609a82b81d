-- ===== src/Convert/Primitive.antt =====
-- contract/convert.go: the conversions to the types that hold no other value.
use btp_sdk.Base.{ℕ, String, Bool, none, some, List, if◌then◌else◌}
use btp_sdk.Base.Int.{pos}
use btp_sdk.Base.Results.{Result, ok, err, ◌>>=◌}
use btp_sdk.Spec.{TypeId, t_integer, t_boolean, t_string, t_bytes, t_address}
use btp_sdk.Convert.{
  Value, integer, boolean, string, bytes, address, go_int, go_uint, go_big_int, go_big_int_pointer,
  go_bool, go_string, go_bytes, reflected, Failure, invalid_param, Outside,
}
use Prim.Native.String.{slice, len}
use text.Mathlib.Text.{starts_with}

module _ (out : Outside) where
  -- `integerOf`
  unfoldable pub parse_integer : String → Result Failure String
  parse_integer s = elim (out.parse_big_int s) [ some z ↦ ok s | none ↦ err invalid_param ]

  unfoldable pub integer_of : Value → Result Failure String
  unfolding parse_integer
  integer_of (integer s) = ok s
  integer_of (string s) = parse_integer s
  integer_of (go_string s) = parse_integer s
  integer_of (go_bytes b) = ok (out.format_big_int (out.big_int_set_bytes b))
  integer_of (go_big_int z) = ok (out.format_big_int z)
  integer_of (go_big_int_pointer z) = ok (out.format_big_int z)
  integer_of (go_int z) = ok (out.format_big_int z)
  integer_of (go_uint n) = ok (out.format_big_int (pos n))
  integer_of _ = err invalid_param

  -- `bytesOf`
  unfoldable pub parse_bytes : String → Result Failure (List ℕ)
  parse_bytes s =
      elim (if starts_with s "0x"
        then out.decode_hex (slice s 2 (len s))
        else out.decode_base64 s) [ some b ↦ ok b | none ↦ err invalid_param ]

  unfoldable pub bytes_of : Value → Result Failure (List ℕ)
  unfolding parse_bytes
  bytes_of (bytes b) = ok b
  bytes_of (go_bytes b) = ok b
  bytes_of (string s) = parse_bytes s
  bytes_of (go_string s) = parse_bytes s
  bytes_of _ = err invalid_param

unfoldable pub boolean_of : Value → Result Failure Bool
boolean_of (boolean b) = ok b
boolean_of (go_bool b) = ok b
boolean_of _ = err invalid_param

unfoldable pub string_of : Value → Result Failure String
string_of (string s) = ok s
string_of (go_string s) = ok s
string_of _ = err invalid_param

unfoldable pub address_of : Value → Result Failure String
address_of (address s) = ok s
address_of (string s) = ok s
address_of (go_string s) = ok s
address_of _ = err invalid_param

module _ (out : Outside) where
  -- the `switch` of `primitiveParamOf`
  unfoldable pub primitive_of : TypeId → Value → Result Failure Value
  unfolding integer_of bytes_of boolean_of string_of address_of
  primitive_of t_integer v = integer_of out v >>= λ s. ok (integer s)
  primitive_of t_string v = string_of v >>= λ s. ok (string s)
  primitive_of t_address v = address_of v >>= λ s. ok (address s)
  primitive_of t_bytes v = bytes_of out v >>= λ b. ok (bytes b)
  primitive_of t_boolean v = boolean_of v >>= λ b. ok (boolean b)
  primitive_of _ v = err invalid_param

  -- `primitiveParamOf`, which first takes the value out of a `reflect.Value`
  unfoldable pub primitive_param_of : TypeId → Value → Result Failure Value
  unfolding primitive_of
  primitive_param_of t (reflected v) = primitive_of t v
  primitive_param_of t v = primitive_of t v
