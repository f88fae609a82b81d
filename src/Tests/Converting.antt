-- ===== src/Tests/Converting.antt =====
-- A message with a number and a list of texts, converted to a struct of a specification. A number is
-- printed as so many letters b, after a letter n if it is negative.
use Prim.Native.Char.{Char}
use Prim.Native.String.{[] as []ₛ, ◌∷◌ as ◌∷ₛ◌}
use btp_sdk.Base.{
  ℕ, zero, suc, ◌≡◌, ◌↔◌, ◌<◌, ◌≤◌, ◌^◌, refl, String, Bool, true, false, Option, none, some,
  str_eq, if◌then◌else◌, arith,
}
use btp_sdk.Base.Int.{ℤ, pos, negsuc}
use btp_sdk.Base.Results.{ok, err}
use btp_sdk.Spec.{
  TypeId, t_integer, t_string, t_struct, type_spec, field, no_fields, name_and_type, lookup_field,
}
use btp_sdk.Convert.{
  any_type, Value, integer, string, struct, go_uint, go_string, go_slice, go_map, value, no_values,
  key_value, no_key_values, invalid_param, Outside, has_key, value_at,
}
use btp_sdk.Convert.Primitive.{integer_of, string_of, primitive_of, primitive_param_of}
use btp_sdk.Convert.Integers.{as_int64, as_int64_iff}
use btp_sdk.Convert.BySpec.{fields_from, leaf_of, struct_result, param_at, param_of_with_spec}
use btp_sdk.Convert.Typed.{
  HasType, is_integer, is_array, element, no_elements, IsProper, param_of_with_spec-HasType,
}
use btp_sdk.Convert.Again.{param_of_with_spec-again, param_of_with_spec-nested}
use btp_sdk.Convert.Equal.{equal_param}
use btp_sdk.Convert.Equal.Decides.{equal_param-decides}

abbrev letter : Char
letter = "b"

abbrev minus : Char
minus = "n"

abbrev letters : ℕ → String
letters zero = ""
letters (suc n) = letter ∷ₛ letters n

abbrev count_letters : String → ℕ
count_letters []ₛ = 0
count_letters (c ∷ₛ s) = suc (count_letters s)

abbrev print : ℤ → String
print (pos n) = letters n
print (negsuc n) = minus ∷ₛ letters n

abbrev scan : String → Option ℤ
scan []ₛ = some (pos 0)
scan (c ∷ₛ s) =
    if str_eq (c ∷ₛ "") "n"
    then some (negsuc (count_letters s))
    else some (pos (suc (count_letters s)))

abbrev outside : Outside
outside = record {
  parse_big_int = scan;
  format_big_int = print;
  big_int_set_bytes = λ b. pos 0;
  decode_base64 = λ s. none;
  decode_hex = λ s. none;
}

as_int64_iff_example :
    (as_int64 outside "nb" ≡ ok (negsuc 1))
    ↔ ((outside.parse_big_int "nb" ≡ some (negsuc 1)) × (0 < 2 ^ 63) × (2 ≤ 2 ^ 63))
as_int64_iff_example = as_int64_iff outside "nb" (negsuc 1)

abbrev message : TypeId
message = t_struct "Message" (
    field "id" (name_and_type "id" (type_spec "Integer" 0 t_integer) false)
      (field "tags" (name_and_type "tags" (type_spec "String" 1 t_string) true) no_fields))

message-IsProper : IsProper message
unfolding lookup_field
message-IsProper = ((refl, tt, (refl, tt, tt)), (refl, tt, (refl, tt, tt)))

abbrev given : Value
given = go_map true (
    key_value "tags" (go_slice any_type (value (go_string "a") no_values))
      (key_value "id" (go_uint 2) no_key_values))

abbrev converted : Value
converted = struct "Message" (
    key_value "id" (integer "bb")
      (key_value "tags" (go_slice any_type (value (string "a") no_values)) no_key_values))

converts : param_of_with_spec outside (type_spec "Message" 0 message) given ≡ ok converted
unfolding param_of_with_spec param_at leaf_of struct_result fields_from primitive_param_of
    primitive_of integer_of string_of has_key value_at lookup_field
converts = refl

param_of_with_spec-HasType_example : HasType 0 message converted
param_of_with_spec-HasType_example =
    param_of_with_spec-HasType outside "Message" 0 message given converted message-IsProper converts

converted-HasType : HasType 0 message converted
converted-HasType =
    param_of_with_spec-HasType outside "Message" 0 message given converted message-IsProper converts

param_of_with_spec-again_example :
    param_of_with_spec outside (type_spec "Message" 0 message) converted ≡ ok converted
param_of_with_spec-again_example =
    param_of_with_spec-again outside "Message" 0 message converted message-IsProper
      (omega arith, tt, (omega arith, tt, tt)) (omega arith) converted-HasType

abbrev row : Value
row = go_slice any_type (value (integer "b") no_values)

param_of_with_spec-nested_example :
    param_of_with_spec outside
      (type_spec "Integer" 2 t_integer)
      (go_slice any_type (value row no_values))
    ≡ err invalid_param
param_of_with_spec-nested_example =
    param_of_with_spec-nested outside "Integer" 2 t_integer any_type row no_values (omega arith) (
      is_array 1 t_integer _ (
        element 1 t_integer row no_values
          (is_array 0 t_integer _ (
            element 0 t_integer (integer "b") no_values (is_integer "b") (no_elements 0 t_integer)))
          (no_elements 1 t_integer)))

equal_param-decides_example :
    (x : Bool) × (equal_param outside (type_spec "Integer" 0 t_integer) (integer "b") (integer "bb")
      ≡ ok x)
    × ((x ≡ true) ↔ (integer "b" ≡ integer "bb"))
equal_param-decides_example =
    equal_param-decides outside "Integer" 0 t_integer (integer "b") (integer "bb") tt
      (is_integer "b") (is_integer "bb")
