-- ===== src/Convert.antt =====
-- contract/convert.go and contract/spec.go: Go's dynamic values as the conversions tell them apart,
-- what reflection answers about them, and what they use of outside code. A Go value of a named type
-- other than the contract package's, or of a kind that no conversion takes, is `go_other`. A slice
-- and an array are both `go_slice`, with the static type of the elements. The fields of a Go
-- struct are exported, and stand under the key that their tag or name gives (`go_field`).
pub mod Primitive
pub mod Integers
pub mod BySpec
pub mod Typed
pub mod Again
pub mod Untyped
pub mod Must
pub mod Equal
use btp_sdk.Base.{
  ℕ, suc, String, Bool, true, false, ◌&&◌, not, Option, none, some, List, [], ◌∷◌, str_eq,
  if◌then◌else◌,
}
use btp_sdk.Base.Int.{ℤ}
use btp_sdk.Base.Results.{Result, ok, err, ◌>>=◌}
use Prim.Native.String.{slice, find}

-- the static types that a conversion compares
pub data GoType : Type 0 where
  any_type integer_type boolean_type string_type bytes_type address_type struct_type params_type :
      GoType
  named : String → GoType
  slice_of : GoType → GoType

mutual
  pub data Value : Type 0 where
    nil : Value
    -- the types of the contract package
    integer : String → Value
    boolean : Bool → Value
    string : String → Value
    bytes : List ℕ → Value
    address : String → Value
    struct : String → KeyValues → Value
    params : KeyValues → Value
    -- Go's own types
    go_int : ℤ → Value
    go_uint : ℕ → Value
    go_big_int : ℤ → Value
    go_big_int_pointer : ℤ → Value
    go_bool : Bool → Value
    go_string : String → Value
    go_bytes : List ℕ → Value
    go_slice : GoType → Values → Value
    go_struct : String → KeyValues → Value
    -- a map, and whether the kind of its key is `String`
    go_map : Bool → KeyValues → Value
    go_other : String → Value
    -- a `reflect.Value` that holds a value
    reflected : Value → Value

  pub data Values : Type 0 where
    no_values : Values
    value : Value → Values → Values

  pub data KeyValues : Type 0 where
    no_key_values : KeyValues
    key_value : String → Value → KeyValues → KeyValues

-- the key of a field of a Go struct: its tag up to the comma, or its name
unfoldable pub json_key : String → String → String
json_key tag name = let n = slice tag 0 (find tag ",") in if str_eq n "" then name else n

abbrev pub go_field : String → String → Value → KeyValues → KeyValues
go_field tag name v fs = key_value (json_key tag name) v fs

-- How a conversion fails: with an error, or with a panic of the Go runtime or of `log.Panicf`.
pub data Failure : Type 0 where
  invalid_param panicked : Failure

-- what the conversions call in other packages
pub record Outside : Type 0 where
  pub parse_big_int : String → Option ℤ
  pub format_big_int : ℤ → String
  pub big_int_set_bytes : List ℕ → ℤ
  pub decode_base64 : String → Option (List ℕ)
  pub decode_hex : String → Option (List ℕ)

-- the wrappers `MustParamOf`, `MustIntegerOf` and their like
unfoldable pub must {ℓ} : {A : Type ℓ} → Result Failure A → Result Failure A
must (ok v) = ok v
must (err e) = err panicked

-- a map's own lookup, where each key stands once
unfoldable pub has_key : String → KeyValues → Bool
has_key k no_key_values = false
has_key k (key_value j v kvs) = if str_eq j k then true else has_key k kvs

unfoldable pub value_at : String → KeyValues → Value
value_at k no_key_values = nil
value_at k (key_value j v kvs) = if str_eq j k then v else value_at k kvs

-- `Struct.Params`: a key that a later field has again is overwritten
unfoldable pub struct_params : KeyValues → KeyValues
unfolding has_key
struct_params no_key_values = no_key_values
struct_params (key_value k v kvs) =
    let rest = struct_params kvs in if has_key k kvs then rest else key_value k v rest

-- `structOf`: the fields of a struct. Reflection panics on nil and on unexported fields.
unfoldable pub struct_view : Value → Result Failure (String × KeyValues)
struct_view (struct n kvs) = ok (n, kvs)
struct_view (go_struct n kvs) = ok (n, kvs)
struct_view nil = err panicked
struct_view (go_big_int z) = err panicked
struct_view (reflected v) = err panicked
struct_view _ = err invalid_param

-- `paramsOf`: the entries of a map
unfoldable pub params_view : Value → Result Failure KeyValues
params_view (params kvs) = ok kvs
params_view (go_map true kvs) = ok kvs
params_view nil = err panicked
params_view _ = err invalid_param
