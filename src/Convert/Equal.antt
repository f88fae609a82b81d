-- ===== src/Convert/Equal.antt =====
-- contract/convert.go: `EqualParam`, the comparison of two values by a specification.
pub mod Symmetric
pub mod Decides
use btp_sdk.Base.{
  ◌≡◌, ◌≢◌, ◌⊎◌, refl, ℕ, suc, zero, ◌+◌, ◌*◌, ◌/◌, ◌%◌, String, Bool, true, false, ◌&&◌, not,
  Option, none, some, List, [], ◌∷◌, ◌++◌, str_eq, ◌==◌, ltb, if◌then◌else◌, arith, inl, inr,
  Bool-cases, ap, eq_iff, ==_iff, length,
}
use btp_sdk.Base.Results.{Result, ok, err, ◌>>=◌, Result-cases}
use Prim.Native.Char.{Char, code}
use text.Mathlib.TextBridge.{to_list}
use btp_sdk.Spec.{
  TypeSpec, type_spec, TypeId, t_unknown, t_void, t_integer, t_boolean, t_string, t_bytes,
  t_address, t_struct, Fields, no_fields, field, name_and_type,
}
use btp_sdk.Convert.{
  GoType, Value, nil, integer, boolean, string, bytes, address, struct, params, go_uint, go_string,
  go_bytes, go_slice, go_map, Values, no_values, value, KeyValues, no_key_values, key_value,
  Failure, invalid_param, panicked, Outside, value_at, struct_params,
}
use btp_sdk.Convert.Primitive.{integer_of, boolean_of, string_of, bytes_of, address_of}
use btp_sdk.Convert.Untyped.{struct_of}

unfoldable pub same_bool : Bool → Bool → Bool
same_bool true b = b
same_bool false b = not b

-- `bytes.Equal`
unfoldable pub same_bytes : List ℕ → List ℕ → Bool
same_bytes [] [] = true
same_bytes (a ∷ xs) (b ∷ ys) = a == b && same_bytes xs ys
same_bytes _ _ = false

-- the bytes of a text, as reflection gives them
unfoldable pub utf8 : List Char → List ℕ
utf8 [] = []
utf8 (c ∷ cs) =
    let n = code c in
    let tail = utf8 cs in
    if ltb n 128
    then n ∷ tail
    else if ltb n 2048
    then (192 + n / 64) ∷ (128 + n % 64) ∷ tail
    else if ltb n 65536
    then (224 + n / 4096) ∷ (128 + n / 64 % 64) ∷ (128 + n % 64) ∷ tail
    else (240 + n / 262144) ∷ (128 + n / 4096 % 64) ∷ (128 + n / 64 % 64) ∷ (128 + n % 64) ∷ tail

abbrev pub byte_values : List ℕ → Values
byte_values [] = no_values
byte_values (b ∷ ys) = value (go_uint b) (byte_values ys)

abbrev pub count_values : Values → ℕ
count_values no_values = 0
count_values (value v vs) = suc (count_values vs)

abbrev pub count_keys : KeyValues → ℕ
count_keys no_key_values = 0
count_keys (key_value k v kvs) = suc (count_keys kvs)

-- whether the kind is `Array` or `Slice`
unfoldable pub is_array_kind : Value → Bool
is_array_kind (go_slice g vs) = true
is_array_kind (bytes b) = true
is_array_kind (go_bytes b) = true
is_array_kind _ = false

-- `Len` of reflection, which panics on other kinds than an array, a slice, a text or a map
unfoldable pub reflect_len : Value → Option ℕ
unfolding utf8
reflect_len (go_slice g vs) = some (count_values vs)
reflect_len (bytes b) = some (length b)
reflect_len (go_bytes b) = some (length b)
reflect_len (integer s) = some (length (utf8 (to_list s)))
reflect_len (string s) = some (length (utf8 (to_list s)))
reflect_len (address s) = some (length (utf8 (to_list s)))
reflect_len (go_string s) = some (length (utf8 (to_list s)))
reflect_len (params kvs) = some (count_keys kvs)
reflect_len (go_map s kvs) = some (count_keys kvs)
reflect_len _ = none

-- what `Index` of reflection gives in turn; on a map it panics
unfoldable pub reflect_elements : Value → Option Values
unfolding utf8
reflect_elements (go_slice g vs) = some vs
reflect_elements (bytes b) = some (byte_values b)
reflect_elements (go_bytes b) = some (byte_values b)
reflect_elements (integer s) = some (byte_values (utf8 (to_list s)))
reflect_elements (string s) = some (byte_values (utf8 (to_list s)))
reflect_elements (address s) = some (byte_values (utf8 (to_list s)))
reflect_elements (go_string s) = some (byte_values (utf8 (to_list s)))
reflect_elements _ = none

-- the loop over two arrays of the same length, with what compares two elements
abbrev pub equal_elements :
    (Value → Value → Result Failure Bool) → Values → Values → Result Failure Bool
equal_elements f (value a xs) (value b ys) =
    let rest = equal_elements f xs ys in f a b >>= λ e. if e then rest else ok false
equal_elements f _ _ = ok true

-- The loop's start: with no element, nothing is indexed.
unfoldable pub equal_indexed :
    (Value → Value → Result Failure Bool) → ℕ → Option Values → Option Values → Result Failure Bool
equal_indexed f zero xs ys = ok true
equal_indexed f n (some xs) (some ys) = equal_elements f xs ys
equal_indexed f n _ _ = err panicked

-- the branch of a dimension
unfoldable pub equal_arrays :
    (Value → Value → Result Failure Bool) → Value → Value → Result Failure Bool
unfolding is_array_kind reflect_len reflect_elements equal_indexed
equal_arrays f a b =
    if not (is_array_kind a) && not (is_array_kind b)
    then err invalid_param
    else elim (reflect_len a) [
      | none ↦ err panicked
      | some n ↦ elim (reflect_len b) [
        | none ↦ err panicked
        | some m ↦
            if n == m then equal_indexed f n (reflect_elements a) (reflect_elements b) else ok false
      ]
    ]

-- one dimension after the other
unfoldable pub equal_dimensions :
    (Value → Value → Result Failure Bool) → ℕ → Value → Value → Result Failure Bool
unfolding equal_arrays
equal_dimensions f zero a b = f a b
equal_dimensions f (suc d) a b = equal_arrays (equal_dimensions f d) a b

-- Two conversions and the comparison of what they give.
abbrev pub both :
    {A : Type 0} → Result Failure A → Result Failure A → (A → A → Bool) → Result Failure Bool
both ra rb same = ra >>= λ ca. rb >>= λ cb. ok (same ca cb)

module _ (out : Outside) where
  unfoldable mutual
    pub equal_param : TypeSpec → Value → Value → Result Failure Bool
    equal_param (type_spec n d t) a b = equal_dimensions (equal_leaf t) d a b

    -- the `switch` of dimension 0
    pub equal_leaf : TypeId → Value → Value → Result Failure Bool
    equal_leaf t_integer a b = both (integer_of out a) (integer_of out b) str_eq
    equal_leaf t_boolean a b = both (boolean_of a) (boolean_of b) same_bool
    equal_leaf t_string a b = both (string_of a) (string_of b) str_eq
    equal_leaf t_bytes a b = both (bytes_of out a) (bytes_of out b) same_bytes
    equal_leaf (t_struct n fs) a b = struct_of out a >>= λ ca.
        struct_of out b >>= λ cb. equal_fields fs (struct_params ca.1) (struct_params cb.1)
    equal_leaf t_address a b = both (address_of a) (address_of b) str_eq
    equal_leaf _ a b = err invalid_param

    -- the loop over the fields of the struct
    pub equal_fields : Fields → KeyValues → KeyValues → Result Failure Bool
    equal_fields no_fields pa pb = ok true
    equal_fields (field k (name_and_type n s o) fs) pa pb =
        let rest = equal_fields fs pa pb in
        equal_param s (value_at k pa) (value_at k pb) >>= λ e. if e then rest else ok false
