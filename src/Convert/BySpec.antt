-- ===== src/Convert/BySpec.antt =====
-- contract/convert.go: `ParamOfWithSpec`, the conversion of a value to the type that a specification
-- gives. The recursion is on the value. The loop over a map stops at the first error, so its
-- order only decides which of several failures is met first.
use btp_sdk.Base.{
  ℕ, suc, String, Bool, true, false, none, some, List, [], ◌∷◌, ltb, leb, ◌&&◌, not, if◌then◌else◌,
}
use btp_sdk.Base.Results.{Result, ok, err, ◌>>=◌}
use btp_sdk.Spec.{
  TypeSpec, type_spec, TypeId, t_struct, Fields, no_fields, field, name_and_type, lookup_field,
}
use btp_sdk.Convert.{
  GoType, any_type, bytes_type, slice_of, Value, nil, bytes, struct, params, go_uint, go_bytes,
  go_slice, go_struct, go_map, go_big_int, reflected, Values, no_values, value, KeyValues,
  no_key_values, key_value, Failure, invalid_param, panicked, Outside, has_key, value_at,
  params_view,
}
use btp_sdk.Convert.Primitive.{primitive_param_of}

-- whether a static type has the kind `Slice`
abbrev pub is_slice : GoType → Bool
is_slice bytes_type = true
is_slice (slice_of t) = true
is_slice _ = false

abbrev pub is_nil : Value → Bool
is_nil nil = true
is_nil _ = false

-- the fields of a `StructSpec` in order, each with what the map has at its name
unfoldable pub fields_from : Fields → KeyValues → KeyValues
unfolding value_at
fields_from no_fields m = no_key_values
fields_from (field k (name_and_type n t o) fs) m = key_value n (value_at n m) (fields_from fs m)

-- the `[]interface{}` of `arrayParamOf`
abbrev pub as_slice : Result Failure Values → Result Failure Value
as_slice c = c >>= λ vs. ok (go_slice any_type vs)

abbrev pub fields_of : TypeId → Fields
fields_of (t_struct n fs) = fs
fields_of t = no_fields

module _ (out : Outside) where
  -- the elements of a `[]byte`, which are unsigned integers and no slices
  unfoldable pub byte_elements : ℕ → TypeId → ℕ → List ℕ → Result Failure Values
  byte_elements d t k [] = ok no_values
  byte_elements d t k (b ∷ bs) =
      if ltb k d
      then err invalid_param
      else primitive_param_of out t (go_uint b) >>= λ p.
          byte_elements d t k bs >>= λ r. ok (value p r)

  -- `primitiveParamOf`, or the failure of `StructOfWithSpec` for a value with no fields or entries
  unfoldable pub leaf_of : TypeId → Value → Result Failure Value
  leaf_of (t_struct n fs) nil = err panicked
  leaf_of (t_struct n fs) (go_big_int z) = err panicked
  leaf_of (t_struct n fs) (reflected v) = err panicked
  leaf_of (t_struct n fs) v = err invalid_param
  leaf_of t v = primitive_param_of out t v

  -- `StructOfWithSpec` of a value `v`, from what became of its entries
  unfoldable pub struct_result : TypeId → Value → Result Failure KeyValues → Result Failure Value
  unfolding fields_from
  struct_result (t_struct n fs) v r = r >>= λ m. ok (struct n (fields_from fs m))
  struct_result t v r = primitive_param_of out t v

  -- The value that stands `k - 1` arrays deep in a value of a type of `d` dimensions: `arrayParamOf`
  -- with its dimension `k` while `k` is at most `d`, and below that `StructOfWithSpec` or
  -- `primitiveParamOf`.
  unfoldable mutual
    pub param_at : ℕ → TypeId → ℕ → Value → Result Failure Value
    param_at d t k (go_slice g vs) =
        if leb k d then as_slice (array_elements d t k g vs) else leaf_of t (go_slice g vs)
    param_at d t k (bytes bs) =
        if leb k d then as_slice (byte_elements d t k bs) else leaf_of t (bytes bs)
    param_at d t k (go_bytes bs) =
        if leb k d then as_slice (byte_elements d t k bs) else leaf_of t (go_bytes bs)
    param_at d t k (struct n kvs) =
        if leb k d
        then err invalid_param
        else struct_result t (struct n kvs) (entries_of (fields_of t) kvs)
    param_at d t k (go_struct n kvs) =
        if leb k d
        then err invalid_param
        else struct_result t (go_struct n kvs) (entries_of (fields_of t) kvs)
    param_at d t k (params kvs) =
        if leb k d
        then err invalid_param
        else struct_result t (params kvs) (entries_of (fields_of t) kvs)
    param_at d t k (go_map true kvs) =
        if leb k d
        then err invalid_param
        else struct_result t (go_map true kvs) (entries_of (fields_of t) kvs)
    param_at d t k nil = if leb k d then err panicked else leaf_of t nil
    param_at d t k v = if leb k d then err invalid_param else leaf_of t v

    -- the loop of `arrayParamOf`: an element whose static type is an interface is no array
    pub array_elements : ℕ → TypeId → ℕ → GoType → Values → Result Failure Values
    array_elements d t k g no_values = ok no_values
    array_elements d t k g (value v vs) =
        let rest = array_elements d t k g vs in
        elim (ltb k d && not (is_slice g)) [
          | true ↦ err invalid_param
          | false ↦ param_at d t (suc k) v >>= λ p. rest >>= λ r. ok (value p r)
        ]

    -- the loop of `StructOfWithSpec`, over a map in which a key has its last value
    pub entries_of : Fields → KeyValues → Result Failure KeyValues
    entries_of fs no_key_values = ok no_key_values
    entries_of fs (key_value k v kvs) =
        let rest = entries_of fs kvs in
        elim (has_key k kvs) [
          | true ↦ rest
          | false ↦ elim (lookup_field k fs) [
            | none ↦ err invalid_param
            | some (name_and_type n (type_spec m d t) o) ↦ elim (is_nil v) [
              | true ↦ rest >>= λ r. ok (key_value k nil r)
              | false ↦ param_at d t 1 v >>= λ p. rest >>= λ r. ok (key_value k p r)
            ]
          ]
        ]

  unfoldable pub param_of_with_spec : TypeSpec → Value → Result Failure Value
  unfolding param_at
  param_of_with_spec (type_spec n d t) v = param_at d t 1 v

  -- `StructOfWithSpec`
  unfoldable pub struct_of_with_spec : String → Fields → Value → Result Failure Value
  unfolding param_at
  struct_of_with_spec n fs v = param_at 0 (t_struct n fs) 1 v

  -- `ParamsOfWithSpec`
  unfoldable pub params_of_with_spec : Fields → Value → Result Failure Value
  unfolding params_view entries_of
  params_of_with_spec fs v = params_view v >>= λ kvs. entries_of fs kvs >>= λ m. ok (params m)
