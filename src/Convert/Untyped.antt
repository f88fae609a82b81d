-- ===== src/Convert/Untyped.antt =====
-- contract/convert.go: `ParamOf`, `StructOf` and `ParamsOf`, the conversions without a specification.
use btp_sdk.Base.{
  ◌≡◌, refl, String, Bool, true, false, str_eq, if◌then◌else◌, arith, inl, inr, Bool-cases, eq_refl,
}
use btp_sdk.Base.Results.{Result, ok, err, ◌>>=◌, Result-cases, ok_injective}
use mathlib.Core.Path.{subst}
use btp_sdk.Convert.{
  GoType, any_type, integer_type, boolean_type, string_type, bytes_type, address_type, struct_type,
  params_type, named, slice_of, Value, nil, integer, boolean, string, bytes, address, struct,
  params, go_int, go_uint, go_big_int, go_big_int_pointer, go_bool, go_string, go_bytes, go_slice,
  go_struct, go_map, go_other, reflected, Values, no_values, value, KeyValues, no_key_values,
  key_value, Failure, invalid_param, panicked, Outside, struct_view, params_view,
}
use btp_sdk.Convert.Primitive.{integer_of}

-- `reflect.TypeOf`
abbrev pub type_of : Value → GoType
type_of nil = named "nil"
type_of (integer s) = integer_type
type_of (boolean b) = boolean_type
type_of (string s) = string_type
type_of (bytes b) = bytes_type
type_of (address s) = address_type
type_of (struct n kvs) = struct_type
type_of (params kvs) = params_type
type_of (go_int z) = named "int"
type_of (go_uint n) = named "uint"
type_of (go_big_int z) = named "big.Int"
type_of (go_big_int_pointer z) = named "*big.Int"
type_of (go_bool b) = named "bool"
type_of (go_string s) = named "string"
type_of (go_bytes b) = slice_of (named "uint8")
type_of (go_slice g vs) = slice_of g
type_of (go_struct n kvs) = named n
type_of (go_map s kvs) = named "map"
type_of (go_other n) = named n
type_of (reflected v) = named "reflect.Value"

abbrev pub same_type : GoType → GoType → Bool
same_type any_type any_type = true
same_type integer_type integer_type = true
same_type boolean_type boolean_type = true
same_type string_type string_type = true
same_type bytes_type bytes_type = true
same_type address_type address_type = true
same_type struct_type struct_type = true
same_type params_type params_type = true
same_type (named n) (named m) = str_eq n m
same_type (slice_of g) (slice_of h) = same_type g h
same_type _ _ = false

module _ (out : Outside) where
  unfoldable mutual
    pub param_of : Value → Result Failure Value
    param_of (params kvs) = ok (params kvs)
    param_of (struct n kvs) = ok (struct n kvs)
    param_of (address s) = ok (address s)
    param_of (integer s) = ok (integer s)
    param_of (boolean b) = ok (boolean b)
    param_of (string s) = ok (string s)
    param_of (bytes b) = ok (bytes b)
    param_of (go_int z) = integer_of out (go_int z) >>= λ s. ok (integer s)
    param_of (go_uint n) = integer_of out (go_uint n) >>= λ s. ok (integer s)
    param_of (go_big_int z) = integer_of out (go_big_int z) >>= λ s. ok (integer s)
    param_of (go_big_int_pointer z) = integer_of out (go_big_int_pointer z) >>= λ s. ok (integer s)
    param_of (go_bool b) = ok (boolean b)
    param_of (go_string s) = ok (string s)
    param_of (go_bytes b) = ok (bytes b)
    param_of (go_slice g vs) = slice_param_of g vs
    param_of (go_struct n kvs) = checked_fields kvs >>= λ r. ok (struct n r)
    param_of (go_map true kvs) = converted_entries kvs >>= λ r. ok (params r)
    param_of (go_map false kvs) = err invalid_param
    param_of (go_other n) = err invalid_param
    param_of nil = err panicked
    param_of (reflected v) = err panicked

    -- The first element decides: where its type already is the static type of the elements, the
    -- slice `ret` is still the zero `reflect.Value`, and appending to it panics. An empty slice
    -- is returned as a `reflect.Value`.
    pub slice_param_of : GoType → Values → Result Failure Value
    slice_param_of g no_values = ok (reflected (go_slice g no_values))
    slice_param_of g (value v vs) = param_of v >>= λ p.
        if same_type g (type_of p)
        then err panicked
        else appended (type_of p) vs >>= λ ps. ok (go_slice (type_of p) (value p ps))

    -- the elements after the first, appended to a slice of elements of type `h`
    pub appended : GoType → Values → Result Failure Values
    appended h no_values = ok no_values
    appended h (value v vs) =
        let rest = appended h vs in
        param_of v >>= λ p.
        if same_type (type_of p) h then (rest >>= λ ps. ok (value p ps)) else err panicked

    -- the loop of `StructOf`, whose `f` is a copy of the field
    pub checked_fields : KeyValues → Result Failure KeyValues
    checked_fields no_key_values = ok no_key_values
    checked_fields (key_value k v kvs) =
        let rest = checked_fields kvs in param_of v >>= λ p. rest >>= λ r. ok (key_value k v r)

    -- the loop of `ParamsOf`
    pub converted_entries : KeyValues → Result Failure KeyValues
    converted_entries no_key_values = ok no_key_values
    converted_entries (key_value k v kvs) =
        let rest = converted_entries kvs in param_of v >>= λ p. rest >>= λ r. ok (key_value k p r)

  unfoldable pub struct_of : Value → Result Failure (String × KeyValues)
  unfolding struct_view checked_fields
  struct_of v = struct_view v >>= λ st. checked_fields st.1 >>= λ r. ok (st.0, r)

  unfoldable pub params_of : Value → Result Failure KeyValues
  unfolding params_view converted_entries
  params_of v = params_view v >>= λ kvs. converted_entries kvs

  checked_fields-same : (kvs r : KeyValues) → checked_fields kvs ≡ ok r → kvs ≡ r
  unfolding checked_fields
  checked_fields-same no_key_values r q = ground (arith, q)
  checked_fields-same (key_value k v kvs) r q = elim (Result-cases (param_of v)) [
    | inr (e, a) ↦ absurd (ground (arith, q, a))
    | inl (p, a) ↦ elim (Result-cases (checked_fields kvs)) [
      | inr (e, b) ↦ absurd (ground (arith, q, a, b))
      | inl (s, b) ↦ ground (arith, q, a, b, checked_fields-same kvs s b)
    ]
  ]

  -- `StructOf` returns the struct that it was given, or the Go struct's own field values: no field
  -- is converted, whatever `ParamOf` makes of it.
  struct_of-struct_view :
      (v : Value) (st : String × KeyValues) → struct_of v ≡ ok st → struct_view v ≡ ok st
  unfolding struct_of
  struct_of-struct_view v st q = elim (Result-cases (struct_view v)) [
    | inr (e, a) ↦ absurd (ground (arith, q, a))
    | inl ((n, kvs), a) ↦ elim (Result-cases (checked_fields kvs)) [
      | inr (e, b) ↦ absurd (ground (arith, q, a, b))
      | inl (r, b) ↦ ground (arith, q, a, b, checked_fields-same kvs r b)
    ]
  ]

  -- A slice panics where the first element becomes a value of the type that the slice's elements
  -- are declared with, as in a `[]Integer` or a `[]Struct`.
  pub param_of-typed_slice :
      (g : GoType) (v p : Value) (vs : Values)
      → param_of v ≡ ok p
      → same_type g (type_of p) ≡ true
      → param_of (go_slice g (value v vs)) ≡ err panicked
  unfolding param_of
  param_of-typed_slice g v p vs q s = rw (q, s) refl

-- A value of the contract package, or a non-empty slice of such values that all have the type the
-- slice declares, or an empty slice left as a `reflect.Value`.
abbrev mutual
  pub IsParam : Value → Type 0
  IsParam (integer s) = Unit
  IsParam (boolean b) = Unit
  IsParam (string s) = Unit
  IsParam (bytes b) = Unit
  IsParam (address s) = Unit
  IsParam (struct n kvs) = Unit
  IsParam (params kvs) = Unit
  IsParam (go_slice g (value v vs)) = IsParam v × (same_type (type_of v) g ≡ true) × AreParams g vs
  IsParam (reflected (go_slice g no_values)) = Unit
  IsParam _ = ⊥

  pub AreParams : GoType → Values → Type 0
  AreParams g no_values = Unit
  AreParams g (value v vs) = IsParam v × (same_type (type_of v) g ≡ true) × AreParams g vs

same_type_refl : (g : GoType) → same_type g g ≡ true
same_type_refl (named n) = eq_refl n
same_type_refl (slice_of g) = same_type_refl g
same_type_refl g = refl

wrapped-IsParam :
    {A : Type 0} (f : A → Value)
    → ((a : A) → IsParam (f a))
    → (c : Result Failure A) (w : Value) → (c >>= λ a. ok (f a)) ≡ ok w
    → IsParam w
wrapped-IsParam f h (ok a) w q = let same : f a ≡ w = ground (arith, q) in subst IsParam same (h a)
wrapped-IsParam f h (err e) w q = absurd (ground (arith, q))

module _ (out : Outside) where
  mutual
    unfolding param_of slice_param_of appended

    value-IsParam : (v w : Value) → param_of out v ≡ ok w → IsParam w
    value-IsParam (go_slice g vs) w q = slice-IsParam g vs w q
    value-IsParam (params kvs) w q = subst IsParam (ok_injective q) tt
    value-IsParam (struct n kvs) w q = subst IsParam (ok_injective q) tt
    value-IsParam (integer s) w q = subst IsParam (ok_injective q) tt
    value-IsParam (boolean b) w q = subst IsParam (ok_injective q) tt
    value-IsParam (string s) w q = subst IsParam (ok_injective q) tt
    value-IsParam (bytes b) w q = subst IsParam (ok_injective q) tt
    value-IsParam (address s) w q = subst IsParam (ok_injective q) tt
    value-IsParam (go_bool b) w q = subst IsParam (ok_injective q) tt
    value-IsParam (go_string s) w q = subst IsParam (ok_injective q) tt
    value-IsParam (go_bytes b) w q = subst IsParam (ok_injective q) tt
    value-IsParam (go_int z) w q = wrapped-IsParam integer (λ s. tt) _ w q
    value-IsParam (go_uint n) w q = wrapped-IsParam integer (λ s. tt) _ w q
    value-IsParam (go_big_int z) w q = wrapped-IsParam integer (λ s. tt) _ w q
    value-IsParam (go_big_int_pointer z) w q = wrapped-IsParam integer (λ s. tt) _ w q
    value-IsParam (go_struct n kvs) w q = wrapped-IsParam (struct n) (λ r. tt) _ w q
    value-IsParam (go_map true kvs) w q = wrapped-IsParam params (λ r. tt) _ w q
    value-IsParam v w q = absurd (ground (arith, q))

    slice-IsParam :
        (g : GoType) (vs : Values) (w : Value) → slice_param_of out g vs ≡ ok w → IsParam w
    slice-IsParam g no_values w q = subst IsParam (ok_injective q) tt
    slice-IsParam g (value v vs) w q = elim (Result-cases (param_of out v)) [
      | inr (e, a) ↦ absurd (ground (arith, q, a))
      | inl (p, a) ↦ elim (Bool-cases (same_type g (type_of p))) [
        | inl panics ↦ absurd (ground (arith, q, a, panics))
        | inr converts ↦ elim (Result-cases (appended out (type_of p) vs)) [
          | inr (e, b) ↦ absurd (ground (arith, q, a, converts, b))
          | inl (ps, b) ↦
              let same : go_slice (type_of p) (value p ps) ≡ w =
                ground (arith, q, a, converts, b) in
              subst IsParam same (
                value-IsParam v p a,
                same_type_refl (type_of p),
                appended-AreParams (type_of p) vs ps b,
              )
        ]
      ]
    ]

    appended-AreParams : (h : GoType) (vs ws : Values) → appended out h vs ≡ ok ws → AreParams h ws
    appended-AreParams h no_values ws q = subst (AreParams h) (ok_injective q) tt
    appended-AreParams h (value v vs) ws q = elim (Result-cases (param_of out v)) [
      | inr (e, a) ↦ absurd (ground (arith, q, a))
      | inl (p, a) ↦ elim (Bool-cases (same_type (type_of p) h)) [
        | inr panics ↦ absurd (ground (arith, q, a, panics))
        | inl fits ↦ elim (Result-cases (appended out h vs)) [
          | inr (e, b) ↦ absurd (ground (arith, q, a, fits, b))
          | inl (ps, b) ↦
              let same : value p ps ≡ ws = ground (arith, q, a, fits, b) in
              subst (AreParams h) same (value-IsParam v p a, fits, appended-AreParams h vs ps b)
        ]
      ]
    ]

  -- Whatever `ParamOf` returns is a value of the contract package, a non-empty slice of such values
  -- of one type, which the slice declares, or an empty slice.
  pub param_of-IsParam : (v w : Value) → param_of out v ≡ ok w → IsParam w
  param_of-IsParam v w q = value-IsParam v w q
