-- ===== src/Convert/Equal/Symmetric.antt =====
-- contract/convert.go: `EqualParam` does not depend on the order of the two values.
use btp_sdk.Base.{
  ◌≡◌, refl, ℕ, suc, zero, String, Bool, true, false, Option, none, some, List, [], ◌∷◌, str_eq,
  ◌==◌, arith, inl, inr, ap, eq_iff, ==_iff, Bool-cases, Option-cases, ◌∙◌, ◌&&◌, not,
}
use btp_sdk.Base.Results.{Result, ok, err, Result-cases}
use mathlib.Core.Path.{subst}
use btp_sdk.Spec.{
  TypeSpec, type_spec, TypeId, t_unknown, t_void, t_integer, t_boolean, t_string, t_bytes,
  t_address, t_struct, Fields, no_fields, field, name_and_type,
}
use btp_sdk.Convert.{
  Value, Values, no_values, value, KeyValues, Failure, Outside, value_at, struct_params,
}
use btp_sdk.Convert.Primitive.{integer_of, boolean_of, string_of, bytes_of, address_of}
use btp_sdk.Convert.Untyped.{struct_of}
use btp_sdk.Convert.Equal.{
  same_bool, same_bytes, is_array_kind, reflect_len, reflect_elements, equal_elements,
  equal_indexed, equal_arrays, equal_dimensions, both, equal_param, equal_leaf, equal_fields,
}

abbrev IsSymmetric : (Value → Value → Result Failure Bool) → Type 0
IsSymmetric f = (a b : Value) (x : Bool) → f a b ≡ ok x → f b a ≡ ok x

str_eq_sym : (s t : String) → str_eq s t ≡ str_eq t s
str_eq_sym s t = ground (arith, eq_iff s t, eq_iff t s)

same_bool_sym : (a b : Bool) → same_bool a b ≡ same_bool b a
unfolding same_bool
same_bool_sym true true = refl
same_bool_sym true false = refl
same_bool_sym false true = refl
same_bool_sym false false = refl

same_bytes_sym : (a b : List ℕ) → same_bytes a b ≡ same_bytes b a
unfolding same_bytes
same_bytes_sym [] [] = refl
same_bytes_sym [] (y ∷ b) = refl
same_bytes_sym (x ∷ a) [] = refl
same_bytes_sym (x ∷ a) (y ∷ b) = ground (arith, same_bytes_sym a b)

both_sym :
    {A : Type 0} (same : A → A → Bool)
    → ((a b : A) → same a b ≡ same b a)
    → (ra rb : Result Failure A) (x : Bool) → both ra rb same ≡ ok x
    → both rb ra same ≡ ok x
both_sym same h (ok a) (ok b) x q = ap ok (h b a) ∙ q
both_sym same h (ok a) (err e) x q = absurd (ground (arith, q))
both_sym same h (err e) rb x q = absurd (ground (arith, q))

equal_elements_sym :
    (f : Value → Value → Result Failure Bool)
    → IsSymmetric f
    → (vs ws : Values) (x : Bool) → equal_elements f vs ws ≡ ok x
    → equal_elements f ws vs ≡ ok x
equal_elements_sym f h no_values no_values x q = q
equal_elements_sym f h no_values (value b ws) x q = q
equal_elements_sym f h (value a vs) no_values x q = q
equal_elements_sym f h (value a vs) (value b ws) x q = elim (Result-cases (f a b)) [
  | inr (e, c) ↦ absurd (ground (arith, q, c))
  | inl (true, c) ↦ ground (arith, q, c, h a b true c, equal_elements_sym f h vs ws x)
  | inl (false, c) ↦ ground (arith, q, c, h a b false c)
]

equal_indexed_sym :
    (f : Value → Value → Result Failure Bool)
    → IsSymmetric f
    → (n : ℕ) (vs ws : Option Values) (x : Bool) → equal_indexed f n vs ws ≡ ok x
    → equal_indexed f n ws vs ≡ ok x
unfolding equal_indexed
equal_indexed_sym f h zero vs ws x q = q
equal_indexed_sym f h (suc n) (some vs) (some ws) x q = equal_elements_sym f h vs ws x q
equal_indexed_sym f h (suc n) (some vs) none x q = absurd (ground (arith, q))
equal_indexed_sym f h (suc n) none ws x q = absurd (ground (arith, q))

equal_arrays_sym :
    (f : Value → Value → Result Failure Bool) → IsSymmetric f → IsSymmetric (equal_arrays f)
unfolding equal_arrays
equal_arrays_sym f h a b x q = elim (Bool-cases (not (is_array_kind a) && not (is_array_kind b))) [
  | inl neither ↦ absurd (ground (arith, q, neither))
  | inr one ↦ elim (Option-cases (reflect_len a)) [
    | inl la ↦ absurd (ground (arith, q, one, la))
    | inr (n, la) ↦ elim (Option-cases (reflect_len b)) [
      | inl lb ↦ absurd (ground (arith, q, one, la, lb))
      | inr (m, lb) ↦ elim (Bool-cases (n == m)) [
        | inl same ↦
            let swapped =
              equal_indexed_sym f h n (reflect_elements a) (reflect_elements b) x
                (ground (arith, q, one, la, lb, same)) in
            let at : n ≡ m = (==_iff n m).0 same in
            let there : equal_indexed f m (reflect_elements b) (reflect_elements a) ≡ ok x =
              subst (λ k. equal_indexed f k (reflect_elements b) (reflect_elements a) ≡ ok x) at
                swapped in
            ground (arith, one, la, lb, same, there)
        | inr differ ↦ ground (arith, q, one, la, lb, differ)
      ]
    ]
  ]
]

equal_dimensions_sym :
    (f : Value → Value → Result Failure Bool) (d : ℕ)
    → IsSymmetric f
    → IsSymmetric (equal_dimensions f d)
unfolding equal_dimensions
equal_dimensions_sym f zero h = h
equal_dimensions_sym f (suc d) h =
    equal_arrays_sym (equal_dimensions f d) (equal_dimensions_sym f d h)

module _ (out : Outside) where
  mutual
    unfolding equal_param equal_leaf equal_fields

    param_sym :
        (s : TypeSpec) (a b : Value) (x : Bool)
        → equal_param out s a b ≡ ok x
        → equal_param out s b a ≡ ok x
    param_sym (type_spec n d t) = equal_dimensions_sym (equal_leaf out t) d (leaf_sym t)

    leaf_sym :
        (t : TypeId) (a b : Value) (x : Bool)
        → equal_leaf out t a b ≡ ok x
        → equal_leaf out t b a ≡ ok x
    leaf_sym t_integer a b x q =
        both_sym str_eq str_eq_sym (integer_of out a) (integer_of out b) x q
    leaf_sym t_boolean a b x q = both_sym same_bool same_bool_sym (boolean_of a) (boolean_of b) x q
    leaf_sym t_string a b x q = both_sym str_eq str_eq_sym (string_of a) (string_of b) x q
    leaf_sym t_bytes a b x q =
        both_sym same_bytes same_bytes_sym (bytes_of out a) (bytes_of out b) x q
    leaf_sym t_address a b x q = both_sym str_eq str_eq_sym (address_of a) (address_of b) x q
    leaf_sym (t_struct n fs) a b x q = elim (Result-cases (struct_of out a)) [
      | inr (e, ca) ↦ absurd (ground (arith, q, ca))
      | inl (sa, ca) ↦ elim (Result-cases (struct_of out b)) [
        | inr (e, cb) ↦ absurd (ground (arith, q, ca, cb))
        | inl (sb, cb) ↦
            let swapped =
              fields_sym fs (struct_params sa.1) (struct_params sb.1) x
                (ground (arith, q, ca, cb)) in
            ground (arith, ca, cb, swapped)
      ]
    ]
    leaf_sym t_unknown a b x q = absurd (ground (arith, q))
    leaf_sym t_void a b x q = absurd (ground (arith, q))

    fields_sym :
        (fs : Fields) (pa pb : KeyValues) (x : Bool)
        → equal_fields out fs pa pb ≡ ok x
        → equal_fields out fs pb pa ≡ ok x
    fields_sym no_fields pa pb x q = q
    fields_sym (field k (name_and_type n s o) fs) pa pb x q =
        elim (Result-cases (equal_param out s (value_at k pa) (value_at k pb))) [
          | inr (e, c) ↦ absurd (ground (arith, q, c))
          | inl (true, c) ↦ ground (
            arith,
            q,
            c,
            param_sym s (value_at k pa) (value_at k pb) true c,
            fields_sym fs pa pb x,
          )
          | inl (false, c) ↦
              ground (arith, q, c, param_sym s (value_at k pa) (value_at k pb) false c)
        ]

  -- Where `EqualParam` compares two values without an error, it gives the same answer for the two in
  -- the other order, at every nesting of arrays and structs.
  pub equal_param_sym :
      (s : TypeSpec) (a b : Value) (x : Bool)
      → equal_param out s a b ≡ ok x
      → equal_param out s b a ≡ ok x
  equal_param_sym s a b x q = param_sym s a b x q
