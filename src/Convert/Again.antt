-- ===== src/Convert/Again.antt =====
-- contract/convert.go: `ParamOfWithSpec` on a value that already has the type of the specification.
use btp_sdk.Base.{
  ◌≡◌, refl, ℕ, suc, zero, ◌≤◌, String, Bool, false, none, some, leb, arith, ap, ◌∙◌, eq_iff,
  eq_refl,
}
use btp_sdk.Base.Results.{ok, err}
use btp_sdk.Spec.{
  type_spec, TypeId, t_struct, Fields, no_fields, field, name_and_type, lookup_field,
}
use btp_sdk.Spec.Reflexive.{FieldsWellFormed, Within, Within-refl}
use btp_sdk.Convert.{
  GoType, any_type, Value, nil, go_slice, Values, value, KeyValues, no_key_values, key_value,
  invalid_param, Outside, has_key, value_at,
}
use btp_sdk.Convert.Primitive.{
  integer_of, string_of, address_of, bytes_of, boolean_of, primitive_of, primitive_param_of,
}
use btp_sdk.Convert.BySpec.{
  fields_from, leaf_of, is_nil, param_at, array_elements, struct_result, entries_of,
  param_of_with_spec,
}
use btp_sdk.Convert.Typed.{
  HasType, is_integer, is_boolean, is_string, is_bytes, is_address, is_struct, is_array, HaveType,
  no_elements, element, HaveFields, no_members, absent, member, IsProper, AreNamed, AreProper,
}

-- No field has a type of more than one dimension, in any struct.
abbrev mutual
  pub IsShallow : TypeId → Type 0
  IsShallow (t_struct s fs) = AreShallow fs
  IsShallow _ = Unit

  pub AreShallow : Fields → Type 0
  AreShallow no_fields = Unit
  AreShallow (field k (name_and_type n (type_spec m d t) o) fs) =
      (d ≤ 1) × IsShallow t × AreShallow fs

-- Every entry is what the map has at its key.
abbrev StandsIn : KeyValues → KeyValues → Type 0
StandsIn no_key_values m = Unit
StandsIn (key_value k v kvs) m = (value_at k m ≡ v) × StandsIn kvs m

has_key-fresh :
    (k : String) (fs : Fields) (kvs : KeyValues)
    → HaveFields fs kvs
    → AreNamed fs
    → lookup_field k fs ≡ none
    → has_key k kvs ≡ false
unfolding has_key lookup_field
has_key-fresh k no_fields no_key_values no_members nd q = refl
has_key-fresh k _ _ (absent j n (type_spec m d t) o fs kvs h) nd q =
    ground (arith, eq_iff j k, eq_iff n k, nd, q, has_key-fresh k fs kvs h)
has_key-fresh k _ _ (member j n m d t o fs v kvs x h) nd q =
    ground (arith, eq_iff j k, eq_iff n k, nd, q, has_key-fresh k fs kvs h)

StandsIn-cons :
    (k : String) (v : Value) (kvs m : KeyValues)
    → has_key k kvs ≡ false
    → StandsIn kvs m
    → StandsIn kvs (key_value k v m)
unfolding has_key value_at
StandsIn-cons k v no_key_values m q h = tt
StandsIn-cons k v (key_value j w kvs) m q h =
    ground (arith, eq_iff j k, eq_iff k j, q, h, StandsIn-cons k v kvs m)

StandsIn-refl :
    (fs : Fields) (kvs : KeyValues)
    → HaveFields fs kvs
    → FieldsWellFormed fs
    → AreNamed fs
    → StandsIn kvs kvs
unfolding value_at
StandsIn-refl no_fields no_key_values no_members w nd = tt
StandsIn-refl _ _ (absent j n (type_spec m d t) o fs kvs h) w nd = (
  rw (eq_refl n) refl,
  StandsIn-cons n nil kvs kvs
      (has_key-fresh n fs kvs h nd.2 (ap (λ x. lookup_field x fs) nd.0 ∙ w.0))
      (StandsIn-refl fs kvs h w.2 nd.2),
)
StandsIn-refl _ _ (member j n m d t o fs v kvs x h) w nd = (
  rw (eq_refl n) refl,
  StandsIn-cons n v kvs kvs (has_key-fresh n fs kvs h nd.2 (ap (λ x. lookup_field x fs) nd.0 ∙ w.0))
      (StandsIn-refl fs kvs h w.2 nd.2),
)

fields_from-same :
    (fs : Fields) (kvs m : KeyValues) → HaveFields fs kvs → StandsIn kvs m → fields_from fs m ≡ kvs
unfolding fields_from
fields_from-same no_fields no_key_values m no_members h = refl
fields_from-same _ _ m (absent j n s o fs kvs h) st =
    ground (arith, st, fields_from-same fs kvs m h st.1)
fields_from-same _ _ m (member j n x d t o fs v kvs y h) st =
    ground (arith, st, fields_from-same fs kvs m h st.1)

HasType-given : (d : ℕ) (t : TypeId) (v : Value) → HasType d t v → is_nil v ≡ false
HasType-given _ _ _ (is_integer s) = refl
HasType-given _ _ _ (is_boolean b) = refl
HasType-given _ _ _ (is_string s) = refl
HasType-given _ _ _ (is_bytes b) = refl
HasType-given _ _ _ (is_address s) = refl
HasType-given _ _ _ (is_struct n fs kvs h) = refl
HasType-given _ _ _ (is_array d t vs h) = refl

module _ (out : Outside) where
  entries_of-absent :
      (fs : Fields) (k n m : String) (d : ℕ) (t : TypeId) (o : Bool) (kvs r : KeyValues)
      → has_key k kvs ≡ false
      → lookup_field k fs ≡ some (name_and_type n (type_spec m d t) o)
      → entries_of out fs kvs ≡ ok r
      → entries_of out fs (key_value k nil kvs) ≡ ok (key_value k nil r)
  unfolding entries_of
  entries_of-absent fs k n m d t o kvs r q l e = ground (arith, q, l, e)

  entries_of-given :
      (fs : Fields) (k n m : String) (d : ℕ) (t : TypeId) (o : Bool) (v w : Value)
      (kvs r : KeyValues)
      → has_key k kvs ≡ false
      → lookup_field k fs ≡ some (name_and_type n (type_spec m d t) o)
      → is_nil v ≡ false
      → param_at out d t 1 v ≡ ok w
      → entries_of out fs kvs ≡ ok r
      → entries_of out fs (key_value k v kvs) ≡ ok (key_value k w r)
  unfolding entries_of
  entries_of-given fs k n m d t o v w kvs r q l z a e = ground (arith, q, l, e, z, a)

  array-again :
      (t : TypeId) (vs : Values)
      → array_elements out 1 t 1 any_type vs ≡ ok vs
      → param_at out 1 t 1 (go_slice any_type vs) ≡ ok (go_slice any_type vs)
  unfolding param_at
  array-again t vs q = rw q refl

  mutual
    unfolding param_at array_elements entries_of leaf_of primitive_param_of primitive_of integer_of
        string_of address_of bytes_of boolean_of struct_result

    element-again :
        (d k : ℕ) (t : TypeId) (v : Value)
        → IsProper t
        → IsShallow t
        → leb k d ≡ false
        → HasType 0 t v
        → param_at out d t k v ≡ ok v
    element-again d k _ _ p sh q (is_integer s) = rw q refl
    element-again d k _ _ p sh q (is_boolean s) = rw q refl
    element-again d k _ _ p sh q (is_string s) = rw q refl
    element-again d k _ _ p sh q (is_bytes s) = rw q refl
    element-again d k _ _ p sh q (is_address s) = rw q refl
    element-again d k _ _ p sh q (is_struct n fs kvs h) =
        let same : fields_from fs kvs ≡ kvs =
          fields_from-same fs kvs kvs h (StandsIn-refl fs kvs h p.0 p.1) in
        rw (q, entries-again fs fs kvs (Within-refl fs p.0) p sh h, same) refl

    elements-again :
        (t : TypeId) (vs : Values)
        → IsProper t
        → IsShallow t
        → HaveType 0 t vs
        → array_elements out 1 t 1 any_type vs ≡ ok vs
    elements-again t _ p sh (no_elements _ _) = refl
    elements-again t _ p sh (element _ _ v vs x h) =
        rw (element-again 1 2 t v p sh refl x, elements-again t vs p sh h) refl

    entries-again :
        (fs gs : Fields) (kvs : KeyValues)
        → Within gs fs
        → AreProper gs
        → AreShallow gs
        → HaveFields gs kvs
        → entries_of out fs kvs ≡ ok kvs
    entries-again fs no_fields no_key_values wi p sh no_members = refl
    entries-again fs _ _ wi p sh (absent j n (type_spec m d t) o gs kvs h) =
        entries_of-absent fs n n m d t o kvs kvs
          (has_key-fresh n gs kvs h p.1.2 (ap (λ x. lookup_field x gs) p.1.0 ∙ p.0.0))
          (ap (λ x. lookup_field x fs) p.1.0 ∙ wi.0)
          (entries-again fs gs kvs wi.1 (p.0.2, p.1.2) sh.2 h)
    entries-again fs _ _ wi p sh (member j n m zero t o gs v kvs x h) =
        entries_of-given fs n n m 0 t o v v kvs kvs
          (has_key-fresh n gs kvs h p.1.2 (ap (λ y. lookup_field y gs) p.1.0 ∙ p.0.0))
          (ap (λ y. lookup_field y fs) p.1.0 ∙ wi.0) (HasType-given 0 t v x)
          (element-again 0 1 t v (p.0.1, p.1.1) sh.1 refl x)
          (entries-again fs gs kvs wi.1 (p.0.2, p.1.2) sh.2 h)
    entries-again fs _ _ wi p sh (member j n m (suc zero) t o gs _ kvs (is_array _ _ vs x) h) =
        entries_of-given fs n n m 1 t o (go_slice any_type vs) (go_slice any_type vs) kvs kvs
          (has_key-fresh n gs kvs h p.1.2 (ap (λ y. lookup_field y gs) p.1.0 ∙ p.0.0))
          (ap (λ y. lookup_field y fs) p.1.0 ∙ wi.0) refl
          (array-again t vs (elements-again t vs (p.0.1, p.1.1) sh.1 x))
          (entries-again fs gs kvs wi.1 (p.0.2, p.1.2) sh.2 h)
    entries-again fs _ _ wi p sh (member j n m (suc (suc d)) t o gs v kvs x h) =
        absurd (ground (arith, sh.0))

  -- A value that has the type of a proper specification is returned as it is, where the type and
  -- the types of all fields have one dimension at most. So converting twice is converting once.
  pub param_of_with_spec-again :
      (n : String) (d : ℕ) (t : TypeId) (v : Value)
      → IsProper t
      → IsShallow t
      → d ≤ 1
      → HasType d t v
      → param_of_with_spec out (type_spec n d t) v ≡ ok v
  unfolding param_of_with_spec
  param_of_with_spec-again n zero t v p sh le h = element-again 0 1 t v p sh refl h
  param_of_with_spec-again n (suc zero) t _ p sh le (is_array _ _ vs h) =
      array-again t vs (elements-again t vs p sh h)
  param_of_with_spec-again n (suc (suc d)) t v p sh le h = absurd (ground (arith, le))

  -- A value of a type of two dimensions or more that has an element is refused, although
  -- `ParamOfWithSpec` itself returns such values.
  pub param_of_with_spec-nested :
      (n : String) (d : ℕ) (t : TypeId) (g : GoType) (v : Value) (vs : Values)
      → 2 ≤ d
      → HasType d t (go_slice g (value v vs))
      → param_of_with_spec out (type_spec n d t) (go_slice g (value v vs)) ≡ err invalid_param
  unfolding param_of_with_spec param_at array_elements
  param_of_with_spec-nested n zero t g v vs le h = absurd (ground (arith, le))
  param_of_with_spec-nested n (suc zero) t g v vs le h = absurd (ground (arith, le))
  param_of_with_spec-nested n (suc (suc d)) t _ v vs le (is_array _ _ _ h) = ground arith
