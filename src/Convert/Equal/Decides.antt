-- ===== src/Convert/Equal/Decides.antt =====
-- contract/convert.go: what `EqualParam` answers about two values of the specification's type.
use btp_sdk.Base.{
  ◌≡◌, ◌↔◌, refl, ℕ, suc, zero, String, Bool, true, false, some, List, [], ◌∷◌, str_eq, ◌==◌,
  if◌then◌else◌, arith, inl, inr, ap, eq_iff, ==_iff, Bool-cases,
}
use btp_sdk.Base.Results.{Result, ok, err, ◌>>=◌}
use btp_sdk.Spec.{type_spec, TypeId, t_struct, Fields}
use btp_sdk.Convert.{
  any_type, Value, nil, struct, go_slice, Values, no_values, value, KeyValues, key_value, Failure,
  panicked, Outside, struct_view,
}
use btp_sdk.Convert.Primitive.{integer_of, boolean_of, string_of, bytes_of, address_of}
use btp_sdk.Convert.Typed.{
  HasType, is_integer, is_boolean, is_string, is_bytes, is_address, is_struct, is_array, HaveType,
  no_elements, element,
}
use btp_sdk.Convert.Untyped.{struct_of, param_of, checked_fields}
use btp_sdk.Convert.Equal.{
  same_bool, same_bytes, is_array_kind, reflect_len, reflect_elements, equal_elements,
  equal_indexed, equal_arrays, equal_dimensions, equal_param, equal_leaf, count_values,
}

abbrev pub IsPlain : TypeId → Type 0
IsPlain (t_struct n fs) = ⊥
IsPlain t = Unit

-- A comparison that succeeds, and answers whether the two are equal.
abbrev Decides : Result Failure Bool → Value → Value → Type 0
Decides c a b = (x : Bool) × (c ≡ ok x) × ((x ≡ true) ↔ (a ≡ b))

same_bool_iff : (a b : Bool) → (same_bool a b ≡ true) ↔ (a ≡ b)
unfolding same_bool
same_bool_iff true b = ground arith
same_bool_iff false b = ground arith

same_bytes_iff : (a b : List ℕ) → (same_bytes a b ≡ true) ↔ (a ≡ b)
unfolding same_bytes
same_bytes_iff [] [] = ground arith
same_bytes_iff [] (y ∷ b) = ground arith
same_bytes_iff (x ∷ a) [] = ground arith
same_bytes_iff (x ∷ a) (y ∷ b) = ground (arith, same_bytes_iff a b)

module _ (out : Outside) where
  leaf-Decides :
      (t : TypeId) (a b : Value)
      → IsPlain t
      → HasType 0 t a
      → HasType 0 t b
      → Decides (equal_leaf out t a b) a b
  unfolding equal_leaf integer_of boolean_of string_of bytes_of address_of
  leaf-Decides _ _ _ p (is_integer s) (is_integer u) =
      (str_eq s u, refl, ground (arith, eq_iff s u))
  leaf-Decides _ _ _ p (is_boolean s) (is_boolean u) =
      (same_bool s u, refl, ground (arith, same_bool_iff s u))
  leaf-Decides _ _ _ p (is_string s) (is_string u) = (str_eq s u, refl, ground (arith, eq_iff s u))
  leaf-Decides _ _ _ p (is_bytes s) (is_bytes u) =
      (same_bytes s u, refl, ground (arith, same_bytes_iff s u))
  leaf-Decides _ _ _ p (is_address s) (is_address u) =
      (str_eq s u, refl, ground (arith, eq_iff s u))
  leaf-Decides _ _ _ p (is_struct n fs kvs h) hb = absurd p

DecideElements : Result Failure Bool → Values → Values → Type 0
DecideElements c vs ws = (x : Bool) × (c ≡ ok x) × ((x ≡ true) ↔ (vs ≡ ws))

elements-cons :
    (c r : Result Failure Bool) (v w : Value) (vs ws : Values)
    → Decides c v w
    → DecideElements r vs ws
    → DecideElements (c >>= λ e. if e then r else ok false) (value v vs) (value w ws)
unfolding DecideElements
elements-cons c r v w vs ws (true, q, i) (e, p, j) = (e, ground (arith, q, p), ground (arith, i, j))
elements-cons c r v w vs ws (false, q, i) h = (false, ground (arith, q), ground (arith, i))

elements-Decide :
    (f : Value → Value → Result Failure Bool) (d : ℕ) (t : TypeId)
    → ((a b : Value) → HasType d t a → HasType d t b → Decides (f a b) a b)
    → (vs ws : Values) → HaveType d t vs
    → HaveType d t ws
    → count_values vs ≡ count_values ws
    → DecideElements (equal_elements f vs ws) vs ws
unfolding DecideElements
elements-Decide f d t h _ _ (no_elements _ _) (no_elements _ _) n = (true, refl, ground arith)
elements-Decide f d t h _ _ (no_elements _ _) (element _ _ w ws y hw) n = absurd (ground (arith, n))
elements-Decide f d t h _ _ (element _ _ v vs x hv) (no_elements _ _) n = absurd (ground (arith, n))
elements-Decide f d t h _ _ (element _ _ v vs x hv) (element _ _ w ws y hw) n =
    elements-cons (f v w) (equal_elements f vs ws) v w vs ws (h v w x y)
      (elements-Decide f d t h vs ws hv hw (ground (arith, n)))

equal_indexed-some :
    (f : Value → Value → Result Failure Bool) (vs ws : Values)
    → equal_indexed f (count_values vs) (some vs) (some ws) ≡ equal_elements f vs ws
unfolding equal_indexed
equal_indexed-some f no_values ws = refl
equal_indexed-some f (value v vs) no_values = refl
equal_indexed-some f (value v vs) (value w ws) = refl

arrays-Decide :
    (f : Value → Value → Result Failure Bool) (d : ℕ) (t : TypeId)
    → ((a b : Value) → HasType d t a → HasType d t b → Decides (f a b) a b)
    → (vs ws : Values) → HaveType d t vs
    → HaveType d t ws
    → Decides
        (equal_arrays f (go_slice any_type vs) (go_slice any_type ws))
        (go_slice any_type vs)
        (go_slice any_type ws)
unfolding equal_arrays is_array_kind reflect_len reflect_elements equal_indexed DecideElements
arrays-Decide f d t h vs ws hv hw = elim (Bool-cases (count_values vs == count_values ws)) [
  | inr differ ↦ (false, ground (arith, differ), ground (arith, differ, ap count_values))
  | inl same ↦
      let r : DecideElements (equal_elements f vs ws) vs ws =
        elements-Decide f d t h vs ws hv hw ((==_iff (count_values vs) (count_values ws)).0 same) in
      (r.0, ground (arith, same, equal_indexed-some f vs ws, r.1), ground (arith, r.2))
]

dimensions-Decide :
    (f : Value → Value → Result Failure Bool) (t : TypeId)
    → ((a b : Value) → HasType 0 t a → HasType 0 t b → Decides (f a b) a b)
    → (d : ℕ) (a b : Value) → HasType d t a
    → HasType d t b
    → Decides (equal_dimensions f d a b) a b
unfolding equal_dimensions
dimensions-Decide f t h zero a b ha hb = h a b ha hb
dimensions-Decide f t h (suc d) _ _ (is_array _ _ vs hv) (is_array _ _ ws hw) =
    arrays-Decide (equal_dimensions f d) d t (dimensions-Decide f t h d) vs ws hv hw

module _ (out : Outside) where
  -- On two values of the same array or leaf type `EqualParam` succeeds, and answers whether they are equal.
  pub equal_param-decides :
      (n : String) (d : ℕ) (t : TypeId) (a b : Value)
      → IsPlain t
      → HasType d t a
      → HasType d t b
      → (x : Bool) × (equal_param out (type_spec n d t) a b ≡ ok x) × ((x ≡ true) ↔ (a ≡ b))
  unfolding equal_param
  equal_param-decides n d t a b p ha hb =
      dimensions-Decide (equal_leaf out t) t (λ x y hx hy. leaf-Decides out t x y p hx hy) d a b ha
        hb

  -- `EqualParam` panics on a struct value with an absent field, which `ParamOfWithSpec` returns
  -- for a value that leaves the field out.
  pub equal_param-absent :
      (n sn k : String) (fs : Fields) (kvs : KeyValues) (b : Value)
      → equal_param out (type_spec n 0 (t_struct sn fs)) (struct sn (key_value k nil kvs)) b
        ≡ err panicked
  unfolding equal_param equal_leaf equal_dimensions struct_of struct_view checked_fields param_of
  equal_param-absent n sn k fs kvs b = refl
