-- ===== src/Service/Method/Target.antt =====
-- MethodSpec.merge (service/spec.go) for the network type that it is called for: which method this
-- network type sees afterwards.
use btp_sdk.Base.{
  ◌≡◌, inl, inr, String, Bool, true, false, some, List, [], ◌∷◌, eq_refl, arith, All, Bool-cases,
}
use btp_sdk.Spec.Reflexive.{
  WellFormed, FieldsWellFormed, equals_type_spec_refl, equals_name_and_types_refl,
}
use btp_sdk.StringSet
use btp_sdk.StringSet.{IsDistinct, contains-append}
use btp_sdk.Service.Method.{
  ContractMethod, MethodOverload, MethodSpec, Flag, is_none, bool_eq, is_some, is_support,
  overload_in, overload, compare_method_spec, compare_method_overload, new_method_overload,
  join_overload, merge,
}
use btp_sdk.Service.Method.Merge.{
  Signature, base, overlaid, effective, Agrees, AllDistinct, IsValid, contains-remove, contains-one,
  contains-merge_one, found, given, taken, merge_same, merge_differs,
}

-- The overload gives every part in which the method differs.
abbrev pub Covers : Flag → MethodOverload → Type 0
Covers f o =
    (f.inputs ≡ true → is_some o.inputs ≡ true)
    × (f.output ≡ true → is_some o.output ≡ true)
    × (f.payable ≡ true → is_some o.payable ≡ true)
    × (f.readonly ≡ true → is_some o.readonly ≡ true)

-- Whatever overload the method is compared equal to gives every part in which it differs from the
-- base, and none of them holds the network type yet.
abbrev pub Ready : MethodSpec → ContractMethod → String → Type 0
Ready s cs nt =
    All
      (λ o.
        (compare_method_overload o cs ≡ true → Covers (compare_method_spec s cs) o)
        × (StringSet.contains o.network_types nt ≡ false))
      s.overloads

base-Agrees :
    (s : MethodSpec) (cs : ContractMethod)
    → is_none (compare_method_spec s cs) ≡ true
    → Agrees (base s) cs
unfolding compare_method_spec
base-Agrees s cs same = record {
  inputs_agree = ground arith;
  output_agrees = ground arith;
  payable_agrees = ground arith;
  readonly_agrees = ground arith;
}

overlaid-Agrees :
    (s : MethodSpec) (cs : ContractMethod) (o : MethodOverload)
    → compare_method_overload o cs ≡ true
    → Covers (compare_method_spec s cs) o
    → Agrees (overlaid s o) cs
unfolding compare_method_spec compare_method_overload
overlaid-Agrees s cs o fits c = record {
  inputs_agree = ground (arith, c.0);
  output_agrees = ground (arith, c.1);
  payable_agrees = ground (arith, c.2);
  readonly_agrees = ground (arith, c.3);
}

bool_eq_refl : (b : Bool) → bool_eq b b ≡ true
bool_eq_refl b = ground arith

new_method_overload-Agrees :
    (s : MethodSpec) (cs : ContractMethod) (nts : List String)
    → FieldsWellFormed cs.input_map
    → WellFormed cs.output
    → Agrees (overlaid s (new_method_overload (compare_method_spec s cs) cs nts)) cs
unfolding compare_method_spec new_method_overload
new_method_overload-Agrees s cs nts wi wo = record {
  inputs_agree = ground (arith, equals_name_and_types_refl cs.input_map wi);
  output_agrees = ground (arith, equals_type_spec_refl cs.output wo);
  payable_agrees = ground (arith, bool_eq_refl cs.payable);
  readonly_agrees = ground (arith, bool_eq_refl cs.read_only);
}

module _ (s : MethodSpec) (cs : ContractMethod) (nt : String) (wi : FieldsWellFormed cs.input_map)
    (wo : WellFormed cs.output) where
  join_self :
      (os : List MethodOverload)
      → AllDistinct os
      → All
          (λ o.
            (compare_method_overload o cs ≡ true → Covers (compare_method_spec s cs) o)
            × (StringSet.contains o.network_types nt ≡ false))
          os
      → (g : Signature) × (found s (join_overload (compare_method_spec s cs) cs (nt ∷ []) os) nt
          ≡ some g)
        × Agrees g cs
  unfolding found overload_in join_overload
  join_self [] d r = (
    overlaid s (new_method_overload (compare_method_spec s cs) cs (nt ∷ [])),
    unfold new_method_overload in (ground (arith, contains-one nt nt, eq_refl nt)),
    new_method_overload-Agrees s cs (nt ∷ []) wi wo,
  )
  join_self (o ∷ os) d r = elim (Bool-cases (compare_method_overload o cs)) [
    | inl fits ↦ (
      overlaid s o,
      rw fits (ground (arith, contains-merge_one o.network_types nt nt d.0, eq_refl nt)),
      overlaid-Agrees s cs o fits (r.0.0 fits),
    )
    | inr other ↦
        let (g, eq, a) = join_self os d.1 r.1 in (g, rw other (ground (arith, eq, r.0.1)), a)
  ]

pub taken_off :
    (s : MethodSpec) (nt : String)
    → IsValid s
    → StringSet.contains (taken s nt).network_types nt ≡ false
unfolding taken is_support
taken_off s nt v = ground (arith, contains-remove s.network_types nt nt v.base_distinct, eq_refl nt)

-- A merge makes the network type it is called for see the contract's method: if no overload holds the
-- network type yet, and every overload that the method is compared equal to gives all the
-- parts in which it differs from the base, then the network type is supported afterwards, with
-- inputs, an output and the flags that are those of the contract's method.
pub merge_target :
    (s : MethodSpec) (cs : ContractMethod) (nt : String)
    → IsValid s
    → FieldsWellFormed cs.input_map
    → WellFormed cs.output
    → Ready s cs nt
    → (g : Signature) × (effective (merge s cs (nt ∷ [])).0 nt ≡ some g) × Agrees g cs
unfolding effective overload is_support found given taken
merge_target s cs nt v wi wo r = elim (Bool-cases (is_none (compare_method_spec s cs))) [
  | inl same ↦ (
    base s,
    rw (merge_same s cs nt same) (
        ground
          (arith, contains-append s.network_types (nt ∷ []) nt, contains-one nt nt, eq_refl nt)),
    base-Agrees s cs same,
  )
  | inr differs ↦
      let (g, eq, a) = join_self s cs nt wi wo s.overloads v.overloads_distinct r in
      (g, rw (merge_differs s cs nt differs) (ground (arith, eq, taken_off s nt v)), a)
]
