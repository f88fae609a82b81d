-- ===== src/Service/Merged/Views.antt =====
-- The view of a method that newMethodSpec (service/mergedservice.go) builds.
use btp_sdk.Base.{
  ◌≡◌, refl, inl, inr, String, true, Option, none, some, List, [], ◌∷◌, map, arith, Bool-cases, All,
}
use mathlib.Core.Option
use btp_sdk.Spec.{Fields, TypeSpec, equals_type_spec, equals_name_and_types}
use btp_sdk.Spec.Reflexive.{
  WellFormed, FieldsWellFormed, equals_type_spec_refl, equals_name_and_types_refl,
}
use btp_sdk.StringSet
use btp_sdk.Service.Method.{MethodOverload, MethodSpec, is_support, overload, overload_in}
use btp_sdk.Service.Method.Merge.{Signature, base, overlaid, overlaid?, effective}
use btp_sdk.Service.Merged.{compare_method, overload_of, rebased, new_merged_method}

-- The types of an overload are well-formed.
abbrev pub InputsWellFormed : Option Fields → Type 0
InputsWellFormed none = Unit
InputsWellFormed (some i) = FieldsWellFormed i

abbrev pub OutputWellFormed : Option TypeSpec → Type 0
OutputWellFormed none = Unit
OutputWellFormed (some t) = WellFormed t

pub record TypesWellFormed (m : MethodSpec) : Type 0 where
  pub inputs_ok : FieldsWellFormed m.inputs
  pub output_ok : WellFormed m.output
  pub overloads_ok : All (λ o. InputsWellFormed o.inputs × OutputWellFormed o.output) m.overloads

-- An entry of a view: what it leaves out is that of the merged method.
abbrev pub Sees : MethodSpec → MethodOverload → Signature → Type 0
Sees merged o g =
    (equals_name_and_types (Option.get_or o.inputs merged.inputs) g.inputs ≡ true)
    × (equals_type_spec (Option.get_or o.output merged.output) g.output ≡ true)

first-Sees :
    (merged origin : MethodSpec)
    → FieldsWellFormed origin.inputs
    → WellFormed origin.output
    → Sees merged
        (overload_of (compare_method merged origin) origin origin.network_types)
        (base origin)
unfolding compare_method overload_of
first-Sees merged origin wi wo = (
  ground (arith, equals_name_and_types_refl origin.inputs wi),
  ground (arith, equals_type_spec_refl origin.output wo),
)

rebased_inputs :
    (merged origin : MethodSpec) (oo : MethodOverload) (i : Option Fields)
    → oo.inputs ≡ i
    → FieldsWellFormed origin.inputs
    → InputsWellFormed i
    → equals_name_and_types
        (Option.get_or
          (rebased (compare_method merged origin) merged origin oo).inputs
          merged.inputs)
        (Option.get_or i origin.inputs)
      ≡ true
unfolding compare_method rebased
rebased_inputs merged origin oo none e wo w =
    rw e (ground (arith, equals_name_and_types_refl origin.inputs wo))
rebased_inputs merged origin oo (some i) e wo w =
    rw e (ground (arith, equals_name_and_types_refl i w))

rebased_output :
    (merged origin : MethodSpec) (oo : MethodOverload) (t : Option TypeSpec)
    → oo.output ≡ t
    → WellFormed origin.output
    → OutputWellFormed t
    → equals_type_spec
        (Option.get_or
          (rebased (compare_method merged origin) merged origin oo).output
          merged.output)
        (Option.get_or t origin.output)
      ≡ true
unfolding compare_method rebased
rebased_output merged origin oo none e wo w =
    rw e (ground (arith, equals_type_spec_refl origin.output wo))
rebased_output merged origin oo (some t) e wo w = rw e (ground (arith, equals_type_spec_refl t w))

module _ (merged origin : MethodSpec) (w : TypesWellFormed origin) where
  rest-Sees :
      (os : List MethodOverload) (nt : String) (g : Signature)
      → All (λ o. InputsWellFormed o.inputs × OutputWellFormed o.output) os
      → overlaid? origin (overload_in os nt) ≡ some g
      → (o : MethodOverload) × (overload_in
            (map (λ oo. rebased (compare_method merged origin) merged origin oo) os)
            nt
          ≡ some o)
        × Sees merged o g
  unfolding overload_in rebased
  rest-Sees [] nt g a h = cc
  rest-Sees (oo ∷ os) nt g a h = elim (Bool-cases (StringSet.contains oo.network_types nt)) [
    | inl held ↦
        let p : overlaid origin oo ≡ g = ground (arith, held) in
        (
          rebased (compare_method merged origin) merged origin oo,
          ground (arith, held),
          rw (← p) (
            rebased_inputs merged origin oo oo.inputs refl w.inputs_ok a.0.0,
            rebased_output merged origin oo oo.output refl w.output_ok a.0.1,
          ),
        )
    | inr other ↦
        let (o, q, sees) = rest-Sees os nt g a.1 (ground (arith, other)) in
        (o, ground (arith, other, q), sees)
  ]

  -- A network type that sees a method of the origin, by the method itself or by an overload, has an
  -- entry in the view; the inputs and the output of this entry, or of the merged method where it
  -- leaves them out, are equal to those that the network type sees in the origin.
  pub new_merged_method-Sees :
      (nt : String) (g : Signature)
      → effective origin nt ≡ some g
      → (o : MethodOverload) × (overload (new_merged_method merged origin) nt ≡ some o)
        × Sees merged o g
  unfolding effective overload new_merged_method is_support
  new_merged_method-Sees nt g h = elim (Bool-cases (StringSet.contains origin.network_types nt)) [
    | inl supported ↦
        let p : base origin ≡ g = ground (arith, supported) in
        (
          overload_of (compare_method merged origin) origin origin.network_types,
          unfold overload_in overload_of in (ground (arith, supported)),
          rw (← p) (first-Sees merged origin w.inputs_ok w.output_ok),
        )
    | inr other ↦
        let (o, q, sees) = rest-Sees origin.overloads nt g w.overloads_ok (ground (arith, other)) in
        (o, unfold overload_in overload_of in (ground (arith, other, q)), sees)
  ]
