-- ===== src/Service/Merged/Given.antt =====
-- The parts that an entry of a view gives itself (newMethodSpec of service/mergedservice.go).
use btp_sdk.Base.{
  ◌≡◌, inl, inr, ◌⊎◌, String, true, false, Option, none, some, List, [], ◌∷◌, map, arith,
  Bool-cases, Option-cases,
}
use btp_sdk.Spec.{Fields, TypeSpec, equals_type_spec, equals_name_and_types}
use btp_sdk.StringSet
use btp_sdk.Service.Method.{MethodOverload, MethodSpec, is_support, overload, overload_in}
use btp_sdk.Service.Method.Merge.{Signature, base, overlaid, overlaid?, effective}
use btp_sdk.Service.Merged.{compare_method, overload_of, rebased, new_merged_method}

-- The overload, if there is one, gives these inputs, or this output, itself.
abbrev pub OwnInputs : Option MethodOverload → Fields → Type 0
OwnInputs none i = ⊥
OwnInputs (some oo) i = oo.inputs ≡ some i

abbrev pub OwnOutput : Option MethodOverload → TypeSpec → Type 0
OwnOutput none t = ⊥
OwnOutput (some oo) t = oo.output ≡ some t

module _ (merged origin : MethodSpec) where
  -- The merged method's inputs differ from those of the network type, or they are equal to the origin's
  -- and the network type has its own in an overload.
  abbrev pub DiffersInputs : Option MethodOverload → Fields → Type 0
  DiffersInputs oo i =
      (equals_name_and_types merged.inputs i ≡ false)
      ⊎ ((equals_name_and_types merged.inputs origin.inputs ≡ true) × OwnInputs oo i)

  abbrev pub DiffersOutput : Option MethodOverload → TypeSpec → Type 0
  DiffersOutput oo t =
      (equals_type_spec merged.output t ≡ false)
      ⊎ ((equals_type_spec merged.output origin.output ≡ true) × OwnOutput oo t)

  abbrev pub GivenInputs : Option MethodOverload → MethodOverload → Fields → Type 0
  GivenInputs oo o want = (i : Fields) → o.inputs ≡ some i → (i ≡ want) × DiffersInputs oo want

  abbrev pub GivenOutput : Option MethodOverload → MethodOverload → TypeSpec → Type 0
  GivenOutput oo o want = (t : TypeSpec) → o.output ≡ some t → (t ≡ want) × DiffersOutput oo want

  first-GivenInputs :
      (oo : Option MethodOverload)
      → GivenInputs oo
          (overload_of (compare_method merged origin) origin origin.network_types)
          origin.inputs
  unfolding compare_method overload_of
  first-GivenInputs oo i q = elim (Bool-cases (equals_name_and_types merged.inputs origin.inputs)) [
    | inl same ↦ absurd (ground (arith, q, same))
    | inr differs ↦ (ground (arith, q, differs), inl differs)
  ]

  first-GivenOutput :
      (oo : Option MethodOverload)
      → GivenOutput oo
          (overload_of (compare_method merged origin) origin origin.network_types)
          origin.output
  unfolding compare_method overload_of
  first-GivenOutput oo t q = elim (Bool-cases (equals_type_spec merged.output origin.output)) [
    | inl same ↦ absurd (ground (arith, q, same))
    | inr differs ↦ (ground (arith, q, differs), inl differs)
  ]

  rebased-GivenInputs :
      (oo : MethodOverload)
      → GivenInputs
          (some oo)
          (rebased (compare_method merged origin) merged origin oo)
          (overlaid origin oo).inputs
  unfolding compare_method rebased
  rebased-GivenInputs oo i q = elim (Option-cases oo.inputs) [
    | inl none_own ↦ elim (Bool-cases (equals_name_and_types merged.inputs origin.inputs)) [
      | inl same ↦ absurd (ground (arith, q, none_own, same))
      | inr differs ↦
          (ground (arith, q, none_own, differs), inl (ground (arith, none_own, differs)))
    ]
    | inr (own, given) ↦ elim (Bool-cases (equals_name_and_types merged.inputs own)) [
      | inl equal ↦ elim (Bool-cases (equals_name_and_types merged.inputs origin.inputs)) [
        | inl same ↦ (ground (arith, q, given, same), inr (same, ground (arith, given)))
        | inr differs ↦ absurd (ground (arith, q, given, differs, equal))
      ]
      | inr unequal ↦ (ground (arith, q, given, unequal), inl (ground (arith, given, unequal)))
    ]
  ]

  rebased-GivenOutput :
      (oo : MethodOverload)
      → GivenOutput
          (some oo)
          (rebased (compare_method merged origin) merged origin oo)
          (overlaid origin oo).output
  unfolding compare_method rebased
  rebased-GivenOutput oo t q = elim (Option-cases oo.output) [
    | inl none_own ↦ elim (Bool-cases (equals_type_spec merged.output origin.output)) [
      | inl same ↦ absurd (ground (arith, q, none_own, same))
      | inr differs ↦
          (ground (arith, q, none_own, differs), inl (ground (arith, none_own, differs)))
    ]
    | inr (own, given) ↦ elim (Bool-cases (equals_type_spec merged.output own)) [
      | inl equal ↦ elim (Bool-cases (equals_type_spec merged.output origin.output)) [
        | inl same ↦ (ground (arith, q, given, same), inr (same, ground (arith, given)))
        | inr differs ↦ absurd (ground (arith, q, given, differs, equal))
      ]
      | inr unequal ↦ (ground (arith, q, given, unequal), inl (ground (arith, given, unequal)))
    ]
  ]

  abbrev Given : Option MethodOverload → MethodOverload → Signature → Type 0
  Given oo o g = GivenInputs oo o g.inputs × GivenOutput oo o g.output

  rest-Given :
      (os : List MethodOverload) (nt : String) (o : MethodOverload) (g : Signature)
      → overlaid? origin (overload_in os nt) ≡ some g
      → overload_in (map (λ oo. rebased (compare_method merged origin) merged origin oo) os) nt
        ≡ some o
      → Given (overload_in os nt) o g
  unfolding overload_in rebased
  rest-Given [] nt o g h q = absurd (ground (arith, q))
  rest-Given (oo ∷ os) nt o g h q = elim (Bool-cases (StringSet.contains oo.network_types nt)) [
    | inl held ↦
        let p : overlaid origin oo ≡ g = ground (arith, held, h) in
        let e : rebased (compare_method merged origin) merged origin oo ≡ o =
          ground (arith, held, q) in
        rw (held, ← p, ← e) (rebased-GivenInputs oo, rebased-GivenOutput oo)
    | inr other ↦
        rw other (rest-Given os nt o g (ground (arith, other, h)) (ground (arith, other, q)))
  ]

  -- What the entry of a network type gives is what the network type sees in the origin.
  pub new_merged_method-Given :
      (nt : String) (o : MethodOverload) (g : Signature)
      → effective origin nt ≡ some g
      → overload (new_merged_method merged origin) nt ≡ some o
      → Given (overload origin nt) o g
  unfolding effective overload new_merged_method is_support
  new_merged_method-Given nt o g h q =
      elim (Bool-cases (StringSet.contains origin.network_types nt)) [
        | inl supported ↦
            let p : base origin ≡ g = ground (arith, h, supported) in
            let e : overload_of (compare_method merged origin) origin origin.network_types ≡ o =
              unfold overload_in overload_of in (ground (arith, supported, q)) in
            rw (← p, ← e)
              (first-GivenInputs (overload origin nt), first-GivenOutput (overload origin nt))
        | inr other ↦
            rest-Given origin.overloads nt o g (ground (arith, other, h))
              (unfold overload_in overload_of in (ground (arith, other, q)))
      ]
