-- ===== src/Service/Method/Valid.antt =====
-- MethodSpec.merge (service/spec.go) keeps the sets of network types free of repetitions, and what it
-- does where an overload leaves out a part in which the method differs.
use btp_sdk.Base.{
  ◌≡◌, inl, inr, String, true, false, none, some, List, [], ◌∷◌, eq_refl, arith, Bool-cases,
}
use mathlib.Core.Path.{subst}
use btp_sdk.Spec.{equals_type_spec}
use btp_sdk.StringSet
use btp_sdk.StringSet.{IsDistinct, snoc-IsDistinct}
use btp_sdk.Service.Method.{
  ContractMethod, MethodOverload, MethodSpec, Flag, is_none, is_support, overload_in, overload,
  compare_method_spec, compare_method_overload, new_method_overload, give_up, support_all,
  unsupport_all, join_overload, merge,
}
use btp_sdk.Service.Method.Merge.{
  Signature, overlaid, effective, AllDistinct, IsValid, contains-merge_one, taken, merge_differs,
}
use btp_sdk.Service.Method.Target.{taken_off}

give_up-AllDistinct :
    (nt : String) (os : List MethodOverload) → AllDistinct os → AllDistinct (give_up nt os)
unfolding give_up
give_up-AllDistinct nt [] d = d
give_up-AllDistinct nt (o ∷ os) d = elim (Bool-cases (StringSet.contains o.network_types nt)) [
  | inl held ↦ rw held ((StringSet.remove-IsDifference o.network_types nt d.0).1, d.1)
  | inr other ↦ rw other (d.0, give_up-AllDistinct nt os d.1)
]

join-AllDistinct :
    (f : Flag) (cs : ContractMethod) (nts : List String) (os : List MethodOverload)
    → IsDistinct nts
    → AllDistinct os
    → AllDistinct (join_overload f cs nts os)
unfolding join_overload new_method_overload
join-AllDistinct f cs nts [] dn d = (dn, tt)
join-AllDistinct f cs nts (o ∷ os) dn d = elim (Bool-cases (compare_method_overload o cs)) [
  | inl fits ↦ rw fits ((StringSet.merge-IsUnion o.network_types nts d.0 dn).1, d.1)
  | inr other ↦ rw other (d.0, join-AllDistinct f cs nts os dn d.1)
]

support_all-IsValid : (nts : List String) (s : MethodSpec) → IsValid s → IsValid (support_all nts s)
unfolding support_all is_support
support_all-IsValid [] s v = v
support_all-IsValid (nt ∷ nts) s v = elim (Bool-cases (StringSet.contains s.network_types nt)) [
  | inl supported ↦ rw supported (support_all-IsValid nts s v)
  | inr unsupported ↦ rw unsupported (
      support_all-IsValid nts _ (record {
        base_distinct = snoc-IsDistinct s.network_types nt v.base_distinct unsupported;
        overloads_distinct = give_up-AllDistinct nt s.overloads v.overloads_distinct;
      }))
]

unsupport_all-IsValid :
    (nts : List String) (s : MethodSpec) → IsValid s → IsValid (unsupport_all nts s)
unfolding unsupport_all is_support
unsupport_all-IsValid [] s v = v
unsupport_all-IsValid (nt ∷ nts) s v = elim (Bool-cases (StringSet.contains s.network_types nt)) [
  | inr unsupported ↦ rw unsupported (unsupport_all-IsValid nts s v)
  | inl supported ↦ rw supported (
      unsupport_all-IsValid nts _ (record {
        base_distinct = (StringSet.remove-IsDifference s.network_types nt v.base_distinct).1;
        overloads_distinct = v.overloads_distinct;
      }))
]

-- Merging any number of distinct network types at once keeps every set of network types, that of
-- the method and those of its overloads, free of repetitions.
pub merge-IsValid :
    (s : MethodSpec) (cs : ContractMethod) (nts : List String)
    → IsValid s
    → IsDistinct nts
    → IsValid (merge s cs nts).0
unfolding merge
merge-IsValid s cs nts v d = elim (Bool-cases (is_none (compare_method_spec s cs))) [
  | inl same ↦ rw same (support_all-IsValid nts s v)
  | inr differs ↦
      let w = unsupport_all-IsValid nts s v in
      rw differs (record {
        base_distinct = w.base_distinct;
        overloads_distinct =
            join-AllDistinct (compare_method_spec s cs) cs nts (unsupport_all nts s).overloads d
              w.overloads_distinct;
      })
]

-- Where the first overload leaves the output out and the method is compared equal to it, a method
-- that differs from the base in its output is merged into that overload all the same: the network
-- type sees the output of the base afterwards, which is not that of the contract's method.
pub merge_absorbs :
    (s : MethodSpec) (cs : ContractMethod) (nt : String) (o : MethodOverload)
    (os : List MethodOverload)
    → IsValid s
    → s.overloads ≡ o ∷ os
    → compare_method_overload o cs ≡ true
    → o.output ≡ none
    → equals_type_spec s.output cs.output ≡ false
    → (g : Signature) × (effective (merge s cs (nt ∷ [])).0 nt ≡ some g)
      × (g.output ≡ s.output)
      × (equals_type_spec g.output cs.output ≡ false)
unfolding effective overload overload_in is_support taken compare_method_spec join_overload
merge_absorbs s cs nt o os v first fits left_out wrong =
    let differs : is_none (compare_method_spec s cs) ≡ false = ground arith in
    let dist = subst AllDistinct first v.overloads_distinct in
    (
      overlaid s o,
      rw (merge_differs s cs nt differs) (
          ground (
            arith,
            first,
            taken_off s nt v,
            contains-merge_one o.network_types nt nt dist.0,
            eq_refl nt,
          )),
      ground arith,
      ground arith,
    )
