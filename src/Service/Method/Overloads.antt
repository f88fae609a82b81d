-- ===== src/Service/Method/Overloads.antt =====
-- MethodSpec.MergeOverloads (service/spec.go): the overloads of a method are merged into it.
use btp_sdk.Base.{
  ◌≡◌, refl, ap, ◌∙◌, ◌⊎◌, inl, inr, String, Bool, true, false, ◌&&◌, ◌||◌, List, [], ◌∷◌, ◌++◌,
  if◌then◌else◌, arith, Bool-cases,
}
use btp_sdk.Base.Results.{Result, ok, err, ◌>>=◌}
use btp_sdk.Spec.{equals_type_spec, equals_name_and_types}
use btp_sdk.Spec.Reflexive.{
  WellFormed, FieldsWellFormed, equals_type_spec_refl, equals_name_and_types_refl,
}
use btp_sdk.StringSet
use btp_sdk.StringSet.{contains-append, contains-eq-has}
use btp_sdk.Service.Method.{
  ContractMethod, MethodOverload, MethodSpec, Flag, is_none, flag_eq, is_some, is_support,
  overload_in, overload, compare_method_spec, flag_from_overload,
}

pub data OverloadsError : Type 0 where
  not_compatible : String → OverloadsError

-- the loop of `MergeOverloads` over the overloads
unfoldable pub supports : String → Flag → List MethodOverload → Result OverloadsError (List String)
unfolding flag_from_overload
supports name f [] = ok []
supports name f (o ∷ os) =
    if is_none f || flag_eq (flag_from_overload o) f
    then (supports name f os >>= λ r. ok (o.network_types ++ r))
    else err (not_compatible name)

-- the rest of `MergeOverloads`, for the network types that the overloads hold
unfoldable pub merged_into : MethodSpec → ContractMethod → Flag → List String → MethodSpec
unfolding compare_method_spec
merged_into s cs f nts =
    let g = compare_method_spec s cs in
    record s {
      network_types = s.network_types ++ nts;
      inputs = if is_none f || (f.inputs && g.inputs) then cs.input_map else s.inputs;
      output = if is_none f || (f.output && g.output) then cs.output else s.output;
      payable = if is_none f || (f.payable && g.payable) then cs.payable else s.payable;
      readonly = if is_none f || (f.readonly && g.readonly) then cs.read_only else s.readonly;
      overloads = [];
    }

-- `MergeOverloads`
unfoldable pub merge_overloads :
    MethodSpec → ContractMethod → Flag → Result OverloadsError MethodSpec
unfolding supports merged_into
merge_overloads s cs f = supports s.name f s.overloads >>= λ nts. ok (merged_into s cs f nts)

-- Every overload has exactly the flag, or the flag is None.
abbrev pub fits : Flag → List MethodOverload → Bool
fits f [] = true
fits f (o ∷ os) = (is_none f || flag_eq (flag_from_overload o) f) && fits f os

supports_ok :
    (name : String) (f : Flag) (os : List MethodOverload)
    → fits f os ≡ true
    → (nts : List String) × (supports name f os ≡ ok nts)
      × ((nt : String) → StringSet.contains nts nt ≡ is_some (overload_in os nt))
unfolding supports overload_in
supports_ok name f [] h = ([], refl, λ nt. ground (arith, contains-eq-has [] nt))
supports_ok name f (o ∷ os) h =
    let (nts, eq, c) = supports_ok name f os (ground arith) in
    (
      o.network_types ++ nts,
      ground (arith, eq),
      λ nt. ground (arith, c nt, contains-append o.network_types nts nt),
    )

supports_err :
    (name : String) (f : Flag) (os : List MethodOverload)
    → fits f os ≡ false
    → supports name f os ≡ err (not_compatible name)
unfolding supports
supports_err name f [] h = cc
supports_err name f (o ∷ os) h = elim (Bool-cases (is_none f || flag_eq (flag_from_overload o) f)) [
  | inl fit ↦ ground (arith, fit, supports_err name f os)
  | inr misfit ↦ ground (arith, misfit)
]

-- What one part of the method is after the merge: the contract's where the flag covers it (up to
-- equality of types), and unchanged where a flag other than None does not.
abbrev pub IsMerged : MethodSpec → ContractMethod → Flag → MethodSpec → Type 0
IsMerged s cs f t =
    ((is_none f || f.inputs ≡ true) → equals_name_and_types t.inputs cs.input_map ≡ true)
    × ((is_none f || f.output ≡ true) → equals_type_spec t.output cs.output ≡ true)
    × ((is_none f || f.payable ≡ true) → t.payable ≡ cs.payable)
    × ((is_none f || f.readonly ≡ true) → t.readonly ≡ cs.read_only)
    × (is_none f ≡ false → f.inputs ≡ false → t.inputs ≡ s.inputs)
    × (is_none f ≡ false → f.output ≡ false → t.output ≡ s.output)
    × (is_none f ≡ false → f.payable ≡ false → t.payable ≡ s.payable)
    × (is_none f ≡ false → f.readonly ≡ false → t.readonly ≡ s.readonly)

parts :
    (s : MethodSpec) (cs : ContractMethod) (f : Flag) (nts : List String)
    → FieldsWellFormed cs.input_map
    → WellFormed cs.output
    → IsMerged s cs f (merged_into s cs f nts)
unfolding merged_into compare_method_spec
parts s cs f nts wi wo =
    let ri = equals_name_and_types_refl cs.input_map wi in
    let ro = equals_type_spec_refl cs.output wo in
    (
      λ h. ground (arith, ri),
      λ h. ground (arith, ro),
      λ h. ground arith,
      λ h. ground arith,
      λ h k. ground arith,
      λ h k. ground arith,
      λ h k. ground arith,
      λ h k. ground arith,
    )

-- MergeOverloads returns an error exactly when its flag is not None and some overload has another
-- flag. Otherwise no overload is left, the network types that the method supports are those
-- that it or an overload supported, every part that the flag covers (all of them for None) is equal
-- to the contract's, and every part that a flag other than None leaves out is unchanged.
pub merge_overloads_lem :
    (s : MethodSpec) (cs : ContractMethod) (f : Flag)
    → FieldsWellFormed cs.input_map
    → WellFormed cs.output
    → ((merge_overloads s cs f ≡ err (not_compatible s.name)) × (fits f s.overloads ≡ false))
      ⊎ ((t : MethodSpec) × (merge_overloads s cs f ≡ ok t)
          × (fits f s.overloads ≡ true)
          × (t.overloads ≡ [])
          × ((nt : String) → is_support t nt ≡ (is_support s nt || is_some (overload s nt)))
          × IsMerged s cs f t)
unfolding merge_overloads is_support overload
merge_overloads_lem s cs f wi wo = elim (Bool-cases (fits f s.overloads)) [
  | inr misfit ↦ inl (rw (supports_err s.name f s.overloads misfit) refl, misfit)
  | inl fit ↦
      let (nts, eq, held) = supports_ok s.name f s.overloads fit in
      inr (
        merged_into s cs f nts,
        rw eq refl,
        fit,
        unfold merged_into in refl,
        λ nt.
            unfold merged_into in
            (contains-append s.network_types nts nt
              ∙ ap (λ b. StringSet.contains s.network_types nt || b) (held nt)),
        parts s cs f nts wi wo,
      )
]
