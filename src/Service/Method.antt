-- ===== src/Service/Method.antt =====
-- service/spec.go: MethodSpec, MethodOverload, MethodOverloadFlag, and how the specification of a
-- contract method is merged. The copies of maps that the source makes (NewNameAndTypeSpecMap)
-- are the maps themselves here, since values are not shared. A flag set is its four bits.
pub mod Target
pub mod Valid
pub mod Overloads
pub mod Merge
use btp_sdk.Base.{
  ℕ, String, Bool, true, false, not, ◌&&◌, ◌||◌, Option, none, some, List, [], ◌∷◌, ◌++◌, str_eq,
  if◌then◌else◌,
}
use btp_sdk.Base.Results.{Result, ok, err}
use btp_sdk.Spec.{TypeSpec, Fields, equals_type_spec, equals_name_and_types}
use btp_sdk.StringSet

-- contract.MethodSpec, as far as the service reads it
pub record ContractMethod : Type 0 where
  pub name : String
  pub input_map : Fields
  pub output : TypeSpec
  pub payable : Bool
  pub read_only : Bool

pub record MethodOverload : Type 0 where
  pub network_types : List String
  pub inputs : Option Fields
  pub output : Option TypeSpec
  pub payable : Option Bool
  pub readonly : Option Bool

pub record MethodSpec : Type 0 where
  pub network_types : List String
  pub name : String
  pub inputs : Fields
  pub output : TypeSpec
  pub payable : Bool
  pub readonly : Bool
  pub overloads : List MethodOverload

pub record Flag : Type 0 where
  pub inputs : Bool
  pub output : Bool
  pub payable : Bool
  pub readonly : Bool

abbrev pub is_none : Flag → Bool
is_none f = not (f.inputs || (f.output || (f.payable || f.readonly)))

abbrev pub bool_eq : Bool → Bool → Bool
bool_eq true b = b
bool_eq false b = not b

abbrev pub flag_eq : Flag → Flag → Bool
flag_eq f g =
    bool_eq f.inputs g.inputs
    && (bool_eq f.output g.output && (bool_eq f.payable g.payable && bool_eq f.readonly g.readonly))

abbrev pub is_some {ℓ} : {A : Type ℓ} → Option A → Bool
is_some none = false
is_some (some a) = true

unfoldable pub is_support : MethodSpec → String → Bool
is_support s nt = StringSet.contains s.network_types nt

unfoldable pub overload_in : List MethodOverload → String → Option MethodOverload
overload_in [] nt = none
overload_in (o ∷ os) nt =
    if StringSet.contains o.network_types nt then some o else overload_in os nt

unfoldable pub overload : MethodSpec → String → Option MethodOverload
unfolding overload_in
overload s nt = overload_in s.overloads nt

-- `CompareMethodSpec`
unfoldable pub compare_method_spec : MethodSpec → ContractMethod → Flag
compare_method_spec s cs = record {
  inputs = not (equals_name_and_types s.inputs cs.input_map);
  output = not (equals_type_spec s.output cs.output);
  payable = not (bool_eq s.payable cs.payable);
  readonly = not (bool_eq s.readonly cs.read_only);
}

-- `CompareMethodOverload`: a part that the overload leaves out is not compared
unfoldable pub compare_method_overload : MethodOverload → ContractMethod → Bool
compare_method_overload o cs =
    (elim o.inputs [ none ↦ true | some i ↦ equals_name_and_types i cs.input_map ])
    && ((elim o.output [ none ↦ true | some t ↦ equals_type_spec t cs.output ])
        && ((elim o.payable [ none ↦ true | some p ↦ bool_eq p cs.payable ])
            && (elim o.readonly [ none ↦ true | some r ↦ bool_eq r cs.read_only ])))

-- `FlagFromMethodOverload`
unfoldable pub flag_from_overload : MethodOverload → Flag
flag_from_overload o = record {
  inputs = is_some o.inputs;
  output = is_some o.output;
  payable = is_some o.payable;
  readonly = is_some o.readonly;
}

abbrev pub when {ℓ} : {A : Type ℓ} → Bool → A → Option A
when true a = some a
when false a = none

-- `NewMethodOverload`
unfoldable pub new_method_overload : Flag → ContractMethod → List String → MethodOverload
new_method_overload f cs nts = record {
  network_types = nts;
  inputs = when f.inputs cs.input_map;
  output = when f.output cs.output;
  payable = when f.payable cs.payable;
  readonly = when f.readonly cs.read_only;
}

-- `NewMethodSpec`
unfoldable pub new_method_spec : ContractMethod → List String → MethodSpec
new_method_spec cs nts = record {
  network_types = nts;
  name = cs.name;
  inputs = cs.input_map;
  output = cs.output;
  payable = cs.payable;
  readonly = cs.read_only;
  overloads = [];
}

-- The overload that `Overload(networkType)` finds gives the network type up.
unfoldable pub give_up : String → List MethodOverload → List MethodOverload
give_up nt [] = []
give_up nt (o ∷ os) =
    if StringSet.contains o.network_types nt
    then record o { network_types = (StringSet.remove o.network_types nt).0 } ∷ os
    else o ∷ give_up nt os

-- the loop of `merge` over the network types, for an equal method
unfoldable pub support_all : List String → MethodSpec → MethodSpec
unfolding is_support give_up
support_all [] s = s
support_all (nt ∷ nts) s = support_all nts (
    if is_support s nt then s else record s {
      overloads = give_up nt s.overloads;
      network_types = s.network_types ++ nt ∷ [];
    })

-- the first loop of `merge` for a method that differs
unfoldable pub unsupport_all : List String → MethodSpec → MethodSpec
unfolding is_support
unsupport_all [] s = s
unsupport_all (nt ∷ nts) s = unsupport_all nts (
    if is_support s nt
    then record s { network_types = (StringSet.remove s.network_types nt).0 }
    else s)

-- The first overload that compares equal takes the network types; a new one does if there is none.
unfoldable pub join_overload :
    Flag → ContractMethod → List String → List MethodOverload → List MethodOverload
unfolding new_method_overload
join_overload f cs nts [] = new_method_overload f cs nts ∷ []
join_overload f cs nts (o ∷ os) =
    if compare_method_overload o cs
    then record o { network_types = StringSet.merge o.network_types nts } ∷ os
    else o ∷ join_overload f cs nts os

-- `merge`
unfoldable pub merge : MethodSpec → ContractMethod → List String → MethodSpec × Flag
unfolding support_all unsupport_all join_overload
merge s cs nts =
    let f = compare_method_spec s cs in
    if is_none f
    then (support_all nts s, f)
    else let t = unsupport_all nts s in
      (record t { overloads = join_overload f cs nts t.overloads }, f)
