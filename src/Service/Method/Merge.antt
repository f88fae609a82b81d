-- ===== src/Service/Method/Merge.antt =====
-- What MethodSpec.merge does to the method that each network type sees.
use btp_sdk.Base.{
  ◌≡◌, refl, ◌∙◌, ◌≢◌, inl, inr, String, Bool, true, false, not, ◌&&◌, ◌||◌, Option, none, some,
  List, [], ◌∷◌, ◌++◌, str_eq, eq_iff, if◌then◌else◌, arith, All, Bool-cases,
}
use mathlib.Core.Option
use btp_sdk.Spec.{TypeSpec, Fields, equals_type_spec, equals_name_and_types}
use btp_sdk.StringSet
use btp_sdk.StringSet.{IsDistinct, contains-append}
use btp_sdk.Service.Method.{
  ContractMethod, MethodOverload, MethodSpec, Flag, is_none, bool_eq, is_support, overload_in,
  overload, compare_method_spec, compare_method_overload, give_up, join_overload, merge,
}

-- The method as a network type sees it.
pub record Signature : Type 0 where
  pub inputs : Fields
  pub output : TypeSpec
  pub payable : Bool
  pub readonly : Bool

abbrev pub base : MethodSpec → Signature
base s = record { inputs = s.inputs; output = s.output; payable = s.payable; readonly = s.readonly }

-- A part that the overload leaves out is that of the method itself.
abbrev pub overlaid : MethodSpec → MethodOverload → Signature
overlaid s o = record {
  inputs = Option.get_or o.inputs s.inputs;
  output = Option.get_or o.output s.output;
  payable = Option.get_or o.payable s.payable;
  readonly = Option.get_or o.readonly s.readonly;
}

abbrev pub overlaid? : MethodSpec → Option MethodOverload → Option Signature
overlaid? s none = none
overlaid? s (some o) = some (overlaid s o)

unfoldable pub effective : MethodSpec → String → Option Signature
effective s nt = if is_support s nt then some (base s) else overlaid? s (overload s nt)

-- The signature is that of the contract's method.
pub record Agrees (g : Signature) (cs : ContractMethod) : Type 0 where
  pub inputs_agree : equals_name_and_types g.inputs cs.input_map ≡ true
  pub output_agrees : equals_type_spec g.output cs.output ≡ true
  pub payable_agrees : bool_eq g.payable cs.payable ≡ true
  pub readonly_agrees : bool_eq g.readonly cs.read_only ≡ true

-- Every list of network types is without repetitions.
abbrev pub AllDistinct : List MethodOverload → Type 0
AllDistinct os = All (λ o. IsDistinct o.network_types) os

pub record IsValid (s : MethodSpec) : Type 0 where
  pub base_distinct : IsDistinct s.network_types
  pub overloads_distinct : AllDistinct s.overloads

-- A test for one network type in a set that another was removed from or merged into.
pub contains-remove :
    (l : List String) (nt w : String)
    → IsDistinct l
    → StringSet.contains (StringSet.remove l nt).0 w ≡ (StringSet.contains l w && not (str_eq nt w))
contains-remove l nt w d = (StringSet.remove-IsDifference l nt d).0 w

pub contains-one : (nt w : String) → StringSet.contains (nt ∷ []) w ≡ str_eq nt w
contains-one nt w = StringSet.contains-eq-has (nt ∷ []) w ∙ ground arith

pub contains-merge_one :
    (l : List String) (nt w : String)
    → IsDistinct l
    → StringSet.contains (StringSet.merge l (nt ∷ [])) w ≡ (StringSet.contains l w || str_eq nt w)
contains-merge_one l nt w d = ground (
  arith,
  (StringSet.merge-IsUnion l (nt ∷ []) d (StringSet.contains-eq-has [] nt, tt)).0 w,
  contains-one nt w,
)

-- What a network type gets from a list of overloads, but for the list of their network types.
unfoldable pub found : MethodSpec → List MethodOverload → String → Option Signature
found s os nt = overlaid? s (overload_in os nt)

module _ (s : MethodSpec) (nt : String) where
  give_up_frame :
      (os : List MethodOverload) (w : String)
      → AllDistinct os
      → str_eq nt w ≡ false
      → found s (give_up nt os) w ≡ found s os w
  unfolding found overload_in give_up
  give_up_frame [] w d other = refl
  give_up_frame (o ∷ os) w d other =
      ground (arith, contains-remove o.network_types nt w d.0, give_up_frame os w d.1 other)

  join_frame :
      (f : Flag) (cs : ContractMethod) (os : List MethodOverload) (w : String)
      → AllDistinct os
      → str_eq nt w ≡ false
      → found s (join_overload f cs (nt ∷ []) os) w ≡ found s os w
  unfolding found overload_in join_overload
  join_frame f cs [] w d other = ground (arith, contains-one nt w)
  join_frame f cs (o ∷ os) w d other = elim (Bool-cases (compare_method_overload o cs)) [
    | inl fits ↦ rw fits (ground (arith, contains-merge_one o.network_types nt w d.0))
    | inr not_fits ↦ rw not_fits (ground (arith, join_frame f cs os w d.1 other))
  ]

-- The method after a merge for one network type.
unfoldable pub given : MethodSpec → String → MethodSpec
given s nt = record s {
  overloads = give_up nt s.overloads;
  network_types = s.network_types ++ nt ∷ [];
}

unfoldable pub taken : MethodSpec → String → MethodSpec
taken s nt =
    if is_support s nt
    then record s { network_types = (StringSet.remove s.network_types nt).0 }
    else s

pub merge_same :
    (s : MethodSpec) (cs : ContractMethod) (nt : String)
    → is_none (compare_method_spec s cs) ≡ true
    → (merge s cs (nt ∷ [])).0 ≡ (if is_support s nt then s else given s nt)
unfolding merge given
merge_same s cs nt same = rw same refl

pub merge_differs :
    (s : MethodSpec) (cs : ContractMethod) (nt : String)
    → is_none (compare_method_spec s cs) ≡ false
    → (merge s cs (nt ∷ [])).0 ≡ record (taken s nt) {
      overloads = join_overload (compare_method_spec s cs) cs (nt ∷ []) (taken s nt).overloads;
    }
unfolding merge taken
merge_differs s cs nt differs = rw differs refl

given_frame :
    (s : MethodSpec) (nt w : String)
    → IsValid s
    → str_eq nt w ≡ false
    → effective (given s nt) w ≡ effective s w
unfolding effective overload is_support found given
given_frame s nt w v other = ground (
  arith,
  contains-append s.network_types (nt ∷ []) w,
  contains-one nt w,
  give_up_frame s nt s.overloads w v.overloads_distinct other,
)

joined_frame :
    (s : MethodSpec) (f : Flag) (cs : ContractMethod) (nt w : String)
    → IsValid s
    → str_eq nt w ≡ false
    → effective
        (record (taken s nt) { overloads = join_overload f cs (nt ∷ []) (taken s nt).overloads })
        w
      ≡ effective s w
unfolding effective overload is_support found taken
joined_frame s f cs nt w v other = elim (Bool-cases (StringSet.contains s.network_types nt)) [
  | inl supported ↦ rw supported (
      ground (
        arith,
        contains-remove s.network_types nt w v.base_distinct,
        join_frame s nt f cs s.overloads w v.overloads_distinct other,
      ))
  | inr unsupported ↦
      rw unsupported (ground (arith, join_frame s nt f cs s.overloads w v.overloads_distinct other))
]

-- Frame: a merge for one network type changes what no other network type sees, whether it is
-- supported by the method itself, by an overload or not at all.
pub merge_frame :
    (s : MethodSpec) (cs : ContractMethod) (nt w : String)
    → IsValid s
    → nt ≢ w
    → effective (merge s cs (nt ∷ [])).0 w ≡ effective s w
merge_frame s cs nt w v ne =
    let other : str_eq nt w ≡ false = ground (arith, eq_iff nt w) in
    elim (Bool-cases (is_none (compare_method_spec s cs))) [
      | inl same ↦ rw (merge_same s cs nt same) (elim (Bool-cases (is_support s nt)) [
        | inl supported ↦ rw supported refl
        | inr unsupported ↦ rw unsupported (given_frame s nt w v other)
      ])
      | inr differs ↦
          rw (merge_differs s cs nt differs)
            (joined_frame s (compare_method_spec s cs) cs nt w v other)
    ]
