-- ===== src/Service/Struct.antt =====
-- service/spec.go: StructSpec, StructConflict, and how the structs of the contracts are merged.
pub mod Merge
use btp_sdk.Base.{
  String, Bool, true, false, not, Option, none, some, List, [], ◌∷◌, ◌++◌, if◌then◌else◌,
}
use btp_sdk.Spec.{Fields, equals_name_and_types}
use btp_sdk.StringSet

-- contract.StructSpec, as far as the service reads it
pub record ContractStruct : Type 0 where
  pub name : String
  pub field_map : Fields

pub record StructConflict : Type 0 where
  pub network_types : List String
  pub fields : Fields

pub record StructSpec : Type 0 where
  pub network_types : List String
  pub name : String
  pub fields : Fields
  pub conflicts : List StructConflict

unfoldable pub supports_struct : StructSpec → String → Bool
supports_struct s nt = StringSet.contains s.network_types nt

unfoldable pub conflict_in : List StructConflict → String → Option StructConflict
conflict_in [] nt = none
conflict_in (c ∷ cs) nt =
    if StringSet.contains c.network_types nt then some c else conflict_in cs nt

unfoldable pub conflict : StructSpec → String → Option StructConflict
unfolding conflict_in
conflict s nt = conflict_in s.conflicts nt

-- `NewStructSpec`
unfoldable pub new_struct_spec : ContractStruct → List String → StructSpec
new_struct_spec cs nts = record {
  network_types = nts;
  name = cs.name;
  fields = cs.field_map;
  conflicts = [];
}

-- `NewStructConflict`
unfoldable pub new_struct_conflict : ContractStruct → List String → StructConflict
new_struct_conflict cs nts = record { network_types = nts; fields = cs.field_map }

-- The conflict that `Conflict(networkType)` finds gives the network type up.
unfoldable pub give_up_conflict : String → List StructConflict → List StructConflict
give_up_conflict nt [] = []
give_up_conflict nt (c ∷ cs) =
    if StringSet.contains c.network_types nt
    then record c { network_types = (StringSet.remove c.network_types nt).0 } ∷ cs
    else c ∷ give_up_conflict nt cs

-- the loop of `merge` over the network types, for equal fields
unfoldable pub support_struct : List String → StructSpec → StructSpec
unfolding supports_struct give_up_conflict
support_struct [] s = s
support_struct (nt ∷ nts) s = support_struct nts (
    if supports_struct s nt then s else record s {
      conflicts = give_up_conflict nt s.conflicts;
      network_types = s.network_types ++ nt ∷ [];
    })

unfoldable pub unsupport_struct : List String → StructSpec → StructSpec
unfolding supports_struct
unsupport_struct [] s = s
unsupport_struct (nt ∷ nts) s = unsupport_struct nts (
    if supports_struct s nt
    then record s { network_types = (StringSet.remove s.network_types nt).0 }
    else s)

-- The first conflict with equal fields takes the network types; a new one does if there is none.
unfoldable pub join_conflict :
    ContractStruct → List String → List StructConflict → List StructConflict
unfolding new_struct_conflict
join_conflict cs nts [] = new_struct_conflict cs nts ∷ []
join_conflict cs nts (c ∷ rest) =
    if equals_name_and_types c.fields cs.field_map
    then record c { network_types = StringSet.merge c.network_types nts } ∷ rest
    else c ∷ join_conflict cs nts rest

-- `merge`
unfoldable pub merge_struct : StructSpec → ContractStruct → List String → StructSpec × Bool
unfolding support_struct unsupport_struct join_conflict
merge_struct s cs nts =
    let equals = equals_name_and_types s.fields cs.field_map in
    if equals
    then (support_struct nts s, equals)
    else let t = unsupport_struct nts s in
      (record t { conflicts = join_conflict cs nts t.conflicts }, equals)
