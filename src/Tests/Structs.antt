-- ===== src/Tests/Structs.antt =====
-- A struct that bsc sees with other fields than icon.
use btp_sdk.Base.{◌≡◌, refl, String, true, false, some, arith, [], ◌∷◌, str_eq}
use btp_sdk.Spec.{
  type_spec, t_integer, t_string, Fields, no_fields, field, name_and_type, lookup_field,
  equals_name_and_types,
}
use btp_sdk.Spec.Reflexive.{FieldsWellFormed}
use btp_sdk.StringSet
use btp_sdk.StringSet.{IsDistinct, index}
use btp_sdk.Service.Struct.{ContractStruct, StructSpec, merge_struct}
use btp_sdk.Service.Struct.Merge.{seen, ConflictsDistinct, merge_struct_lem}

abbrev link_status : StructSpec
link_status = record {
  network_types = "icon" ∷ "bsc" ∷ [];
  name = "LinkStatus";
  fields = field "rxSeq" (name_and_type "rxSeq" (type_spec "integer" 0 t_integer) false) no_fields;
  conflicts = record { network_types = "eth" ∷ []; fields = no_fields } ∷ [];
}

abbrev contract_status : ContractStruct
contract_status = record {
  name = "LinkStatus";
  field_map = field "rxSeq" (name_and_type "rxSeq" (type_spec "string" 0 t_string) false) no_fields;
}

icon_bsc-IsDistinct : IsDistinct link_status.network_types
unfolding StringSet.contains index
icon_bsc-IsDistinct = (refl, (refl, tt))

link_status-ConflictsDistinct : ConflictsDistinct link_status.conflicts
unfolding StringSet.contains index
link_status-ConflictsDistinct = ((refl, tt), tt)

contract_status-FieldsWellFormed : FieldsWellFormed contract_status.field_map
unfolding lookup_field
contract_status-FieldsWellFormed = (refl, tt, tt)

bsc_not_eth : StringSet.contains ("eth" ∷ []) "bsc" ≡ false
unfolding StringSet.contains index
bsc_not_eth = refl

merge_struct_lem_example :
    ((g : Fields) × (seen (merge_struct link_status contract_status ("bsc" ∷ [])).0 "bsc" ≡ some g)
      × (equals_name_and_types g contract_status.field_map ≡ true))
    × ((w : String)
        → str_eq "bsc" w ≡ false
        → seen (merge_struct link_status contract_status ("bsc" ∷ [])).0 w ≡ seen link_status w)
    × ((merge_struct link_status contract_status ("bsc" ∷ [])).1
        ≡ equals_name_and_types link_status.fields contract_status.field_map)
merge_struct_lem_example =
    merge_struct_lem link_status contract_status "bsc" icon_bsc-IsDistinct
      link_status-ConflictsDistinct contract_status-FieldsWellFormed
      (λ differs. (λ held. absurd (ground (arith, held, bsc_not_eth)), tt))
