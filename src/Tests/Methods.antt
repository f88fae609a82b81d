-- ===== src/Tests/Methods.antt =====
-- A method that two network types see in different ways.
use btp_sdk.Base.{◌≡◌, refl, ◌⊎◌, String, true, false, ◌||◌, none, some, [], ◌∷◌, arith, eq_iff}
use btp_sdk.Base.Results.{ok, err}
use btp_sdk.Spec.{
  TypeSpec, type_spec, t_integer, t_string, Fields, no_fields, field, name_and_type, lookup_field,
  equals_type_spec, equals_name_and_types, all_in, field_equal, ids_equal,
}
use btp_sdk.Spec.Reflexive.{FieldsWellFormed}
use btp_sdk.StringSet
use btp_sdk.StringSet.{IsDistinct, index}
use btp_sdk.Service.Method.{
  ContractMethod, MethodOverload, MethodSpec, Flag, is_some, is_support, overload,
  compare_method_overload, compare_method_spec, merge,
}
use btp_sdk.Service.Method.Merge.{Signature, Agrees, IsValid, effective, merge_frame}
use btp_sdk.Service.Method.Target.{Ready, merge_target}
use btp_sdk.Service.Event.{ContractEvent}
use btp_sdk.Service.Whole.{ContractSpec, ServiceSpec, merge_spec}
use btp_sdk.Service.Whole.Target.{Outcome, merge_spec-Outcome}
use btp_sdk.Base.{String, lookup}
use btp_sdk.Service.Method.Valid.{merge-IsValid, merge_absorbs}
use btp_sdk.Service.Method.Overloads.{
  not_compatible, merge_overloads, fits, IsMerged, merge_overloads_lem,
}

abbrev integer_type : TypeSpec
integer_type = type_spec "integer" 0 t_integer

abbrev string_type : TypeSpec
string_type = type_spec "string" 0 t_string

abbrev to_inputs : Fields
to_inputs = field "_to" (name_and_type "_to" string_type false) no_fields

-- eth has a payable method
abbrev payable_overload : MethodOverload
payable_overload = record {
  network_types = "eth" ∷ [];
  inputs = none;
  output = none;
  payable = some true;
  readonly = none;
}

abbrev get_fee : MethodSpec
get_fee = record {
  network_types = "icon" ∷ [];
  name = "getFee";
  inputs = to_inputs;
  output = integer_type;
  payable = false;
  readonly = true;
  overloads = payable_overload ∷ [];
}

abbrev contract_fee : TypeSpec → ContractMethod
contract_fee output = record {
  name = "getFee";
  input_map = to_inputs;
  output = output;
  payable = true;
  read_only = true;
}

to_inputs-FieldsWellFormed : FieldsWellFormed to_inputs
unfolding lookup_field
to_inputs-FieldsWellFormed = (refl, tt, tt)

get_fee-IsValid : IsValid get_fee
unfolding StringSet.contains index
get_fee-IsValid = record { base_distinct = (refl, tt); overloads_distinct = ((refl, tt), tt) }

merge_frame_example :
    effective (merge get_fee (contract_fee integer_type) ("bsc" ∷ [])).0 "eth"
    ≡ effective get_fee "eth"
merge_frame_example =
    merge_frame get_fee (contract_fee integer_type) "bsc" "eth" get_fee-IsValid
      (λ p. ground (arith, eq_iff "bsc" "eth", p))

get_fee-Ready : Ready get_fee (contract_fee integer_type) "bsc"
unfolding StringSet.contains index compare_method_spec equals_name_and_types all_in lookup_field
    field_equal equals_type_spec ids_equal
get_fee-Ready = ((λ h. (λ k. cc, λ k. cc, λ k. refl, λ k. cc), refl), tt)

merge_target_example :
    (g : Signature) × (effective (merge get_fee (contract_fee integer_type) ("bsc" ∷ [])).0 "bsc"
      ≡ some g)
    × Agrees g (contract_fee integer_type)
merge_target_example =
    merge_target get_fee (contract_fee integer_type) "bsc" get_fee-IsValid
      to_inputs-FieldsWellFormed tt get_fee-Ready

bsc_havah-IsDistinct : IsDistinct ("bsc" ∷ "havah" ∷ [])
unfolding StringSet.contains index
bsc_havah-IsDistinct = (refl, (refl, tt))

merge-IsValid_example : IsValid (merge get_fee (contract_fee string_type) ("bsc" ∷ "havah" ∷ [])).0
merge-IsValid_example =
    merge-IsValid get_fee (contract_fee string_type) ("bsc" ∷ "havah" ∷ []) get_fee-IsValid
      bsc_havah-IsDistinct

-- the method of bsc is payable and yields a string, and is taken for that of eth
fits_eth : compare_method_overload payable_overload (contract_fee string_type) ≡ true
unfolding compare_method_overload
fits_eth = refl

other_output : equals_type_spec integer_type string_type ≡ false
unfolding equals_type_spec ids_equal
other_output = refl

merge_absorbs_example :
    (g : Signature) × (effective (merge get_fee (contract_fee string_type) ("bsc" ∷ [])).0 "bsc"
      ≡ some g)
    × (g.output ≡ integer_type)
    × (equals_type_spec g.output string_type ≡ false)
merge_absorbs_example =
    merge_absorbs get_fee (contract_fee string_type) "bsc" payable_overload [] get_fee-IsValid refl
      fits_eth refl other_output

abbrev payable_flag : Flag
payable_flag = record { inputs = false; output = false; payable = true; readonly = false }

merge_overloads_lem_example :
    ((merge_overloads get_fee (contract_fee integer_type) payable_flag
        ≡ err (not_compatible "getFee"))
      × (fits payable_flag get_fee.overloads ≡ false))
    ⊎ ((t : MethodSpec) × (merge_overloads get_fee (contract_fee integer_type) payable_flag ≡ ok t)
        × (fits payable_flag get_fee.overloads ≡ true)
        × (t.overloads ≡ [])
        × ((nt : String)
            → is_support t nt ≡ (is_support get_fee nt || is_some (overload get_fee nt)))
        × IsMerged get_fee (contract_fee integer_type) payable_flag t)
merge_overloads_lem_example =
    merge_overloads_lem get_fee (contract_fee integer_type) payable_flag to_inputs-FieldsWellFormed
      tt

-- a service that knows getFee on icon, and a contract of bsc with a method and an event
abbrev fee_service : ServiceSpec
fee_service = record {
  spec_version = "1.0";
  name = "fees";
  network_types = "icon" ∷ "eth" ∷ [];
  methods = ("getFee", get_fee) ∷ [];
  events = [];
  structs = [];
}

abbrev fee_changed : ContractEvent
fee_changed = record {
  name = "FeeChanged";
  indexed = 1;
  inputs = "_to" ∷ [];
  input_map = to_inputs;
}

abbrev fee_contract : ContractSpec
fee_contract = record {
  methods = ("getFee", contract_fee integer_type) ∷ [];
  events = ("FeeChanged", fee_changed) ∷ [];
}

merge_spec-Outcome_example :
    (t : ServiceSpec) × (merge_spec fee_service fee_contract ("bsc" ∷ []) ≡ some t)
    × Outcome "bsc" (some (contract_fee integer_type)) (some get_fee) (lookup "getFee" t.methods)
merge_spec-Outcome_example =
    merge_spec-Outcome fee_service fee_contract "bsc" "getFee" (refl, tt) (omega arith, tt)
      (get_fee-IsValid, get_fee-Ready, to_inputs-FieldsWellFormed, tt)
