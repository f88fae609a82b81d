-- ===== src/Tests/Events.antt =====
-- An event that icon lists and that eth holds by an overload.
use btp_sdk.Base.{◌≡◌, refl, inl, ◌↔◌, true, false, none, some, [], ◌∷◌}
use btp_sdk.Spec.{
  type_spec, t_string, Fields, no_fields, field, name_and_type, lookup_field, equals_name_and_types,
  all_in, field_equal, equals_type_spec, ids_equal,
}
use btp_sdk.StringSet
use btp_sdk.StringSet.{IsDistinct, index}
use btp_sdk.Service.Event.{
  ContractEvent, EventSpec, EventFlag, supports_event, event_overload, compare_event_spec,
  new_event_spec_indexed, first_names, equals_event_indexed, all_among, merge_event,
  copy_event_spec,
}
use btp_sdk.Service.Event.Copy.{any_indexed, copy_event_spec_cases}
use btp_sdk.Service.Event.Lost.{HeldOnce, merge_event_loses}

abbrev text_inputs : Fields
text_inputs = field "_from" (name_and_type "_from" (type_spec "string" 0 t_string) false) no_fields

abbrev received : EventSpec
received = record {
  network_types = "icon" ∷ [];
  name = "Received";
  inputs = text_inputs;
  indexed = "_from" ∷ [];
  overloads = record { network_types = "eth" ∷ []; inputs = none; indexed = some [] } ∷ [];
}

abbrev contract_received : ContractEvent
contract_received = record {
  name = "Received";
  indexed = 1;
  inputs = "_from" ∷ [];
  input_map = text_inputs;
}

copy_event_spec_cases_example :
    ((copy_event_spec received ≡ none) ↔ (any_indexed received.overloads ≡ true))
    × (any_indexed received.overloads ≡ false → copy_event_spec received ≡ some received)
copy_event_spec_cases_example = copy_event_spec_cases received

from_to-IsDistinct : IsDistinct ("_from" ∷ "_to" ∷ [])
unfolding StringSet.contains index
from_to-IsDistinct = (refl, (refl, tt))

to_from-IsDistinct : IsDistinct ("_to" ∷ "_from" ∷ [])
unfolding StringSet.contains index
to_from-IsDistinct = (refl, (refl, tt))

abbrev no_difference : EventFlag
no_difference = record { inputs = false; indexed = false }

equal_to_base : compare_event_spec received contract_received ≡ some no_difference
unfolding compare_event_spec new_event_spec_indexed first_names equals_event_indexed all_among
    equals_name_and_types all_in lookup_field field_equal equals_type_spec ids_equal
    StringSet.contains index
equal_to_base = refl

eth_unlisted : supports_event received "eth" ≡ false
unfolding supports_event StringSet.contains index
eth_unlisted = refl

eth-HeldOnce : HeldOnce "eth" received.overloads
unfolding StringSet.contains index
eth-HeldOnce = inl (refl, (refl, tt), tt)

merge_event_loses_example :
    (t : EventSpec) × (merge_event received contract_received ("eth" ∷ [])
      ≡ some (t, no_difference))
    × (supports_event t "eth" ≡ false)
    × (event_overload t "eth" ≡ none)
merge_event_loses_example =
    merge_event_loses received contract_received "eth" no_difference equal_to_base refl eth_unlisted
      eth-HeldOnce
