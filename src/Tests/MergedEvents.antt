-- ===== src/Tests/MergedEvents.antt =====
-- A merged event that is indexed by another input on eth than on icon.
use btp_sdk.Base.{◌≡◌, refl, none, some, [], ◌∷◌}
use btp_sdk.Spec.{no_fields}
use btp_sdk.StringSet
use btp_sdk.StringSet.{IsDistinct, index}
use btp_sdk.Service.Event.{
  EventOverload, EventSpec, event_overload, event_overload_in, supports_event,
}
use btp_sdk.Service.Merged.Events.{
  new_merged_event, EventWellFormed, seen_event, SeesEvent, new_merged_event-SeesEvent,
}

abbrev origin : EventSpec
origin = record {
  network_types = "icon" ∷ [];
  name = "Message";
  inputs = no_fields;
  indexed = "_next" ∷ [];
  overloads =
      record { network_types = "eth" ∷ []; inputs = none; indexed = some ("_seq" ∷ []) } ∷ [];
}

abbrev merged : EventSpec
merged = record origin { network_types = "icon" ∷ "eth" ∷ []; overloads = [] }

origin-EventWellFormed : EventWellFormed origin
unfolding StringSet.contains index
origin-EventWellFormed = record {
  inputs_ok = tt;
  indexed_ok = (refl, tt);
  overloads_ok = ((tt, (refl, tt)), tt);
}

seen_on_eth : seen_event origin "eth" ≡ some (no_fields, "_seq" ∷ [])
unfolding seen_event event_overload event_overload_in supports_event StringSet.contains index
seen_on_eth = refl

new_merged_event-SeesEvent_example :
    (o : EventOverload) × (event_overload (new_merged_event merged origin) "eth" ≡ some o)
    × SeesEvent merged o (no_fields, "_seq" ∷ [])
new_merged_event-SeesEvent_example =
    new_merged_event-SeesEvent merged origin origin-EventWellFormed "eth" (no_fields, "_seq" ∷ [])
      seen_on_eth
