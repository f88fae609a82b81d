-- ===== src/Service/Merged/Events.antt =====
-- service/mergedservice.go: compareEventSpec, newEventOverload, newEventSpec and eventOverload.
-- CopyEventSpec of the merged event is the identity, since that has no overloads.
use btp_sdk.Base.{
  ◌≡◌, refl, inl, inr, String, true, not, ◌||◌, Option, none, some, List, [], ◌∷◌, map, lookup,
  if◌then◌else◌, arith, Bool-cases, All,
}
use btp_sdk.Base.Results.{Result, ok, err}
use mathlib.Core.Option
use btp_sdk.Spec.{Fields, equals_name_and_types}
use btp_sdk.Spec.Reflexive.{FieldsWellFormed, equals_name_and_types_refl}
use btp_sdk.StringSet
use btp_sdk.StringSet.{IsDistinct}
use btp_sdk.Service.Method.{when}
use btp_sdk.Service.Event.{
  EventOverload, EventSpec, EventFlag, supports_event, event_overload_in, event_overload,
  equals_event_indexed,
}
use btp_sdk.Service.Event.Indexed.{equals_event_indexed_iff}
use btp_sdk.Service.Merged.Views.{InputsWellFormed}

-- `compareEventSpec`
unfoldable pub compare_events : EventSpec → EventSpec → EventFlag
compare_events a b = record {
  inputs = not (equals_name_and_types a.inputs b.inputs);
  indexed = not (equals_event_indexed a.indexed b.indexed);
}

-- `newEventOverload`
unfoldable pub event_overload_of : EventFlag → EventSpec → List String → EventOverload
event_overload_of f m nts = record {
  network_types = nts;
  inputs = when f.inputs m.inputs;
  indexed = when f.indexed m.indexed;
}

-- the body of the loop in `newEventSpec`
unfoldable pub rebased_event : EventFlag → EventSpec → EventSpec → EventOverload → EventOverload
rebased_event f merged origin oo = record {
  network_types = oo.network_types;
  inputs = elim oo.inputs [
    | some i ↦ if not f.inputs || not (equals_name_and_types merged.inputs i) then some i else none
    | none ↦ when f.inputs origin.inputs
  ];
  indexed = elim oo.indexed [
    | some x ↦ if not f.indexed || not (equals_event_indexed merged.indexed x) then some x else none
    | none ↦ when f.indexed origin.indexed
  ];
}

-- `newEventSpec`
unfoldable pub new_merged_event : EventSpec → EventSpec → EventSpec
unfolding compare_events event_overload_of rebased_event
new_merged_event merged origin =
    let f = compare_events merged origin in
    record merged {
      overloads =
          event_overload_of f origin origin.network_types
          ∷ map (λ oo. rebased_event f merged origin oo) origin.overloads;
    }

pub data EventError : Type 0 where
  not_found_event not_supported_event : String → EventError

-- `eventOverload`, over the views of the merged events and all events of the specification
unfoldable pub find_event :
    List (String × EventSpec)
    → List (String × EventSpec)
    → String
    → String
    → Result EventError (Option (EventSpec × EventOverload))
find_event events spec_events nt name = elim (lookup name events) [
  | none ↦ elim (lookup name spec_events) [ none ↦ err (not_found_event name) | some e ↦ ok none ]
  | some es ↦ elim (event_overload es nt) [
    | none ↦ err (not_supported_event name)
    | some eo ↦ ok (some (es, eo))
  ]
]

abbrev pub IndexedDistinct : Option (List String) → Type 0
IndexedDistinct none = Unit
IndexedDistinct (some x) = IsDistinct x

-- The inputs of an event are well-formed, and its indexed inputs without repetitions.
pub record EventWellFormed (m : EventSpec) : Type 0 where
  pub inputs_ok : FieldsWellFormed m.inputs
  pub indexed_ok : IsDistinct m.indexed
  pub overloads_ok : All (λ o. InputsWellFormed o.inputs × IndexedDistinct o.indexed) m.overloads

-- The inputs and the indexed inputs of an event as a network type sees them.
abbrev pub seen_with : EventSpec → EventOverload → Fields × List String
seen_with s o = (Option.get_or o.inputs s.inputs, Option.get_or o.indexed s.indexed)

abbrev pub seen_by : EventSpec → Option EventOverload → Option (Fields × List String)
seen_by s none = none
seen_by s (some o) = some (seen_with s o)

unfoldable pub seen_event : EventSpec → String → Option (Fields × List String)
seen_event s nt =
    if supports_event s nt then some (s.inputs, s.indexed) else seen_by s (event_overload s nt)

-- An entry of a view: what it leaves out is that of the merged event.
abbrev pub SeesEvent : EventSpec → EventOverload → Fields × List String → Type 0
SeesEvent merged o g =
    (equals_name_and_types (Option.get_or o.inputs merged.inputs) g.0 ≡ true)
    × (equals_event_indexed (Option.get_or o.indexed merged.indexed) g.1 ≡ true)

indexed_refl : (x : List String) → IsDistinct x → equals_event_indexed x x ≡ true
indexed_refl x d = (equals_event_indexed_iff x x d d).1 (λ w. refl)

rebased_event_inputs :
    (merged origin : EventSpec) (oo : EventOverload) (i : Option Fields)
    → oo.inputs ≡ i
    → FieldsWellFormed origin.inputs
    → InputsWellFormed i
    → equals_name_and_types
        (Option.get_or
          (rebased_event (compare_events merged origin) merged origin oo).inputs
          merged.inputs)
        (Option.get_or i origin.inputs)
      ≡ true
unfolding compare_events rebased_event
rebased_event_inputs merged origin oo none e wo w =
    rw e (ground (arith, equals_name_and_types_refl origin.inputs wo))
rebased_event_inputs merged origin oo (some i) e wo w =
    rw e (ground (arith, equals_name_and_types_refl i w))

rebased_event_indexed :
    (merged origin : EventSpec) (oo : EventOverload) (x : Option (List String))
    → oo.indexed ≡ x
    → IsDistinct origin.indexed
    → IndexedDistinct x
    → equals_event_indexed
        (Option.get_or
          (rebased_event (compare_events merged origin) merged origin oo).indexed
          merged.indexed)
        (Option.get_or x origin.indexed)
      ≡ true
unfolding compare_events rebased_event
rebased_event_indexed merged origin oo none e wo w =
    rw e (ground (arith, indexed_refl origin.indexed wo))
rebased_event_indexed merged origin oo (some x) e wo w = rw e (ground (arith, indexed_refl x w))

module _ (merged origin : EventSpec) (w : EventWellFormed origin) where
  rest-SeesEvent :
      (os : List EventOverload) (nt : String) (g : Fields × List String)
      → All (λ o. InputsWellFormed o.inputs × IndexedDistinct o.indexed) os
      → seen_by origin (event_overload_in os nt) ≡ some g
      → (o : EventOverload) × (event_overload_in
            (map (λ oo. rebased_event (compare_events merged origin) merged origin oo) os)
            nt
          ≡ some o)
        × SeesEvent merged o g
  unfolding event_overload_in rebased_event
  rest-SeesEvent [] nt g a h = cc
  rest-SeesEvent (oo ∷ os) nt g a h = elim (Bool-cases (StringSet.contains oo.network_types nt)) [
    | inl held ↦
        let p : seen_with origin oo ≡ g = ground (arith, held) in
        (
          rebased_event (compare_events merged origin) merged origin oo,
          ground (arith, held),
          rw (← p) (
            rebased_event_inputs merged origin oo oo.inputs refl w.inputs_ok a.0.0,
            rebased_event_indexed merged origin oo oo.indexed refl w.indexed_ok a.0.1,
          ),
        )
    | inr other ↦
        let (o, q, sees) = rest-SeesEvent os nt g a.1 (ground (arith, other)) in
        (o, ground (arith, other, q), sees)
  ]

  first-SeesEvent :
      SeesEvent merged
        (event_overload_of (compare_events merged origin) origin origin.network_types)
        (origin.inputs, origin.indexed)
  unfolding compare_events event_overload_of
  first-SeesEvent = (
    ground (arith, equals_name_and_types_refl origin.inputs w.inputs_ok),
    ground (arith, indexed_refl origin.indexed w.indexed_ok),
  )

  -- A network type that sees an event of the origin has an entry in the view that newEventSpec builds;
  -- its inputs and its indexed inputs, or those of the merged event where it leaves them out, are
  -- equal to what the network type sees in the origin.
  pub new_merged_event-SeesEvent :
      (nt : String) (g : Fields × List String)
      → seen_event origin nt ≡ some g
      → (o : EventOverload) × (event_overload (new_merged_event merged origin) nt ≡ some o)
        × SeesEvent merged o g
  unfolding seen_event event_overload new_merged_event supports_event
  new_merged_event-SeesEvent nt g h =
      elim (Bool-cases (StringSet.contains origin.network_types nt)) [
        | inl supported ↦
            let p : (origin.inputs, origin.indexed) ≡ g = ground (arith, supported) in
            (
              event_overload_of (compare_events merged origin) origin origin.network_types,
              unfold event_overload_in event_overload_of in (ground (arith, supported)),
              rw (← p) first-SeesEvent,
            )
        | inr other ↦
            let (o, q, sees) =
              rest-SeesEvent origin.overloads nt g w.overloads_ok (ground (arith, other)) in
            (o, unfold event_overload_in event_overload_of in (ground (arith, other, q)), sees)
      ]
