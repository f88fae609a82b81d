-- ===== src/Service/Whole/Total.antt =====
-- Spec.Merge in service/spec.go: the parts of its loop over the events that may panic.
use btp_sdk.Base.{
  ℕ, ◌≤◌, length, ◌≡◌, refl, String, Bool, true, none, some, List, [], ◌∷◌, All, lookup, arith, inl,
  inr, Bool-cases, Option-cases, ◌∙◌, zero, suc, not,
}
use btp_sdk.Service.Event.{
  ContractEvent, EventSpec, EventOverload, EventFlag, first_names, new_event_spec_indexed,
  new_event_overload, compare_event_overload, compare_event_spec, join_event, merge_event,
  new_event_spec, equals_event_indexed, no_flag, unsupport_event,
}
use btp_sdk.Spec.{equals_name_and_types}
use btp_sdk.Service.Whole.{ServiceSpec, merge_one_event, merge_events}

-- The event has a name for every indexed input.
abbrev pub NamesGiven : String × ContractEvent → Type 0
NamesGiven e = e.1.indexed ≤ length e.1.inputs

first_names_total :
    (n : ℕ) (names : List String)
    → n ≤ length names
    → (given : List String) × (first_names n names ≡ some given)
unfolding first_names
first_names_total zero names le = ([], refl)
first_names_total (suc n) [] le = absurd (ground (arith, le))
first_names_total (suc n) (name ∷ names) le =
    let (given, eq) = first_names_total n names (ground (arith, le)) in (name ∷ given, rw eq refl)

new_event_overload_total :
    (f : EventFlag) (ce : ContractEvent) (nts : List String)
    → ce.indexed ≤ length ce.inputs
    → (o : EventOverload) × (new_event_overload f ce nts ≡ some o)
unfolding new_event_overload new_event_spec_indexed
new_event_overload_total f ce nts le =
    let (given, eq) = first_names_total ce.indexed ce.inputs le in
    elim (Bool-cases f.indexed) [ inl t ↦ rw (t, eq) (_, refl) | inr t ↦ rw t (_, refl) ]

compare_event_overload_total :
    (o : EventOverload) (ce : ContractEvent)
    → ce.indexed ≤ length ce.inputs
    → (b : Bool) × (compare_event_overload o ce ≡ some b)
unfolding compare_event_overload new_event_spec_indexed
compare_event_overload_total o ce le =
    let (names, eq) = first_names_total ce.indexed ce.inputs le in
    elim (Bool-cases
      (elim o.inputs [ none ↦ true | some i ↦ equals_name_and_types i ce.input_map ])) [
        | inl t ↦ elim (Option-cases o.indexed) [
          | inl n ↦ rw (t, n) (_, refl)
          | inr (i, n) ↦ rw (t, n, eq) (_, refl)
        ]
        | inr t ↦ rw t (_, refl)
      ]

join_event_total :
    (f : EventFlag) (ce : ContractEvent) (nts : List String) (os : List EventOverload)
    → ce.indexed ≤ length ce.inputs
    → (ps : List EventOverload) × (join_event f ce nts os ≡ some ps)
unfolding join_event
join_event_total f ce nts [] le =
    let (o, eq) = new_event_overload_total f ce nts le in (o ∷ [], rw eq refl)
join_event_total f ce nts (o ∷ os) le =
    let (b, eq) = compare_event_overload_total o ce le in
    let (ps, rest) = join_event_total f ce nts os le in
    elim (Bool-cases b) [ inl t ↦ rw (eq, t) (_, refl) | inr t ↦ rw (eq, t, rest) (_, refl) ]

merge_event_total :
    (s : EventSpec) (ce : ContractEvent) (nts : List String)
    → ce.indexed ≤ length ce.inputs
    → (r : EventSpec × EventFlag) × (merge_event s ce nts ≡ some r)
unfolding merge_event compare_event_spec new_event_spec_indexed
merge_event_total s ce nts le =
    let (names, eq) = first_names_total ce.indexed ce.inputs le in
    let f : EventFlag = record {
      inputs = not (equals_name_and_types s.inputs ce.input_map);
      indexed = not (equals_event_indexed s.indexed names);
    } in
    let (os, joined) = join_event_total f ce nts (unsupport_event nts s).overloads le in
    elim (Bool-cases (no_flag f)) [
      | inl t ↦ rw (eq, t) (_, refl)
      | inr t ↦ rw (eq, t, joined) (_, refl)
    ]

-- A round of the second loop returns, with the methods as they were.
merge_one_event_total :
    (n : String) (ce : ContractEvent) (nts : List String) (s : ServiceSpec)
    → ce.indexed ≤ length ce.inputs
    → (t : ServiceSpec) × (merge_one_event n ce nts s ≡ some t) × (t.methods ≡ s.methods)
unfolding merge_one_event new_event_spec new_event_spec_indexed
merge_one_event_total n ce nts s le = elim (Option-cases (lookup n s.events)) [
  | inl missing ↦
      let (names, eq) = first_names_total ce.indexed ce.inputs le in
      rw (missing, merge_one_event, eq) (_, refl, refl)
  | inr (se, found) ↦
      let (r, eq) = merge_event_total se ce nts le in
      rw (found, merge_one_event, eq) (_, refl, refl)
]

-- The loop over the events returns, and changes no method, if every event has a name for every
-- indexed input.
pub merge_events_total :
    (es : List (String × ContractEvent)) (nts : List String) (s : ServiceSpec)
    → All NamesGiven es
    → (t : ServiceSpec) × (merge_events es nts s ≡ some t) × (t.methods ≡ s.methods)
unfolding merge_events
merge_events_total [] nts s a = (s, refl, refl)
merge_events_total ((n, ce) ∷ es) nts s a =
    let (t, eq, same) = merge_one_event_total n ce nts s a.0 in
    let (u, rest, kept) = merge_events_total es nts t a.1 in (u, rw eq rest, kept ∙ same)
