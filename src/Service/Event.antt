-- ===== src/Service/Event.antt =====
-- service/spec.go: EventSpec, EventOverload, EventOverloadFlag, and how the specification of a
-- contract event is merged and copied. `none` is a panic: an index out of range in
-- NewEventSpecIndexed, or the nil pointer that CopyEventOverload follows.
pub mod Indexed
pub mod Copy
pub mod Lost
use btp_sdk.Base.{
  ℕ, zero, suc, String, Bool, true, false, not, ◌&&◌, ◌||◌, Option, none, some, List, [], ◌∷◌, ◌++◌,
  str_eq, ◌==◌, if◌then◌else◌, length,
}
use btp_sdk.Base.Faults.{◌>>=◌}
use btp_sdk.Base.Results
use btp_sdk.Base.Results.{Result, ok, err}
use btp_sdk.Spec.{Fields, equals_name_and_types}
use btp_sdk.Service.Method.{is_some, when, bool_eq}
use btp_sdk.StringSet

-- contract.EventSpec, as far as the service reads it: `inputs` are the names of its Inputs.
pub record ContractEvent : Type 0 where
  pub name : String
  pub indexed : ℕ
  pub inputs : List String
  pub input_map : Fields

pub record EventOverload : Type 0 where
  pub network_types : List String
  pub inputs : Option Fields
  pub indexed : Option (List String)

pub record EventSpec : Type 0 where
  pub network_types : List String
  pub name : String
  pub inputs : Fields
  pub indexed : List String
  pub overloads : List EventOverload

pub record EventFlag : Type 0 where
  pub inputs : Bool
  pub indexed : Bool

abbrev pub no_flag : EventFlag → Bool
no_flag f = not (f.inputs || f.indexed)

abbrev pub same_flag : EventFlag → EventFlag → Bool
same_flag f g = bool_eq f.inputs g.inputs && bool_eq f.indexed g.indexed

unfoldable pub supports_event : EventSpec → String → Bool
supports_event s nt = StringSet.contains s.network_types nt

unfoldable pub event_overload_in : List EventOverload → String → Option EventOverload
event_overload_in [] nt = none
event_overload_in (o ∷ os) nt =
    if StringSet.contains o.network_types nt then some o else event_overload_in os nt

unfoldable pub event_overload : EventSpec → String → Option EventOverload
unfolding event_overload_in
event_overload s nt = event_overload_in s.overloads nt

-- the loop of `NewEventSpecIndexed`
unfoldable pub first_names : ℕ → List String → Option (List String)
first_names zero names = some []
first_names (suc n) [] = none
first_names (suc n) (name ∷ names) = do rest ← first_names n names; some (name ∷ rest)

unfoldable pub new_event_spec_indexed : ContractEvent → Option (List String)
unfolding first_names
new_event_spec_indexed cs = first_names cs.indexed cs.inputs

-- the loops of `EqualsEventIndexed`
unfoldable pub all_among : List String → List String → Bool
all_among [] b = true
all_among (v ∷ a) b = if StringSet.contains b v then all_among a b else false

unfoldable pub equals_event_indexed : List String → List String → Bool
unfolding all_among
equals_event_indexed a b = if length a == length b then all_among a b else false

-- `CompareEventSpec`
unfoldable pub compare_event_spec : EventSpec → ContractEvent → Option EventFlag
unfolding new_event_spec_indexed equals_event_indexed
compare_event_spec s cs = do
  names ← new_event_spec_indexed cs
  some (record {
    inputs = not (equals_name_and_types s.inputs cs.input_map);
    indexed = not (equals_event_indexed s.indexed names);
  })

-- `CompareEventOverload`
unfoldable pub compare_event_overload : EventOverload → ContractEvent → Option Bool
unfolding new_event_spec_indexed equals_event_indexed
compare_event_overload o cs =
    if (elim o.inputs [ none ↦ true | some i ↦ equals_name_and_types i cs.input_map ])
    then (elim o.indexed [
      | none ↦ some true
      | some names ↦ new_event_spec_indexed cs >>= λ given. some (equals_event_indexed names given)
    ])
    else some false

-- `FlagFromEventOverload`
unfoldable pub flag_from_event_overload : EventOverload → EventFlag
flag_from_event_overload o = record { inputs = is_some o.inputs; indexed = is_some o.indexed }

-- `NewEventOverload`
unfoldable pub new_event_overload : EventFlag → ContractEvent → List String → Option EventOverload
unfolding new_event_spec_indexed
new_event_overload f cs nts =
    (if f.indexed then (new_event_spec_indexed cs >>= λ names. some (some names)) else some none)
    >>= λ names.
        some (record { network_types = nts; inputs = when f.inputs cs.input_map; indexed = names })

-- `NewEventSpec`
unfoldable pub new_event_spec : ContractEvent → List String → Option EventSpec
unfolding new_event_spec_indexed
new_event_spec cs nts = do
  names ← new_event_spec_indexed cs
  some (record {
    network_types = nts;
    name = cs.name;
    inputs = cs.input_map;
    indexed = names;
    overloads = [];
  })

unfoldable pub give_up_event : String → List EventOverload → List EventOverload
give_up_event nt [] = []
give_up_event nt (o ∷ os) =
    if StringSet.contains o.network_types nt
    then record o { network_types = (StringSet.remove o.network_types nt).0 } ∷ os
    else o ∷ give_up_event nt os

-- the loop of `merge` over the network types, for an equal event: the network type is added only
-- where no overload holds it
unfoldable pub support_event : List String → EventSpec → EventSpec
unfolding supports_event event_overload give_up_event
support_event [] s = s
support_event (nt ∷ nts) s = support_event nts (
    if supports_event s nt then s else elim (event_overload s nt) [
      | some o ↦ record s { overloads = give_up_event nt s.overloads }
      | none ↦ record s { network_types = s.network_types ++ nt ∷ [] }
    ])

unfoldable pub unsupport_event : List String → EventSpec → EventSpec
unfolding supports_event
unsupport_event [] s = s
unsupport_event (nt ∷ nts) s = unsupport_event nts (
    if supports_event s nt
    then record s { network_types = (StringSet.remove s.network_types nt).0 }
    else s)

unfoldable pub join_event :
    EventFlag → ContractEvent → List String → List EventOverload → Option (List EventOverload)
unfolding new_event_overload compare_event_overload
join_event f cs nts [] = new_event_overload f cs nts >>= λ o. some (o ∷ [])
join_event f cs nts (o ∷ os) = compare_event_overload o cs >>= λ fits.
    if fits
    then some (record o { network_types = StringSet.merge o.network_types nts } ∷ os)
    else (join_event f cs nts os >>= λ rest. some (o ∷ rest))

-- `merge`
unfoldable pub merge_event :
    EventSpec → ContractEvent → List String → Option (EventSpec × EventFlag)
unfolding compare_event_spec support_event unsupport_event join_event
merge_event s cs nts = compare_event_spec s cs >>= λ f.
    if no_flag f
    then some (support_event nts s, f)
    else (let t = unsupport_event nts s in
        join_event f cs nts t.overloads >>= λ os. some (record t { overloads = os }, f))

-- `CopyEventOverload`: it reads `*co.Indexed` of the new overload, a nil pointer
unfoldable pub copy_event_overload : EventOverload → Option EventOverload
copy_event_overload o = elim o.indexed [
  | none ↦ some (record o { indexed = none })
  | some names ↦ none
]

unfoldable pub copy_event_overloads : List EventOverload → Option (List EventOverload)
unfolding copy_event_overload
copy_event_overloads [] = some []
copy_event_overloads (o ∷ os) = do
  c ← copy_event_overload o
  cs ← copy_event_overloads os
  some (c ∷ cs)

-- `CopyEventSpec`
unfoldable pub copy_event_spec : EventSpec → Option EventSpec
unfolding copy_event_overloads
copy_event_spec s = do os ← copy_event_overloads s.overloads; some (record s { overloads = os })
