-- ===== src/Service/Whole.antt =====
-- service/spec.go: the specification of a service as a whole, with Spec.Merge, mergeStructs and mergeStruct. A
-- map is a list with each key once, and a new entry comes last. The structs of a contract's types are
-- finite trees.
pub mod Target
pub mod Total
use btp_sdk.Base.{
  String, Bool, true, false, Option, none, some, List, [], ◌∷◌, lookup, str_eq, if◌then◌else◌,
}
use btp_sdk.Base.Faults.{◌>>=◌}
use btp_sdk.Spec.{
  TypeSpec, type_spec, TypeId, t_struct, Fields, no_fields, field, NameAndTypeSpec, name_and_type,
}
use btp_sdk.Service.Method.{
  ContractMethod, MethodSpec, MethodOverload, Flag, merge, new_method_spec,
}
use btp_sdk.Service.Event.{ContractEvent, EventSpec, EventOverload, merge_event, new_event_spec}
use btp_sdk.Service.Struct.{ContractStruct, StructSpec, merge_struct, new_struct_spec}

-- contract.Spec, as far as the merge reads it
pub record ContractSpec : Type 0 where
  pub methods : List (String × ContractMethod)
  pub events : List (String × ContractEvent)

pub record ServiceSpec : Type 0 where
  pub spec_version : String
  pub name : String
  pub network_types : List String
  pub methods : List (String × MethodSpec)
  pub events : List (String × EventSpec)
  pub structs : List (String × StructSpec)

-- `m[k] = v`
unfoldable pub put {ℓ} : {V : Type ℓ} → String → V → List (String × V) → List (String × V)
put k v [] = (k, v) ∷ []
put k v ((j, w) ∷ m) = let rest = put k v m in if str_eq j k then (j, v) ∷ m else (j, w) ∷ rest

-- `mergeStruct` and `mergeStructs`. A new struct is stored under the name of the type.
unfoldable mutual
  pub merge_struct_of :
      TypeSpec → List String → List (String × StructSpec) → List (String × StructSpec)
  merge_struct_of (type_spec n d t) nts m = merge_resolved t n nts m

  pub merge_resolved :
      TypeId → String → List String → List (String × StructSpec) → List (String × StructSpec)
  merge_resolved (t_struct s fs) n nts m =
      let cs : ContractStruct = record { name = s; field_map = fs } in
      elim (lookup s m) [
        | some ss ↦ elim (merge_struct ss cs nts).1 [
          | true ↦ put s (merge_struct ss cs nts).0 m
          | false ↦ merge_structs fs nts (put s (merge_struct ss cs nts).0 m)
        ]
        | none ↦ merge_structs fs nts (put n (new_struct_spec cs nts) m)
      ]
  merge_resolved t n nts m = m

  pub merge_structs : Fields → List String → List (String × StructSpec) → List (String × StructSpec)
  merge_structs no_fields nts m = m
  merge_structs (field k a fs) nts m = merge_structs fs nts (merge_field a nts m)

  pub merge_field :
      NameAndTypeSpec → List String → List (String × StructSpec) → List (String × StructSpec)
  merge_field (name_and_type n t o) nts m = merge_struct_of t nts m

abbrev pub only_if :
    Bool
    → (List (String × StructSpec) → List (String × StructSpec))
    → List (String × StructSpec)
    → List (String × StructSpec)
only_if true f m = f m
only_if false f m = m

-- one round of the first loop of `Merge`
unfoldable pub merge_method : String → ContractMethod → List String → ServiceSpec → ServiceSpec
unfolding put merge_structs merge_struct_of
merge_method name cm nts s = elim (lookup name s.methods) [
  | some sm ↦
      let r = merge sm cm nts in
      record s {
        methods = put name r.0 s.methods;
        structs =
            only_if r.1.output (merge_struct_of cm.output nts)
              (only_if r.1.inputs (merge_structs cm.input_map nts) s.structs);
      }
  | none ↦ record s { methods = put name (new_method_spec cm nts) s.methods }
]

unfoldable pub merge_methods :
    List (String × ContractMethod) → List String → ServiceSpec → ServiceSpec
unfolding merge_method
merge_methods [] nts s = s
merge_methods ((name, cm) ∷ ms) nts s = merge_methods ms nts (merge_method name cm nts s)

-- one round of the second loop; a panic is `none`
unfoldable pub merge_one_event :
    String → ContractEvent → List String → ServiceSpec → Option ServiceSpec
unfolding put merge_structs
merge_one_event name ce nts s = elim (lookup name s.events) [
  | some se ↦ merge_event se ce nts >>= λ r. some (record s {
    events = put name r.0 s.events;
    structs = only_if r.1.inputs (merge_structs ce.input_map nts) s.structs;
  })
  | none ↦ new_event_spec ce nts >>= λ se. some (record s { events = put name se s.events })
]

unfoldable pub merge_events :
    List (String × ContractEvent) → List String → ServiceSpec → Option ServiceSpec
unfolding merge_one_event
merge_events [] nts s = some s
merge_events ((name, ce) ∷ es) nts s =
    merge_one_event name ce nts s >>= λ s1. merge_events es nts s1

-- `Merge`, which drops the merged network types
unfoldable pub merge_spec : ServiceSpec → ContractSpec → List String → Option ServiceSpec
unfolding merge_methods merge_events
merge_spec s cs nts = merge_events cs.events nts (merge_methods cs.methods nts s)

-- the loops of `ResetStructs` over the overloads of a method and of an event
unfoldable pub overload_structs :
    List MethodOverload → List (String × StructSpec) → List (String × StructSpec)
unfolding merge_structs merge_struct_of
overload_structs [] m = m
overload_structs (o ∷ os) m =
    let inputs : List (String × StructSpec) = elim o.inputs [
      | none ↦ m
      | some i ↦ merge_structs i o.network_types m
    ] in
    overload_structs os
      (elim o.output [ none ↦ inputs | some t ↦ merge_struct_of t o.network_types inputs ])

unfoldable pub event_overload_structs :
    List EventOverload → List (String × StructSpec) → List (String × StructSpec)
unfolding merge_structs
event_overload_structs [] m = m
event_overload_structs (o ∷ os) m =
    event_overload_structs os
      (elim o.inputs [ none ↦ m | some i ↦ merge_structs i o.network_types m ])

unfoldable pub method_structs :
    List (String × MethodSpec) → List (String × StructSpec) → List (String × StructSpec)
unfolding merge_structs merge_struct_of overload_structs
method_structs [] m = m
method_structs ((name, sm) ∷ ms) m = method_structs ms (
    overload_structs sm.overloads
      (merge_struct_of sm.output sm.network_types (merge_structs sm.inputs sm.network_types m)))

unfoldable pub event_structs :
    List (String × EventSpec) → List (String × StructSpec) → List (String × StructSpec)
unfolding merge_structs event_overload_structs
event_structs [] m = m
event_structs ((name, se) ∷ es) m =
    event_structs es
      (event_overload_structs se.overloads (merge_structs se.inputs se.network_types m))

-- `ResetStructs`
unfoldable pub reset_structs : ServiceSpec → ServiceSpec
unfolding method_structs event_structs
reset_structs s = record s { structs = event_structs s.events (method_structs s.methods []) }
