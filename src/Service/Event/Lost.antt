-- ===== src/Service/Event/Lost.antt =====
-- EventSpec.merge (service/spec.go) for a network type that an overload holds, when the event is
-- equal to the base.
use btp_sdk.Base.{
  ◌≡◌, refl, ◌⊎◌, inl, inr, String, true, false, none, some, List, [], ◌∷◌, arith, eq_refl, All,
}
use btp_sdk.StringSet
use btp_sdk.StringSet.{IsDistinct}
use btp_sdk.Service.Event.{
  ContractEvent, EventOverload, EventSpec, EventFlag, no_flag, supports_event, event_overload_in,
  event_overload, compare_event_spec, give_up_event, support_event, merge_event,
}

abbrev pub Absent : String → List EventOverload → Type 0
Absent nt os = All (λ o. StringSet.contains o.network_types nt ≡ false) os

-- Exactly one overload holds the network type.
abbrev pub HeldOnce : String → List EventOverload → Type 0
HeldOnce nt [] = ⊥
HeldOnce nt (o ∷ os) =
    ((StringSet.contains o.network_types nt ≡ true) × IsDistinct o.network_types × Absent nt os)
    ⊎ ((StringSet.contains o.network_types nt ≡ false) × HeldOnce nt os)

Absent-none :
    (nt : String) (os : List EventOverload) → Absent nt os → event_overload_in os nt ≡ none
unfolding event_overload_in
Absent-none nt [] a = refl
Absent-none nt (o ∷ os) a = ground (arith, a.0, Absent-none nt os a.1)

held :
    (nt : String) (os : List EventOverload)
    → HeldOnce nt os
    → (o : EventOverload) × (event_overload_in os nt ≡ some o)
unfolding event_overload_in
held nt [] h = absurd h
held nt (o ∷ os) (inl (here, d, a)) = (o, ground (arith, here))
held nt (o ∷ os) (inr (other, h)) = let (c, q) = held nt os h in (c, ground (arith, other, q))

given_up :
    (nt : String) (os : List EventOverload)
    → HeldOnce nt os
    → event_overload_in (give_up_event nt os) nt ≡ none
unfolding event_overload_in give_up_event
given_up nt [] h = absurd h
given_up nt (o ∷ os) (inl (here, d, a)) = ground (
  arith,
  here,
  (StringSet.remove-IsDifference o.network_types nt d).0 nt,
  eq_refl nt,
  Absent-none nt os a,
)
given_up nt (o ∷ os) (inr (other, h)) = ground (arith, other, given_up nt os h)

-- A network type that one overload of an event holds, and that the event itself does not list, is
-- lost by a merge of an event equal to the base: the overload gives it up, and afterwards neither
-- the event nor an overload supports it.
pub merge_event_loses :
    (s : EventSpec) (cs : ContractEvent) (nt : String) (f : EventFlag)
    → compare_event_spec s cs ≡ some f
    → no_flag f ≡ true
    → supports_event s nt ≡ false
    → HeldOnce nt s.overloads
    → (t : EventSpec) × (merge_event s cs (nt ∷ []) ≡ some (t, f))
      × (supports_event t nt ≡ false)
      × (event_overload t nt ≡ none)
unfolding merge_event support_event event_overload supports_event
merge_event_loses s cs nt f compared equal unlisted h =
    let (o, q) = held nt s.overloads h in
    (
      record s { overloads = give_up_event nt s.overloads },
      rw compared (rw equal (rw unlisted (rw q refl))),
      unlisted,
      given_up nt s.overloads h,
    )
