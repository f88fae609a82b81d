-- ===== src/Service/Event/Copy.antt =====
-- CopyEventSpec (service/spec.go) on specifications with and without overloads of Indexed.
use btp_sdk.Base.{
  ◌≡◌, refl, inl, inr, ◌↔◌, Bool, true, false, ◌||◌, none, some, List, [], ◌∷◌, arith, Option-cases,
}
use btp_sdk.Service.Method.{is_some}
use btp_sdk.Service.Event.{
  EventOverload, EventSpec, copy_event_overload, copy_event_overloads, copy_event_spec,
}

-- Some overload gives its own list of indexed inputs.
abbrev pub any_indexed : List EventOverload → Bool
any_indexed [] = false
any_indexed (o ∷ os) = is_some o.indexed || any_indexed os

copies : (os : List EventOverload) → any_indexed os ≡ false → copy_event_overloads os ≡ some os
unfolding copy_event_overloads copy_event_overload
copies [] h = refl
copies (o ∷ os) h = ground (arith, copies os)

panics : (os : List EventOverload) → any_indexed os ≡ true → copy_event_overloads os ≡ none
unfolding copy_event_overloads copy_event_overload
panics [] h = cc
panics (o ∷ os) h = elim (Option-cases o.indexed) [
  | inl left_out ↦ ground (arith, left_out, panics os)
  | inr (names, given) ↦ ground (arith, given)
]

-- CopyEventSpec panics exactly when some overload gives its own list of indexed inputs; otherwise it
-- returns an equal specification.
pub copy_event_spec_cases :
    (s : EventSpec)
    → ((copy_event_spec s ≡ none) ↔ (any_indexed s.overloads ≡ true))
      × (any_indexed s.overloads ≡ false → copy_event_spec s ≡ some s)
unfolding copy_event_spec
copy_event_spec_cases s = (
  (λ h. ground (arith, copies s.overloads), λ h. ground (arith, panics s.overloads)),
  λ h. ground (arith, copies s.overloads),
)
