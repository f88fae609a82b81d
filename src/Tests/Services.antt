-- ===== src/Tests/Services.antt =====
-- Two contracts of a network, one with a method and one with an event.
use btp_sdk.Base.{ℕ, ◌≡◌, ◌↔◌, refl, String, some, List, [], ◌∷◌, lookup, str_eq, if◌then◌else◌}
use btp_sdk.Base.Results.{Result, ok, err}
use btp_sdk.Service.Default.{
  Error, contract_error, Handler, Handlers, add_names, add_handler, add_handlers, event_filters,
}
use btp_sdk.Service.Default.Dispatch.{Owns, handlers_iff}
use btp_sdk.Service.Default.Filters.{each, requests, event_filters-requests}

abbrev handler_of : List String → List String → Handler ℕ ℕ ℕ String
handler_of methods events = record {
  methods = methods;
  events = events;
  invoke = λ m p. ok p;
  call = λ m p. ok p;
  event_filter = λ name p. ok name;
}

abbrev with_method : Handler ℕ ℕ ℕ String
with_method = handler_of ("transfer" ∷ []) []

abbrev with_event : Handler ℕ ℕ ℕ String
with_event = handler_of [] ("Transfer" ∷ [])

abbrev adaptor : String → String → Result Error (Handler ℕ ℕ ℕ String)
adaptor spec addr =
    if str_eq spec "m"
    then ok with_method
    else if str_eq spec "e"
    then ok with_event
    else err (contract_error spec)

abbrev contracts : List (String × String)
contracts = ("cx1", "m") ∷ ("cx2", "e") ∷ []

abbrev by_name : Handlers (Handler ℕ ℕ ℕ String)
by_name = ("Transfer", with_event) ∷ ("transfer", with_method) ∷ []

dispatches : add_handlers adaptor contracts [] ≡ ok by_name
unfolding add_handlers add_handler add_names
dispatches = refl

handlers_iff_example :
    (lookup "transfer" by_name ≡ some with_method) ↔ Owns adaptor contracts "transfer" with_method
handlers_iff_example = handlers_iff adaptor contracts by_name dispatches "transfer" with_method

event_filters-requests_example :
    event_filters (λ k. ok with_event) (("Transfer", []) ∷ ("Transfer", 1 ∷ 2 ∷ []) ∷ [])
    ≡ each (λ k. ok with_event) (requests (("Transfer", []) ∷ ("Transfer", 1 ∷ 2 ∷ []) ∷ []))
event_filters-requests_example =
    event_filters-requests (λ k. ok with_event) (("Transfer", []) ∷ ("Transfer", 1 ∷ 2 ∷ []) ∷ [])
