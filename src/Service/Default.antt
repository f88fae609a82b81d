-- ===== src/Service/Default.antt =====
-- service/service.go: the services over contracts without conversion. A contract handler, the adaptor
-- that makes handlers and MonitorEvent are parameters. A Go map that the source ranges over is a
-- list in the order of the range, with each key once.
pub mod Dispatch
pub mod Filters
use btp_sdk.Base.{
  String, Bool, true, false, Option, none, some, List, [], ◌∷◌, ◌++◌, map, str_eq, if◌then◌else◌,
  lookup,
}
use btp_sdk.Base.Results.{Result, ok, err, ◌>>=◌}

pub data Error : Type 0 where
  not_found_network not_found_method not_found_event not_found_spec : String → Error
  duplicated_method duplicated_event : String → Error
  contract_error : String → Error

-- A contract.Handler: the names of its specification, and its operations.
pub record Handler (Params TxId Value Filter : Type 0) : Type 0 where
  pub methods : List String
  pub events : List String
  pub invoke : String → Params → Result Error TxId
  pub call : String → Params → Result Error Value
  pub event_filter : String → Option Params → Result Error Filter

abbrev pub found {ℓ} : {A : Type ℓ} → Error → Option A → Result Error A
found e none = err e
found e (some a) = ok a

-- `getSpec`
unfoldable pub get_spec :
    List (String × List (String × String)) → String → String → Result Error String
get_spec specs option_name network_type =
    found (not_found_spec option_name) (lookup option_name specs) >>= λ m.
    found (not_found_spec network_type) (lookup network_type m)

-- `addrToSpec[addr] = spec`
unfoldable pub put : String → String → List (String × String) → List (String × String)
put a v [] = (a, v) ∷ []
put a v ((b, w) ∷ m) = let rest = put a v m in if str_eq b a then (b, v) ∷ m else (b, w) ∷ rest

-- the loop over the options of a network
unfoldable pub address_specs :
    List (String × List (String × String))
    → String
    → List (String × String)
    → List (String × String)
    → Result Error (List (String × String))
unfolding get_spec put
address_specs specs nt [] m = ok m
address_specs specs nt ((option_name, addr) ∷ opt) m =
    get_spec specs option_name nt >>= λ spec. address_specs specs nt opt (put addr spec m)

-- the map from names to handlers
abbrev pub Handlers : Type 0 → Type 0
Handlers H = List (String × H)

-- no parameters stand for one nil
abbrev pub or_nil : {A : Type 0} → List A → List (Option A)
or_nil [] = none ∷ []
or_nil (p ∷ ps) = map some (p ∷ ps)

module _ {Params TxId Value Filter : Type 0} where
  -- the loops over the methods and the events of a contract, where `e` is the error for a name
  -- that has a handler
  unfoldable pub add_names :
      (String → Error)
      → List String
      → Handler Params TxId Value Filter
      → (Handlers (Handler Params TxId Value Filter))
      → Result Error (Handlers (Handler Params TxId Value Filter))
  add_names e [] h m = ok m
  add_names e (n ∷ ns) h m = elim (lookup n m) [
    | some other ↦ err (e n)
    | none ↦ add_names e ns h ((n, h) ∷ m)
  ]

  unfoldable pub add_handler :
      Handler Params TxId Value Filter
      → (Handlers (Handler Params TxId Value Filter))
      → Result Error (Handlers (Handler Params TxId Value Filter))
  unfolding add_names
  add_handler h m =
      add_names duplicated_method h.methods h m >>= λ m1. add_names duplicated_event h.events h m1

  -- the loop over the addresses; `adaptor spec addr` is what `Adaptor.Handler` answers
  unfoldable pub add_handlers :
      (String → String → Result Error (Handler Params TxId Value Filter))
      → List (String × String)
      → (Handlers (Handler Params TxId Value Filter))
      → Result Error (Handlers (Handler Params TxId Value Filter))
  unfolding add_handler
  add_handlers adaptor [] m = ok m
  add_handlers adaptor ((addr, spec) ∷ as') m =
      adaptor spec addr >>= λ h. add_handler h m >>= λ m1. add_handlers adaptor as' m1

  -- the part of NewMultiContractService for one network
  unfoldable pub name_to_handlers :
      (String → String → Result Error (Handler Params TxId Value Filter))
      → List (String × List (String × String))
      → String
      → List (String × String)
      → Result Error (Handlers (Handler Params TxId Value Filter))
  unfolding address_specs add_handlers
  name_to_handlers adaptor specs nt opt =
      address_specs specs nt opt [] >>= λ m. add_handlers adaptor m []

  unfoldable pub handler_by_method :
      (Handlers (Handler Params TxId Value Filter))
      → String
      → Result Error (Handler Params TxId Value Filter)
  handler_by_method m method = found (not_found_method method) (lookup method m)

  unfoldable pub handler_by_event :
      (Handlers (Handler Params TxId Value Filter))
      → String
      → Result Error (Handler Params TxId Value Filter)
  handler_by_event m event = found (not_found_event event) (lookup event m)

  -- the inner loop of `EventFilters`, over the parameters of one name
  unfoldable pub filters_of :
      Handler Params TxId Value Filter → String → List (Option Params) → Result Error (List Filter)
  filters_of h name [] = ok []
  filters_of h name (p ∷ ps) =
      h.event_filter name p >>= λ ef. filters_of h name ps >>= λ efs. ok (ef ∷ efs)

  unfoldable pub event_filters :
      (String → Result Error (Handler Params TxId Value Filter))
      → List (String × List Params)
      → Result Error (List Filter)
  unfolding filters_of
  event_filters hs [] = ok []
  event_filters hs ((name, l) ∷ rest) = hs name >>= λ h.
      filters_of h name (or_nil l) >>= λ efs. event_filters hs rest >>= λ more. ok (efs ++ more)

  -- DefaultService: one handler for each network
  unfoldable pub default_invoke :
      List (String × Handler Params TxId Value Filter)
      → String
      → String
      → Params
      → Result Error TxId
  default_invoke m network method params =
      found (not_found_network network) (lookup network m) >>= λ h. h.invoke method params

  unfoldable pub default_call :
      List (String × Handler Params TxId Value Filter)
      → String
      → String
      → Params
      → Result Error Value
  default_call m network method params =
      found (not_found_network network) (lookup network m) >>= λ h. h.call method params

  unfoldable pub default_event_filters :
      List (String × Handler Params TxId Value Filter)
      → String
      → List (String × List Params)
      → Result Error (List Filter)
  unfolding event_filters
  default_event_filters m network name_to_params =
      found (not_found_network network) (lookup network m) >>= λ h.
      event_filters (λ k. ok h) name_to_params

  -- MultiContractService: the handlers of each network by name
  unfoldable pub multi_handler :
      List (String × (Handlers (Handler Params TxId Value Filter)))
      → String
      → String
      → Result Error (Handler Params TxId Value Filter)
  unfolding handler_by_method
  multi_handler m network method =
      found (not_found_network network) (lookup network m) >>= λ n. handler_by_method n method

  unfoldable pub multi_invoke :
      List (String × (Handlers (Handler Params TxId Value Filter)))
      → String
      → String
      → Params
      → Result Error TxId
  unfolding multi_handler
  multi_invoke m network method params =
      multi_handler m network method >>= λ h. h.invoke method params

  unfoldable pub multi_call :
      List (String × (Handlers (Handler Params TxId Value Filter)))
      → String
      → String
      → Params
      → Result Error Value
  unfolding multi_handler
  multi_call m network method params = multi_handler m network method >>= λ h. h.call method params

  unfoldable pub multi_event_filters :
      List (String × (Handlers (Handler Params TxId Value Filter)))
      → String
      → List (String × List Params)
      → Result Error (List Filter)
  unfolding event_filters handler_by_event
  multi_event_filters m network name_to_params =
      found (not_found_network network) (lookup network m) >>= λ n.
      event_filters (handler_by_event n) name_to_params
