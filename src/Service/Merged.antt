-- ===== src/Service/Merged.antt =====
-- service/mergedservice.go: the view that a merged service has of each method, and how it invokes
-- and calls the service below it. The MergeHandler and that service are code of others, so they
-- are the parameters `Handler` and `Backend`; parameters, options, transactions and values are of
-- any types.
pub mod Views
pub mod Given
pub mod Calls
pub mod Events
use btp_sdk.Base.{
  String, Bool, true, false, not, ◌&&◌, ◌||◌, Option, none, some, List, [], ◌∷◌, map, lookup,
  if◌then◌else◌,
}
use btp_sdk.Base.Results
use btp_sdk.Base.Results.{Result, ok, err, ◌>>=◌}
use btp_sdk.Spec.{TypeSpec, Fields, equals_type_spec, equals_name_and_types}
use btp_sdk.Service.Method.{MethodOverload, MethodSpec, Flag, bool_eq, when, overload}

-- `compareMethod`
unfoldable pub compare_method : MethodSpec → MethodSpec → Flag
compare_method a b = record {
  inputs = not (equals_name_and_types a.inputs b.inputs);
  output = not (equals_type_spec a.output b.output);
  payable = not (bool_eq a.payable b.payable);
  readonly = not (bool_eq a.readonly b.readonly);
}

-- `newMethodOverload`
unfoldable pub overload_of : Flag → MethodSpec → List String → MethodOverload
overload_of f m nts = record {
  network_types = nts;
  inputs = when f.inputs m.inputs;
  output = when f.output m.output;
  payable = when f.payable m.payable;
  readonly = when f.readonly m.readonly;
}

-- the body of the loop in `newMethodSpec`
unfoldable pub rebased : Flag → MethodSpec → MethodSpec → MethodOverload → MethodOverload
rebased f merged origin oo = record {
  network_types = oo.network_types;
  inputs = elim oo.inputs [
    | some i ↦ if not f.inputs || not (equals_name_and_types merged.inputs i) then some i else none
    | none ↦ when f.inputs origin.inputs
  ];
  output = elim oo.output [
    | some t ↦ if not f.output || not (equals_type_spec merged.output t) then some t else none
    | none ↦ when f.output origin.output
  ];
  payable = none;
  readonly = none;
}

-- `newMethodSpec`
unfoldable pub new_merged_method : MethodSpec → MethodSpec → MethodSpec
unfolding compare_method overload_of rebased
new_merged_method merged origin =
    let f = compare_method merged origin in
    record merged {
      overloads =
          overload_of f origin origin.network_types
          ∷ map (λ oo. rebased f merged origin oo) origin.overloads;
    }

pub data Error : Type 0 where
  not_found_network not_found_method not_supported_method : String → Error
  handler_error backend_error : String → Error

-- What a MergeHandler does to the parameters and to the value of a method.
pub record Handler (Params Value : Type 0) : Type 0 where
  pub handle_method_inputs : String → Fields → Fields → Params → Result Error Params
  pub handle_method_output : String → TypeSpec → TypeSpec → Value → Result Error Value

-- The service below: its networks with their types, and its Invoke and Call.
pub record Backend (Params Options TxId Value : Type 0) : Type 0 where
  pub networks : List (String × String)
  pub invoke : String → String → Params → Options → Result Error TxId
  pub call : String → String → Params → Options → Result Error Value

-- `methods` are the views of the merged methods, `spec_methods` all methods of the specification.
pub record MergedService : Type 0 where
  pub methods : List (String × MethodSpec)
  pub spec_methods : List (String × MethodSpec)

module _ {Params Value : Type 0} where
  -- the conversion of the parameters in `Invoke` and `Call`
  unfoldable pub convert_inputs :
      Handler Params Value → Option (MethodSpec × MethodOverload) → Params → Result Error Params
  convert_inputs h none params = ok params
  convert_inputs h (some (ms, mo)) params = elim mo.inputs [
    | none ↦ ok params
    | some i ↦ h.handle_method_inputs ms.name i ms.inputs params
  ]

  -- the conversion of the value in `Call`
  unfoldable pub convert_output :
      Handler Params Value → Option (MethodSpec × MethodOverload) → Value → Result Error Value
  convert_output h none r = ok r
  convert_output h (some (ms, mo)) r = elim mo.output [
    | none ↦ ok r
    | some t ↦ h.handle_method_output ms.name t ms.output r
  ]

module _ {Params Options TxId Value : Type 0} (b : Backend Params Options TxId Value) where
  -- `networkType`
  unfoldable pub network_type : String → Result Error String
  network_type network = elim (lookup network b.networks) [
    | none ↦ err (not_found_network network)
    | some nt ↦ ok nt
  ]

  -- `methodOverload`; two nil pointers are `none`
  unfoldable pub method_overload :
      MergedService → String → String → Result Error (Option (MethodSpec × MethodOverload))
  unfolding network_type
  method_overload s network name = network_type network >>= λ nt. elim (lookup name s.methods) [
    | none ↦ elim (lookup name s.spec_methods) [
      | none ↦ err (not_found_method name)
      | some m ↦ ok none
    ]
    | some ms ↦ elim (overload ms nt) [
      | none ↦ err (not_supported_method name)
      | some mo ↦ ok (some (ms, mo))
    ]
  ]

  -- `Invoke`
  unfoldable pub invoke :
      Handler Params Value → MergedService → String → String → Params → Options → Result Error TxId
  unfolding method_overload convert_inputs
  invoke h s network method params options = method_overload s network method >>= λ r.
      convert_inputs h r params >>= λ p. b.invoke network method p options

  -- `Call`
  unfoldable pub call :
      Handler Params Value → MergedService → String → String → Params → Options → Result Error Value
  unfolding method_overload convert_inputs convert_output
  call h s network method params options = method_overload s network method >>= λ r.
      convert_inputs h r params >>= λ p.
      b.call network method p options >>= λ v. convert_output h r v
