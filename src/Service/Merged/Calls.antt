-- ===== src/Service/Merged/Calls.antt =====
-- Invoke and Call of a MergedService (service/mergedservice.go): which conversions they make.
use btp_sdk.Base.{◌≡◌, refl, ◌⊎◌, inl, inr, String, true, some, lookup, arith, Option-cases}
use btp_sdk.Base.Results.{Result, ok, ◌>>=◌}
use btp_sdk.Spec.{equals_type_spec, equals_name_and_types}
use btp_sdk.Service.Method.{MethodOverload, MethodSpec, overload}
use btp_sdk.Service.Method.Merge.{Signature, effective}
use btp_sdk.Service.Merged.{
  Error, Handler, Backend, MergedService, new_merged_method, network_type, method_overload,
  convert_inputs, convert_output, invoke, call,
}
use btp_sdk.Service.Merged.Given.{
  DiffersInputs, DiffersOutput, GivenInputs, GivenOutput, new_merged_method-Given,
}
use btp_sdk.Service.Merged.Views.{Sees, TypesWellFormed, new_merged_method-Sees}

module _ {Params Value : Type 0} where
  -- The parameters are passed on, where the merged method's inputs are equal to the network's, or
  -- the handler converts them from the merged inputs to the network's, which differ or, where the
  -- origin's are equal to the merged ones, are an overload's own.
  abbrev pub IsInputConversion :
      Handler Params Value
      → MethodSpec
      → MethodSpec
      → String
      → Signature
      → (Params → Result Error Params)
      → Type 0
  IsInputConversion h merged origin nt g conv =
      (((p : Params) → conv p ≡ ok p) × (equals_name_and_types merged.inputs g.inputs ≡ true))
      ⊎ (((p : Params) → conv p ≡ h.handle_method_inputs merged.name g.inputs merged.inputs p)
          × DiffersInputs merged origin (overload origin nt) g.inputs)

  abbrev pub IsOutputConversion :
      Handler Params Value
      → MethodSpec
      → MethodSpec
      → String
      → Signature
      → (Value → Result Error Value)
      → Type 0
  IsOutputConversion h merged origin nt g conv =
      (((v : Value) → conv v ≡ ok v) × (equals_type_spec merged.output g.output ≡ true))
      ⊎ (((v : Value) → conv v ≡ h.handle_method_output merged.name g.output merged.output v)
          × DiffersOutput merged origin (overload origin nt) g.output)

  module _ (h : Handler Params Value) (merged origin : MethodSpec) (nt : String)
      (g : Signature) where
    inputs_converted :
        (o : MethodOverload)
        → Sees merged o g
        → GivenInputs merged origin (overload origin nt) o g.inputs
        → IsInputConversion h merged origin nt g
            (convert_inputs h (some (new_merged_method merged origin, o)))
    unfolding convert_inputs new_merged_method
    inputs_converted o sees gives = elim (Option-cases o.inputs) [
      | inl left_out ↦ inl (λ p. rw left_out refl, ground (arith, left_out, sees.0))
      | inr (i, given) ↦ let (e, differs) = gives i given in inr (λ p. rw (given, e) refl, differs)
    ]

    output_converted :
        (o : MethodOverload)
        → Sees merged o g
        → GivenOutput merged origin (overload origin nt) o g.output
        → IsOutputConversion h merged origin nt g
            (convert_output h (some (new_merged_method merged origin, o)))
    unfolding convert_output new_merged_method
    output_converted o sees gives = elim (Option-cases o.output) [
      | inl left_out ↦ inl (λ v. rw left_out refl, ground (arith, left_out, sees.1))
      | inr (t, given) ↦ let (e, differs) = gives t given in inr (λ v. rw (given, e) refl, differs)
    ]

module _ {Params Options TxId Value : Type 0} (b : Backend Params Options TxId Value)
    (h : Handler Params Value) (merged origin : MethodSpec) (g : Signature) where
  view_found :
      (s : MergedService) (network name nt : String) (o : MethodOverload)
      → lookup network b.networks ≡ some nt
      → lookup name s.methods ≡ some (new_merged_method merged origin)
      → overload (new_merged_method merged origin) nt ≡ some o
      → method_overload b s network name ≡ ok (some (new_merged_method merged origin, o))
  unfolding method_overload network_type
  view_found s network name nt o net found q = ground (arith, net, found, q)

  -- Invoke and Call of a merged method, on a network whose type sees the method in an origin with
  -- well-formed types. The parameters go to the service below unchanged, and then the merged inputs are equal to
  -- those that the network type sees; or the handler converts them from the merged inputs to those that
  -- the network type sees, and then these differ from the merged inputs, or the origin's inputs are
  -- equal to the merged ones and an overload of the network type gives its own. Call does the same with
  -- the output and the value that the service below returns, after the call.
  pub invoke-call_lem :
      (s : MergedService) (network name nt : String)
      → TypesWellFormed origin
      → lookup network b.networks ≡ some nt
      → lookup name s.methods ≡ some (new_merged_method merged origin)
      → effective origin nt ≡ some g
      → (conv : (Params → Result Error Params)) × (back : (Value → Result Error Value))
        × IsInputConversion h merged origin nt g conv
        × IsOutputConversion h merged origin nt g back
        × ((p : Params) (opts : Options)
            → (invoke b h s network name p opts ≡ (conv p >>= λ q. b.invoke network name q opts))
              × (call b h s network name p opts
                  ≡ (conv p >>= λ q. b.call network name q opts >>= back)))
  unfolding invoke call
  invoke-call_lem s network name nt w net found sees =
      let (o, q, is_seen) = new_merged_method-Sees merged origin w nt g sees in
      let (inputs_given, output_given) = new_merged_method-Given merged origin nt o g sees q in
      let at = view_found s network name nt o net found q in
      let view = some (new_merged_method merged origin, o) in
      (
        convert_inputs h view,
        convert_output h view,
        inputs_converted h merged origin nt g o is_seen inputs_given,
        output_converted h merged origin nt g o is_seen output_given,
        λ p opts. (rw at refl, rw at refl),
      )
