-- ===== src/Tests/MergedCalls.antt =====
-- A merged method whose output on eth is an integer, on icon a text.
use btp_sdk.Base.{◌≡◌, refl, String, true, false, none, some, [], ◌∷◌}
use btp_sdk.Base.Results.{Result, ok, ◌>>=◌}
use btp_sdk.Spec.{TypeSpec, type_spec, t_integer, t_string, no_fields}
use btp_sdk.StringSet
use btp_sdk.StringSet.{index}
use btp_sdk.Service.Method.{MethodOverload, MethodSpec, overload, overload_in, is_support}
use btp_sdk.Service.Method.Merge.{Signature, effective}
use btp_sdk.Service.Merged.{Error, Handler, Backend, MergedService, new_merged_method, invoke, call}
use btp_sdk.Service.Merged.Views.{Sees, TypesWellFormed, new_merged_method-Sees}
use btp_sdk.Service.Merged.Calls.{IsInputConversion, IsOutputConversion, invoke-call_lem}

abbrev text_output : TypeSpec
text_output = type_spec "string" 0 t_string

abbrev integer_output : TypeSpec
integer_output = type_spec "integer" 0 t_integer

abbrev origin : MethodSpec
origin = record {
  network_types = "icon" ∷ [];
  name = "getCount";
  inputs = no_fields;
  output = text_output;
  payable = false;
  readonly = true;
  overloads =
      record {
        network_types = "eth" ∷ [];
        inputs = none;
        output = some integer_output;
        payable = none;
        readonly = none;
      }
      ∷ [];
}

abbrev merged : MethodSpec
merged = record origin {
  network_types = "icon" ∷ "eth" ∷ [];
  output = integer_output;
  overloads = [];
}

origin-TypesWellFormed : TypesWellFormed origin
origin-TypesWellFormed = record { inputs_ok = tt; output_ok = tt; overloads_ok = ((tt, tt), tt) }

abbrev on_eth : Signature
on_eth = record { inputs = no_fields; output = integer_output; payable = false; readonly = true }

seen_on_eth : effective origin "eth" ≡ some on_eth
unfolding effective overload overload_in is_support StringSet.contains index
seen_on_eth = refl

new_merged_method-Sees_example :
    (o : MethodOverload) × (overload (new_merged_method merged origin) "eth" ≡ some o)
    × Sees merged o on_eth
new_merged_method-Sees_example =
    new_merged_method-Sees merged origin origin-TypesWellFormed "eth" on_eth seen_on_eth

-- parameters, options and values are texts
abbrev handler : Handler String String
handler = record {
  handle_method_inputs = λ name from to p. ok p;
  handle_method_output = λ name from to v. ok v;
}

abbrev backend : Backend String String String String
backend = record {
  networks = ("net2", "eth") ∷ [];
  invoke = λ network method p opts. ok "0xt1";
  call = λ network method p opts. ok "7";
}

abbrev service : MergedService
service = record {
  methods = ("getCount", new_merged_method merged origin) ∷ [];
  spec_methods = ("getCount", merged) ∷ [];
}

invoke-call_lem_example :
    (conv : (String → Result Error String)) × (back : (String → Result Error String))
    × IsInputConversion handler merged origin "eth" on_eth conv
    × IsOutputConversion handler merged origin "eth" on_eth back
    × ((p : String) (opts : String)
        → (invoke backend handler service "net2" "getCount" p opts
            ≡ (conv p >>= λ q. backend.invoke "net2" "getCount" q opts))
          × (call backend handler service "net2" "getCount" p opts
              ≡ (conv p >>= λ q. backend.call "net2" "getCount" q opts >>= back)))
invoke-call_lem_example =
    invoke-call_lem backend handler merged origin on_eth service "net2" "getCount" "eth"
      origin-TypesWellFormed refl refl seen_on_eth
