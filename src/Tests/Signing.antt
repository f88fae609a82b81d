-- ===== src/Tests/Signing.antt =====
-- A service that asks for a signature of its first call. Options are InvokeOptions themselves, and
-- the world is the list of the options that were sent.
use btp_sdk.Base.{◌≡◌, refl, ◌⊎◌, String, false, List, [], ◌∷◌, arith}
use btp_sdk.Base.Results.{Result, ok, err}
use btp_sdk.Service.Signer.{
  InvokeOptions, Error, require_signature, Codec, Signer, prepare_to_sign, invoke,
}
use btp_sdk.Service.Signer.Invoke.{RoundTrip, IsPrepared, Ends, invoke_cases}

abbrev Sent : Type 0
Sent = InvokeOptions (Unit {0})

abbrev plain : Codec Sent (Unit {0})
plain = record { decode = λ e. ok e; encode = λ o. ok o }

plain-RoundTrip : RoundTrip plain
plain-RoundTrip = λ o e h. let p : o ≡ e = ground arith in rw p refl

abbrev wallet : Signer Sent
wallet = record { address = "hx1"; network_type = "icon"; sign = λ message. ok (1 ∷ message) }

abbrev asks_first :
    String → String → String → Sent → List Sent → List Sent × Result (Error Sent) String
asks_first network method params opt [] = (opt ∷ [], err (require_signature (7 ∷ []) opt))
asks_first network method params opt (o ∷ w) = (opt ∷ o ∷ w, ok "0xt1")

abbrev unsigned : Sent
unsigned = record { from = ""; signature = []; rest = tt }

invoke_cases_example :
    ((e : Error Sent) × (prepare_to_sign plain plain unsigned wallet false ≡ err e)
      × (invoke plain plain asks_first (("net1", wallet) ∷ []) "net1" "sendMessage" "{}" unsigned []
          ≡ ([], err e)))
    ⊎ ((opt : Sent) × IsPrepared plain plain unsigned wallet opt
        × Ends plain plain asks_first wallet "net1" "sendMessage" "{}" opt [] (
            invoke plain plain asks_first
              (("net1", wallet) ∷ [])
              "net1"
              "sendMessage"
              "{}"
              unsigned
              []))
invoke_cases_example =
    invoke_cases plain plain asks_first (("net1", wallet) ∷ []) wallet "net1" "sendMessage" "{}"
      unsigned [] plain-RoundTrip plain-RoundTrip refl
