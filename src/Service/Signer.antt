-- ===== src/Service/Signer.antt =====
-- service/signer.go: PrepareToSign, Sign and Invoke of the SignerService. The wallet of a signer, the
-- codecs of the options and the service below are parameters. The two InvokeOptions of the
-- source, of ICON and of Ethereum, have the fields From and Signature, which the service reads;
-- `Rest` is what else they hold. An Invoke of the service below takes and returns a world.
pub mod Invoke
use btp_sdk.Base.{
  ℕ, String, Bool, true, false, not, ◌&&◌, ◌||◌, Option, none, some, List, [], ◌∷◌, str_eq, lookup,
  if◌then◌else◌,
}
use btp_sdk.Base.Results.{Result, ok, err, ◌>>=◌}

pub record InvokeOptions (Rest : Type 0) : Type 0 where
  pub from : String
  pub signature : List ℕ
  pub rest : Rest

-- `require_signature data options` is contract.RequireSignatureError.
pub data Error (Options : Type 0) : Type 0 where
  not_support_network_type : String → Error Options
  mismatch_signer : String → Error Options
  require_signature : List ℕ → Options → Error Options
  other_error : String → Error Options

-- `contract.DecodeOptions` and `contract.EncodeOptions` for one of the InvokeOptions
pub record Codec (Options Rest : Type 0) : Type 0 where
  pub decode : Options → Result (Error Options) (InvokeOptions Rest)
  pub encode : InvokeOptions Rest → Result (Error Options) Options

pub record Signer (Options : Type 0) : Type 0 where
  pub address : String
  pub network_type : String
  pub sign : List ℕ → Result (Error Options) (List ℕ)

abbrev pub is_empty_text : String → Bool
is_empty_text s = str_eq s ""

module _ {Options Rest : Type 0} (icon eth : Codec Options Rest) where
  -- the `switch` over the network type
  unfoldable pub codec_of : String → Result (Error Options) (Codec Options Rest)
  codec_of nt =
      if str_eq nt "icon"
      then ok icon
      else if str_eq nt "eth" || (str_eq nt "eth2" || str_eq nt "bsc")
      then ok eth
      else err (not_support_network_type nt)

  -- `PrepareToSign`
  unfoldable pub prepare_to_sign : Options → Signer Options → Bool → Result (Error Options) Options
  unfolding codec_of
  prepare_to_sign options s force = codec_of s.network_type >>= λ c. c.decode options >>= λ opt.
      c.encode (record opt {
        from = if force || is_empty_text opt.from then s.address else opt.from;
        signature = if force then [] else opt.signature;
      })

  -- `Sign`
  unfoldable pub sign : List ℕ → Options → Signer Options → Result (Error Options) Options
  unfolding codec_of
  sign data_to_sign options s = s.sign data_to_sign >>= λ sig. codec_of s.network_type >>= λ c.
      c.decode options >>= λ opt.
      if str_eq opt.from s.address
      then c.encode (record opt { signature = sig })
      else err (mismatch_signer opt.from)

  -- the error that `Invoke` returns where `Sign` fails
  unfoldable pub sign_error : Error Options → Error Options → Error Options
  sign_error required (mismatch_signer from) = required
  sign_error required e = e

  module _ {World Params TxId : Type 0} where
    -- `Invoke`, where `backend` is that of the service below
    unfoldable pub invoke :
        (String → String → Params → Options → World → World × Result (Error Options) TxId)
        → List (String × Signer Options)
        → String
        → String
        → Params
        → Options
        → World
        → World × Result (Error Options) TxId
    unfolding prepare_to_sign sign sign_error
    invoke backend m network method params options w = elim (lookup network m) [
      | none ↦ backend network method params options w
      | some s ↦ elim (prepare_to_sign options s false) [
        | err e ↦ (w, err e)
        | ok opt ↦
            let first = backend network method params opt w in
            elim first.1 [
              | ok tx ↦ first
              | err (require_signature data_to_sign given) ↦ elim (sign data_to_sign given s) [
                | err e ↦ (first.0, err (sign_error (require_signature data_to_sign given) e))
                | ok signed ↦ backend network method params signed first.0
              ]
              | err e ↦ first
            ]
      ]
    ]
