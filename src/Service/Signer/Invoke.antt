-- ===== src/Service/Signer/Invoke.antt =====
-- Invoke of a SignerService (service/signer.go): which calls of the service below it makes.
use btp_sdk.Base.{
  ℕ, ◌≡◌, ◌≢◌, refl, ◌⊎◌, inl, inr, String, false, ◌||◌, some, List, str_eq, eq_iff, lookup,
  if◌then◌else◌, arith, Bool-cases,
}
use btp_sdk.Base.Results.{Result, ok, err, Result-cases}
use btp_sdk.Service.Signer.{
  InvokeOptions, Error, not_support_network_type, mismatch_signer, require_signature, other_error,
  Codec, Signer, is_empty_text, codec_of, prepare_to_sign, sign, sign_error, invoke,
}

-- Options that were encoded decode to what they were.
abbrev pub RoundTrip : {Options Rest : Type 0} → Codec Options Rest → Type 0
RoundTrip c = (o : _) (e : _) → c.encode o ≡ ok e → c.decode e ≡ ok o

module _ {Options Rest : Type 0} (icon eth : Codec Options Rest) where
  -- The options name a sender, the given one or else the signer, and are otherwise as given.
  abbrev pub IsPrepared : Options → Signer Options → Options → Type 0
  IsPrepared options s opt =
      (c : Codec Options Rest) × (i : InvokeOptions Rest) × (codec_of icon eth s.network_type
        ≡ ok c)
      × (c.decode options ≡ ok i)
      × (c.decode opt ≡ ok (record i { from = if is_empty_text i.from then s.address else i.from }))

  -- The options are those given, from the signer's address, with its signature of the data.
  abbrev pub IsSigned : List ℕ → Options → Signer Options → Options → Type 0
  IsSigned data_to_sign given s signed =
      (c : Codec Options Rest) × (i : InvokeOptions Rest) × (sig : List ℕ) × (codec_of icon eth
          s.network_type
        ≡ ok c)
      × (c.decode given ≡ ok i)
      × (i.from ≡ s.address)
      × (s.sign data_to_sign ≡ ok sig)
      × (c.decode signed ≡ ok (record i { signature = sig }))

  codec_of-RoundTrip :
      (nt : String) (c : Codec Options Rest)
      → RoundTrip icon
      → RoundTrip eth
      → codec_of icon eth nt ≡ ok c
      → RoundTrip c
  unfolding codec_of
  codec_of-RoundTrip nt c ri re h = elim (Bool-cases (str_eq nt "icon")) [
    | inl is_icon ↦ let p : icon ≡ c = ground (arith, is_icon) in rw (← p) ri
    | inr other ↦ elim (Bool-cases (str_eq nt "eth" || (str_eq nt "eth2" || str_eq nt "bsc"))) [
      | inl is_eth ↦ let p : eth ≡ c = ground (arith, other, is_eth) in rw (← p) re
      | inr neither ↦ absurd (ground (arith, other, neither))
    ]
  ]

  prepare_to_sign-IsPrepared :
      (options : Options) (s : Signer Options) (opt : Options)
      → RoundTrip icon
      → RoundTrip eth
      → prepare_to_sign icon eth options s false ≡ ok opt
      → IsPrepared options s opt
  unfolding prepare_to_sign
  prepare_to_sign-IsPrepared options s opt ri re h =
      elim (Result-cases (codec_of icon eth s.network_type)) [
        | inr (e, q) ↦ absurd (ground (arith, q))
        | inl (c, q) ↦ elim (Result-cases (c.decode options)) [
          | inr (e, r) ↦ absurd (ground (arith, q, r))
          | inl (i, r) ↦
              (c, i, q, r, codec_of-RoundTrip s.network_type c ri re q _ opt (ground (arith, q, r)))
        ]
      ]

  sign-IsSigned :
      (data_to_sign : List ℕ) (given : Options) (s : Signer Options) (signed : Options)
      → RoundTrip icon
      → RoundTrip eth
      → sign icon eth data_to_sign given s ≡ ok signed
      → IsSigned data_to_sign given s signed
  unfolding sign
  sign-IsSigned data_to_sign given s signed ri re h = elim (Result-cases (s.sign data_to_sign)) [
    | inr (e, q) ↦ absurd (ground (arith, q))
    | inl (sig, q) ↦ elim (Result-cases (codec_of icon eth s.network_type)) [
      | inr (e, r) ↦ absurd (ground (arith, q, r))
      | inl (c, r) ↦ elim (Result-cases (c.decode given)) [
        | inr (e, u) ↦ absurd (ground (arith, q, r, u))
        | inl (i, u) ↦ elim (Bool-cases (str_eq i.from s.address)) [
          | inr other ↦ absurd (ground (arith, q, r, u, other))
          | inl same ↦ (
            c,
            i,
            sig,
            r,
            u,
            (eq_iff i.from s.address).0 same,
            q,
            codec_of-RoundTrip s.network_type c ri re r _ signed (ground (arith, q, r, u, same)),
          )
        ]
      ]
    ]
  ]

  module _ {World Params TxId : Type 0}
      (backend : String
        → String
        → Params
        → Options
        → World
        → World × Result (Error Options) TxId) where
    -- How a call ends that was made with prepared options `opt` in the world `w`: with the answer of the
    -- service below, if that is no request for a signature; or else, with the data and options of
    -- the request, with the answer to a second call with signed options, or with an error and no
    -- second call, where nothing can be signed.
    abbrev pub Ends :
        Signer Options
        → String
        → String
        → Params
        → Options
        → World
        → World × Result (Error Options) TxId
        → Type 0
    Ends s network method params opt w result =
        let first = backend network method params opt w in
        ((result ≡ first) × ((d : List ℕ) (g : Options) → first.1 ≢ err (require_signature d g)))
        ⊎ ((d : List ℕ) × (g : Options) × (first.1 ≡ err (require_signature d g))
            × (((signed : Options) × IsSigned d g s signed
                  × (result ≡ backend network method params signed first.0))
                ⊎ ((e : Error Options) × (sign icon eth d g s ≡ err e)
                    × (result ≡ (first.0, err (sign_error icon eth (require_signature d g) e))))))

    -- the end of `invoke`, after the first call
    ends :
        (m : List (String × Signer Options)) (s : Signer Options) (network method : String)
        (params : Params) (options opt : Options) (w : World) (r : Result (Error Options) TxId)
        → RoundTrip icon
        → RoundTrip eth
        → lookup network m ≡ some s
        → prepare_to_sign icon eth options s false ≡ ok opt
        → (backend network method params opt w).1 ≡ r
        → Ends s network method params opt w
            (invoke icon eth backend m network method params options w)
    unfolding invoke
    ends m s network method params options opt w (ok tx) ri re found q h =
        inl (ground (arith, found, q, h), λ d g p. ground (arith, h, p))
    ends m s network method params options opt w (err (require_signature d g)) ri re found q h =
        elim (Result-cases (sign icon eth d g s)) [
          | inl (signed, u) ↦ inr (
            d,
            g,
            h,
            inl (signed, sign-IsSigned d g s signed ri re u, ground (arith, found, q, h, u)),
          )
          | inr (e, u) ↦ inr (d, g, h, inr (e, u, ground (arith, found, q, h, u)))
        ]
    ends m s network method params options opt w (err (not_support_network_type x)) ri re found q
          h =
        inl (ground (arith, found, q, h), λ d g p. ground (arith, h, p))
    ends m s network method params options opt w (err (mismatch_signer x)) ri re found q h =
        inl (ground (arith, found, q, h), λ d g p. ground (arith, h, p))
    ends m s network method params options opt w (err (other_error x)) ri re found q h =
        inl (ground (arith, found, q, h), λ d g p. ground (arith, h, p))

    -- Invoke on a network with a signer, where options decode to what was encoded: either the options
    -- cannot be prepared, and Invoke returns that error without a call of the service below; or it
    -- calls the service below once with options that name a sender, and a second time only if the
    -- service asks for a signature, with the options that the service gave, sent from the signer's
    -- address and with the signer's signature of the data that the service gave.
    pub invoke_cases :
        (m : List (String × Signer Options)) (s : Signer Options) (network method : String)
        (params : Params) (options : Options) (w : World)
        → RoundTrip icon
        → RoundTrip eth
        → lookup network m ≡ some s
        → ((e : Error Options) × (prepare_to_sign icon eth options s false ≡ err e)
            × (invoke icon eth backend m network method params options w ≡ (w, err e)))
          ⊎ ((opt : Options) × IsPrepared options s opt
              × Ends s network method params opt w
                  (invoke icon eth backend m network method params options w))
    unfolding invoke
    invoke_cases m s network method params options w ri re found =
        elim (Result-cases (prepare_to_sign icon eth options s false)) [
          | inr (e, q) ↦ inl (e, q, ground (arith, found, q))
          | inl (opt, q) ↦ inr (
            opt,
            prepare_to_sign-IsPrepared options s opt ri re q,
            ends m s network method params options opt w (backend network method params opt w).1 ri
                re found q refl,
          )
        ]
