-- ===== src/Service/Default/Filters.antt =====
-- EventFilters: the filters that a request for several events asks for.
use btp_sdk.Base.{
  ◌≡◌, refl, ap, String, Option, none, some, List, [], ◌∷◌, ◌++◌, map, arith, inl, inr,
}
use mathlib.Core.Path.{subst}
use btp_sdk.Base.Results.{Result, ok, ◌>>=◌, Result-cases}
use btp_sdk.Service.Default.{Error, Handler, or_nil, filters_of, event_filters}

-- The pairs of a name and parameters, in order; a name without parameters stands alone.
abbrev pub requests : {A : Type 0} → List (String × List A) → List (String × Option A)
requests [] = []
requests ((name, []) ∷ rest) = (name, none) ∷ requests rest
requests ((name, p ∷ ps) ∷ rest) = (name, some p) ∷ map (λ q. (name, some q)) ps ++ requests rest

module _ {Params TxId Value Filter : Type 0}
    (hs : String → Result Error (Handler Params TxId Value Filter)) where
  abbrev pub each : List (String × Option Params) → Result Error (List Filter)
  each [] = ok []
  each ((name, p) ∷ rs) =
      hs name >>= λ h. h.event_filter name p >>= λ ef. each rs >>= λ efs. ok (ef ∷ efs)

  map-some :
      (name : String) (ps : List Params)
      → map {B = String × Option Params} (λ p. (name, p)) (map some ps)
        ≡ map {B = String × Option Params} (λ q. (name, some q)) ps
  map-some name [] = refl
  map-some name (p ∷ ps) = ap (◌∷◌ (name, some p)) (map-some name ps)

  -- what comes after the filters of one name
  abbrev then_more :
      Result Error (List Filter) → Result Error (List Filter) → Result Error (List Filter)
  then_more c rest = c >>= λ efs. rest >>= λ more. ok (efs ++ more)

  each-append :
      (name : String) (h : Handler Params TxId Value Filter) (ps : List (Option Params))
      (rs : List (String × Option Params))
      → hs name ≡ ok h
      → each (map (λ p. (name, p)) ps ++ rs) ≡ then_more (filters_of h name ps) (each rs)
  unfolding filters_of
  each-append name h [] rs e = elim (Result-cases (each rs)) [
    | inl (efs, q) ↦ rw q refl
    | inr (x, q) ↦ rw q refl
  ]
  each-append name h (p ∷ ps) rs e = elim (Result-cases (h.event_filter name p)) [
    | inr (x, q) ↦ ground (arith, e, q)
    | inl (ef, q) ↦ elim (Result-cases (filters_of h name ps)) [
      | inr (x, f) ↦ ground (arith, e, q, f, each-append name h ps rs e)
      | inl (efs, f) ↦ elim (Result-cases (each rs)) [
        | inr (x, g) ↦ ground (arith, e, q, f, g, each-append name h ps rs e)
        | inl (more, g) ↦ ground (arith, e, q, f, g, each-append name h ps rs e)
      ]
    ]
  ]

  requests-or_nil :
      (name : String) (l : List Params) (rest : List (String × List Params))
      → map (λ p. (name, p)) (or_nil l) ++ requests rest ≡ requests ((name, l) ∷ rest)
  requests-or_nil name [] rest = refl
  requests-or_nil name (p ∷ ps) rest =
      ap (λ x. (name, some p) ∷ x ++ requests rest) (map-some name ps)

  -- `EventFilters` gives one filter for each name and each of its parameters (for the name alone, if it
  -- has none), in order, each from the handler of its name; the first error ends it.
  pub event_filters-requests :
      (l : List (String × List Params)) → event_filters hs l ≡ each (requests l)
  unfolding event_filters
  event_filters-requests [] = refl
  event_filters-requests ((name, l) ∷ rest) = elim (Result-cases (hs name)) [
    | inl (h, e) ↦
        let one = each-append name h (or_nil l) (requests rest) e in
        subst (λ rs. event_filters hs ((name, l) ∷ rest) ≡ each rs) (requests-or_nil name l rest)
          (ground (arith, e, one, event_filters-requests rest))
    | inr (x, e) ↦ elim l [ [] ↦ ground (arith, e) | p ∷ ps ↦ ground (arith, e) ]
  ]
