-- ===== src/Service/Default/Dispatch.antt =====
-- NewMultiContractService: which handler answers for a name.
use btp_sdk.Base.{
  ◌≡◌, refl, ◌↔◌, ◌⊎◌, inl, inr, String, some, List, [], ◌∷◌, ◌++◌, Has, Has-append_left,
  Has-append_right, Has-append_cases, str_eq, eq_iff, eq_refl, lookup, arith, ap, ◌∙◌, sym,
  Bool-cases, Option-cases,
}
use btp_sdk.Base.Results.{Result, ok, Result-cases}
use mathlib.Core.Path.{subst}
use btp_sdk.Service.Default.{
  Error, duplicated_method, duplicated_event, Handler, Handlers, add_names, add_handler,
  add_handlers,
}

module _ {Params TxId Value Filter : Type 0} where
  -- the names of a contract
  abbrev pub names : Handler Params TxId Value Filter → List String
  names h = h.methods ++ h.events

  -- What adding a handler under names does to the map.
  abbrev Added :
      List String
      → Handler Params TxId Value Filter
      → (Handlers (Handler Params TxId Value Filter))
      → (Handlers (Handler Params TxId Value Filter))
      → Type 0
  Added ns h m m' =
      ((n : String) → Has n ns → lookup n m' ≡ some h)
      × ((n : String) (g : Handler Params TxId Value Filter)
          → lookup n m ≡ some g
          → lookup n m' ≡ some g)
      × ((n : String) (g : Handler Params TxId Value Filter)
          → lookup n m' ≡ some g
          → (lookup n m ≡ some g) ⊎ ((g ≡ h) × Has n ns))

  add_names-Added :
      (e : String → Error) (ns : List String) (h : Handler Params TxId Value Filter)
      (m m' : (Handlers (Handler Params TxId Value Filter)))
      → add_names e ns h m ≡ ok m'
      → Added ns h m m'
  unfolding add_names
  add_names-Added e [] h m m' q =
      let same : m ≡ m' = ground (arith, q) in
      subst (Added [] h m) same ((λ n x. absurd x), (λ n g x. x), (λ n g x. inl x))
  add_names-Added e (k ∷ ns) h m m' q = elim (Option-cases (lookup k m)) [
    | inr (other, f) ↦ absurd (ground (arith, q, f))
    | inl f ↦
        let rest = add_names-Added e ns h ((k, h) ∷ m) m' (ground (arith, q, f)) in
        (
          (λ n x. elim x [
            | inl same ↦ rest.1 n h (ground (arith, same, eq_refl n, ap (λ z. str_eq z n) same))
            | inr later ↦ rest.0 n later
          ]),
          (λ n g x. rest.1 n g (ground (arith, x, f, eq_iff k n, ap (λ z. lookup z m)))),
          λ n g x. elim (rest.2 n g x) [
            | inl before ↦ elim (Bool-cases (str_eq k n)) [
              | inl same ↦ inr (ground (arith, before, same), inl ((eq_iff k n).0 same))
              | inr differ ↦ inl (ground (arith, before, differ))
            ]
            | inr (eq, later) ↦ inr (eq, inr later)
          ],
        )
  ]

  Added-both :
      (ns ks : List String) (h : Handler Params TxId Value Filter)
      (m m1 m' : (Handlers (Handler Params TxId Value Filter)))
      → Added ns h m m1
      → Added ks h m1 m'
      → Added (ns ++ ks) h m m'
  Added-both ns ks h m m1 m' a b = (
    (λ n x. elim (Has-append_cases n ns ks x) [ inl l ↦ b.1 n h (a.0 n l) | inr r ↦ b.0 n r ]),
    (λ n g x. b.1 n g (a.1 n g x)),
    λ n g x. elim (b.2 n g x) [
      | inl before ↦ elim (a.2 n g before) [
        | inl y ↦ inl y
        | inr (eq, l) ↦ inr (eq, Has-append_left n ns ks l)
      ]
      | inr (eq, r) ↦ inr (eq, Has-append_right n ns ks r)
    ],
  )

  add_handler-Added :
      (h : Handler Params TxId Value Filter) (m m' : (Handlers (Handler Params TxId Value Filter)))
      → add_handler h m ≡ ok m'
      → Added (names h) h m m'
  unfolding add_handler
  add_handler-Added h m m' q = elim (Result-cases (add_names duplicated_method h.methods h m)) [
    | inr (x, e) ↦ absurd (ground (arith, q, e))
    | inl (m1, e) ↦
        Added-both h.methods h.events h m m1 m'
          (add_names-Added duplicated_method h.methods h m m1 e)
          (add_names-Added duplicated_event h.events h m1 m' (ground (arith, q, e)))
  ]

  -- A contract of the list has the name, and its handler is `h`.
  abbrev pub Owns :
      (String → String → Result Error (Handler Params TxId Value Filter))
      → List (String × String)
      → String
      → Handler Params TxId Value Filter
      → Type 0
  Owns adaptor contracts n h =
      (addr : String) × (spec : String) × Has (addr, spec) contracts
      × (adaptor spec addr ≡ ok h)
      × Has n (names h)

  module _ (adaptor : String → String → Result Error (Handler Params TxId Value Filter)) where
    handlers-Owns :
        (contracts : List (String × String)) (m m' : (Handlers (Handler Params TxId Value Filter)))
        → add_handlers adaptor contracts m ≡ ok m'
        → ((n : String) (h : Handler Params TxId Value Filter)
            → Owns adaptor contracts n h
            → lookup n m' ≡ some h)
          × ((n : String) (g : Handler Params TxId Value Filter)
              → lookup n m ≡ some g
              → lookup n m' ≡ some g)
          × ((n : String) (g : Handler Params TxId Value Filter)
              → lookup n m' ≡ some g
              → (lookup n m ≡ some g) ⊎ Owns adaptor contracts n g)
    unfolding add_handlers
    handlers-Owns [] m m' q =
        let same : m ≡ m' = ground (arith, q) in
        (
          (λ n h o. absurd (o.2)),
          (λ n g x. ap (lookup n) (sym same) ∙ x),
          λ n g x. inl (ap (lookup n) same ∙ x),
        )
    handlers-Owns ((addr, spec) ∷ cs) m m' q = elim (Result-cases (adaptor spec addr)) [
      | inr (x, e) ↦ absurd (ground (arith, q, e))
      | inl (h, e) ↦ elim (Result-cases (add_handler h m)) [
        | inr (x, f) ↦ absurd (ground (arith, q, e, f))
        | inl (m1, f) ↦
            let a = add_handler-Added h m m1 f in
            let b = handlers-Owns cs m1 m' (ground (arith, q, e, f)) in
            (
              (λ n g o. elim o.2 [
                | inl here ↦
                    let known : adaptor spec addr ≡ ok g = ap (λ z. adaptor z.1 z.0) here ∙ o.3 in
                    let same : h ≡ g = ground (arith, e, known) in
                    b.1 n g (a.0 n (subst (λ z. Has n (names z)) (sym same) o.4) ∙ ap some same)
                | inr later ↦ b.0 n g (o.0, o.1, later, o.3, o.4)
              ]),
              (λ n g x. b.1 n g (a.1 n g x)),
              λ n g x. elim (b.2 n g x) [
                | inl before ↦ elim (a.2 n g before) [
                  | inl y ↦ inl y
                  | inr (eq, l) ↦ inr (
                    addr,
                    spec,
                    inl refl,
                    e ∙ ap ok (sym eq),
                    subst (λ z. Has n (names z)) (sym eq) l,
                  )
                ]
                | inr o ↦ inr (o.0, o.1, inr o.2, o.3, o.4)
              ],
            )
      ]
    ]

    -- The handlers of a network answer for a name exactly if a contract of the network has a method or
    -- an event of this name, and the answer is that contract's handler.
    pub handlers_iff :
        (contracts : List (String × String)) (m : Handlers (Handler Params TxId Value Filter))
        → add_handlers adaptor contracts [] ≡ ok m
        → (n : String) (h : Handler Params TxId Value Filter)
        → (lookup n m ≡ some h) ↔ Owns adaptor contracts n h
    handlers_iff contracts m q n h =
        let all = handlers-Owns contracts [] m q in
        ((λ x. elim (all.2 n h x) [ inl y ↦ absurd (ground (arith, y)) | inr o ↦ o ]), all.0 n h)
