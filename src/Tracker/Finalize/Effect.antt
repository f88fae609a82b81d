-- ===== src/Tracker/Finalize/Effect.antt =====
-- finalizeBlock: which blocks and events are marked, and what a block that is gone does.
use btp_sdk.Base.{
  ◌≡◌, inl, inr, ◌≤◌, ℕ, String, Bool, true, false, List, [], ◌∷◌, Has, ◌==◌, ==_refl, eq_iff,
  arith, Bool-cases, ap, ◌∙◌, sym,
}
use btp_sdk.Base.Results.{Result, ok, err, Result-cases}
use mathlib.Core.Path.{subst}
use btp_sdk.Finality.Verdict.{Error as FinalityError, not_found_block}
use btp_sdk.Rows.{filter, update_where, check}
use btp_sdk.Rows.Laws.{Has-update, Verdict-cases, Has-filter, update_where-none}
use btp_sdk.Tracker.Event.{BtpEvent}
use btp_sdk.Tracker.Store.{Block}
use btp_sdk.Tracker.Finalize.{
  Database, IsDatabase, program_ended, block_column, is_in, block_ids, mark_event, finalize_event,
  drop_block, finalize_rows, finalize_block,
}

is_in-block_ids : (b : Block) (bs : List Block) → Has b bs → is_in b.id (block_ids bs) ≡ true
is_in-block_ids b [] h = absurd h
is_in-block_ids b (x ∷ bs) (inl e) =
    ground (arith, e, ==_refl b.id, ap (λ y. y.id == b.id) e, ap (λ y. b.id == y.id) e)
is_in-block_ids b (x ∷ bs) (inr h) = ground (arith, is_in-block_ids b bs h)

-- what marking the blocks that match the query makes of the two tables
abbrev blocks_marked : String → ℕ → List Block → List Block
blocks_marked na h bs =
    update_where (λ x. is_in x.id (block_ids (filter (block_column na h).query bs)))
      (block_column na h).mark bs

abbrev events_marked : String → ℕ → List Block → List BtpEvent → List BtpEvent
events_marked na h bs es =
    update_where (λ e. is_in e.block_id (block_ids (filter (block_column na h).query bs)))
      mark_event es

matches :
    (na : String) (h : ℕ) (b : Block)
    → b.network_address ≡ na
    → 1 ≤ b.height
    → b.height ≤ h
    → b.finalized ≡ false
    → (block_column na h).query b ≡ true
matches na h b n low high new = ground (arith, n, low, high, new, eq_iff b.network_address na)

marked_block :
    (na : String) (h : ℕ) (b : Block) (bs : List Block)
    → Has b (blocks_marked na h bs)
    → b.network_address ≡ na
    → 1 ≤ b.height
    → b.height ≤ h
    → b.finalized ≡ true
marked_block na h b bs has n low high =
    let ids = block_ids (filter (block_column na h).query bs) in
    let (x, hx, same) = Has-update (λ y. is_in y.id ids) (block_column na h).mark b bs has in
    elim (Bool-cases (is_in x.id ids)) [
      | inl y ↦ ground (arith, same, y)
      | inr y ↦
          let kept : x ≡ b = ground (arith, same, y) in
          elim (Bool-cases b.finalized) [
            | inl f ↦ f
            | inr f ↦ absurd (
                ground (
                  arith,
                  y,
                  kept,
                  ap (λ z. is_in z.id ids) kept,
                  is_in-block_ids b (filter (block_column na h).query bs) (
                      Has-filter (block_column na h).query b bs (subst (λ z. Has z bs) kept hx)
                        (matches na h b n low high f)),
                ))
          ]
    ]

marked_event :
    (na : String) (h : ℕ) (b : Block) (e : BtpEvent) (bs : List Block) (es : List BtpEvent)
    → Has b bs
    → b.network_address ≡ na
    → 1 ≤ b.height
    → b.height ≤ h
    → b.finalized ≡ false
    → Has e (events_marked na h bs es)
    → e.block_id ≡ b.id
    → e.finalized ≡ true
marked_event na h b e bs es hb n low high new has of =
    let ids = block_ids (filter (block_column na h).query bs) in
    let chosen : is_in b.id ids ≡ true =
      is_in-block_ids b (filter (block_column na h).query bs)
        (Has-filter (block_column na h).query b bs hb (matches na h b n low high new)) in
    let (x, hx, same) = Has-update (λ y. is_in y.block_id ids) mark_event e es has in
    elim (Bool-cases (is_in x.block_id ids)) [
      | inl y ↦ ground (arith, same, y)
      | inr y ↦
          let kept : x ≡ e = ground (arith, same, y) in
          absurd (
            ground
              (arith, y, chosen, ap (λ z. is_in z.block_id ids) kept, ap (λ k. is_in k ids) of))
    ]

module _ (d : Database) (is_finalized : ℕ → String → Result FinalityError Bool) where
  open d use {Store, blocks, events}

  abbrev Effect : String → ℕ → Store → Store → Type 0
  Effect na h s s' =
      (blocks.rows s' ≡ blocks_marked na h (blocks.rows s))
      × (events.rows s' ≡ events_marked na h (blocks.rows s) (events.rows s))

  Effect-none :
      (na : String) (h : ℕ) (s : Store)
      → [] ≡ filter (block_column na h).query (blocks.rows s)
      → Effect na h s s
  Effect-none na h s e = (
    sym (
        update_where-none _ (block_column na h).mark
          (λ x. ap (λ l. is_in x.id (block_ids l)) (sym e)) (blocks.rows s)),
    sym (
        update_where-none _ mark_event (λ x. ap (λ l. is_in x.block_id (block_ids l)) (sym e))
          (events.rows s)),
  )

  finalize_rows-Effect :
      (na : String) (h : ℕ) (s s' : Store)
      → IsDatabase d
      → finalize_rows d is_finalized na h s ≡ ok s'
      → Effect na h s s'
  unfolding finalize_rows finalize_event drop_block
  finalize_rows-Effect na h s s' laws q =
      elim (Result-cases (blocks.find (block_column na h).query s)) [
        | inr (x, e) ↦ absurd (ground (arith, q, e))
        | inl ([], e) ↦
            let same : s ≡ s' = ground (arith, q, e) in
            subst (Effect na h s) same (Effect-none na h s (laws.block_rows.found _ s [] e))
        | inl (b ∷ bs, e) ↦ elim (Verdict-cases (check is_finalized (block_column na h) (b ∷ bs))) [
          | inr (inl (x, v)) ↦ absurd (ground (arith, q, e, v))
          | inr (inr (x, v)) ↦ absurd (ground (arith, q, e, v))
          | inl v ↦
              elim (Result-cases
                (blocks.update (λ x. is_in x.id (block_ids (b ∷ bs))) (block_column na h).mark s)) [
                  | inr (x, u) ↦ absurd (ground (arith, q, e, v, u))
                  | inl (s1, u) ↦
                      elim (Result-cases (
                        events.update (λ x. is_in x.block_id (block_ids (b ∷ bs))) mark_event s1)) [
                          | inr (x, w) ↦ absurd (ground (arith, q, e, v, u, w))
                          | inl (s2, w) ↦
                              let same : s2 ≡ s' = ground (arith, q, e, v, u, w) in
                              let l = laws.block_rows.found _ s (b ∷ bs) e in
                              (
                                ap blocks.rows (sym same)
                                    ∙ laws.events_apart.kept_by_update _ _ s1 s2 w
                                    ∙ laws.block_rows.updated _ _ s s1 u
                                    ∙ ap
                                        (λ k.
                                          update_where (λ x. is_in x.id (block_ids k))
                                            (block_column na h).mark (blocks.rows s))
                                        l,
                                ap events.rows (sym same)
                                    ∙ laws.event_rows.updated _ _ s1 s2 w
                                    ∙ ap
                                        (update_where (λ x. is_in x.block_id (block_ids (b ∷ bs)))
                                          mark_event)
                                        (laws.blocks_apart.kept_by_update _ _ s s1 u)
                                    ∙ ap
                                        (λ k.
                                          update_where (λ x. is_in x.block_id (block_ids k))
                                            mark_event (events.rows s))
                                        l,
                              )
                        ]
                ]
        ]
      ]

  finalize_block-Effect :
      (na : String) (h : ℕ) (s s' : Store)
      → IsDatabase d
      → finalize_block d is_finalized na h s ≡ ok s'
      → Effect na h s s'
  unfolding finalize_block
  finalize_block-Effect na h s s' laws q =
      elim (Result-cases (finalize_rows d is_finalized na h s)) [
        | inr (x, e) ↦ absurd (ground (arith, q, e))
        | inl (s1, e) ↦ elim (Result-cases (d.commit s1)) [
          | inr (x, c) ↦ absurd (ground (arith, q, e, c))
          | inl (s2, c) ↦
              let same : s2 ≡ s' = ground (arith, q, e, c) in
              subst (Effect na h s) (sym (laws.committed s1 s2 c) ∙ same)
                (finalize_rows-Effect na h s s1 laws e)
        ]
      ]

  -- After `finalizeBlock` for a block of height `h` has returned without an error, every stored block of
  -- the network between 1 and `h` is marked, and so is every stored event of a block that was not
  -- marked before.
  pub finalize_block-marks :
      (na : String) (h : ℕ) (s s' : Store)
      → IsDatabase d
      → finalize_block d is_finalized na h s ≡ ok s'
      → ((b : Block)
          → Has b (blocks.rows s')
          → b.network_address ≡ na
          → 1 ≤ b.height
          → b.height ≤ h
          → b.finalized ≡ true)
        × ((b : Block) (e : BtpEvent)
            → Has b (blocks.rows s)
            → b.network_address ≡ na
            → 1 ≤ b.height
            → b.height ≤ h
            → b.finalized ≡ false
            → Has e (events.rows s')
            → e.block_id ≡ b.id
            → e.finalized ≡ true)
  finalize_block-marks na h s s' laws q =
      let effect = finalize_block-Effect na h s s' laws q in
      (
        λ b has n low high.
            marked_block na h b (blocks.rows s) (subst (Has b) effect.0 has) n low high,
        λ b e hb n low high new he of.
            marked_event na h b e (blocks.rows s) (events.rows s) hb n low high new
              (subst (Has e) effect.1 he) of,
      )

  -- Where the first block that is not marked is gone from the chain, `finalizeBlock` ends the program.
  pub finalize_block-gone :
      (na : String) (h : ℕ) (s : Store) (b : Block) (bs : List Block)
      → blocks.find (block_column na h).query s ≡ ok (b ∷ bs)
      → is_finalized b.height b.block_id ≡ err not_found_block
      → finalize_block d is_finalized na h s ≡ err program_ended
  unfolding finalize_block finalize_rows check drop_block
  finalize_block-gone na h s b bs q g = ground (arith, q, g)
