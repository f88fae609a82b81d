-- ===== src/AutoCaller/Finalize/Drops.antt =====
-- dropBlock: what is left of the two tables.
use btp_sdk.Base.{
  ◌≡◌, inl, inr, ◌≤◌, ◌<◌, ℕ, String, Bool, List, All, Has, All-Has, not, arith, ap, ◌∙◌, str_eq,
  eq_iff,
}
use btp_sdk.Base.Results.{Result, ok, err, Result-cases}
use mathlib.Core.Path.{subst}
use btp_sdk.Rows.{update_where, delete_where, filter, from_database}
use btp_sdk.Rows.Laws.{All-update, All-delete, All-any, filter-update, filter-delete}
use btp_sdk.AutoCaller.CallRow.{Call}
use btp_sdk.AutoCaller.RollbackRow.{Rollback}
use btp_sdk.AutoCaller.Finalize.{
  Database, IsDatabase, call_as_sending, rollback_as_sending, rollback_as_none, call_event_from,
  call_block_from, rollback_trigger_from, rollback_event_from, rollback_block_from, drop_block,
}

-- what `dropBlock` makes of the rows of the two tables
abbrev calls_below : String → ℕ → List Call → List Call
calls_below network h cs =
    update_where (call_block_from network h) call_as_sending
      (delete_where (call_event_from network h) cs)

abbrev rollbacks_below : String → ℕ → List Rollback → List Rollback
rollbacks_below network h rs = update_where (rollback_block_from network h) rollback_as_sending (
    update_where (rollback_event_from network h) rollback_as_none
      (delete_where (rollback_trigger_from network h) rs))

last_write : {A : Type 0} (r : Result String A) (a : A) → from_database r ≡ ok a → r ≡ ok a
last_write (ok x) a q = ground (arith, q)
last_write (err e) a q = absurd (ground (arith, q))

drop_block-rows :
    (d : Database) (network : String) (h : ℕ) (s s' : d.Store)
    → IsDatabase d
    → drop_block d network h s ≡ ok s'
    → (d.calls.rows s' ≡ calls_below network h (d.calls.rows s))
      × (d.rollbacks.rows s' ≡ rollbacks_below network h (d.rollbacks.rows s))
unfolding drop_block
drop_block-rows d network h s s' laws q =
    elim (Result-cases (d.calls.delete (call_event_from network h) s)) [
      | inr (x, e1) ↦ absurd (ground (arith, q, e1))
      | inl (s1, e1) ↦
          elim (Result-cases (d.calls.update (call_block_from network h) call_as_sending s1)) [
            | inr (x, e2) ↦ absurd (ground (arith, q, e1, e2))
            | inl (s2, e2) ↦
                elim (Result-cases (d.rollbacks.delete (rollback_trigger_from network h) s2)) [
                  | inr (x, e3) ↦ absurd (ground (arith, q, e1, e2, e3))
                  | inl (s3, e3) ↦
                      elim (Result-cases
                        (d.rollbacks.update (rollback_event_from network h) rollback_as_none s3)) [
                          | inr (x, e4) ↦ absurd (ground (arith, q, e1, e2, e3, e4))
                          | inl (s4, e4) ↦
                              let e5 : d.rollbacks.update (rollback_block_from network h)
                                    rollback_as_sending s4
                                  ≡ ok s' =
                                last_write _ s' (ground (arith, q, e1, e2, e3, e4)) in
                              let kept : d.calls.rows s' ≡ d.calls.rows s2 =
                                laws.rollbacks_apart.kept_by_update _ _ s4 s' e5
                                ∙ laws.rollbacks_apart.kept_by_update _ _ s3 s4 e4
                                ∙ laws.rollbacks_apart.kept_by_delete _ s2 s3 e3 in
                              let before : d.rollbacks.rows s2 ≡ d.rollbacks.rows s =
                                laws.calls_apart.kept_by_update _ _ s1 s2 e2
                                ∙ laws.calls_apart.kept_by_delete _ s s1 e1 in
                              (
                                kept
                                    ∙ laws.call_rows.updated _ _ s1 s2 e2
                                    ∙ ap (update_where (call_block_from network h) call_as_sending)
                                        (laws.call_rows.deleted _ s s1 e1),
                                laws.rollback_rows.updated _ _ s4 s' e5
                                    ∙ ap
                                        (update_where (rollback_block_from network h)
                                          rollback_as_sending)
                                        (laws.rollback_rows.updated _ _ s3 s4 e4
                                          ∙ ap
                                              (update_where (rollback_event_from network h)
                                                rollback_as_none)
                                              (laws.rollback_rows.deleted _ s2 s3 e3
                                                ∙ ap
                                                    (delete_where (rollback_trigger_from network h))
                                                    before)),
                              )
                        ]
                ]
          ]
    ]

calls_below-All :
    (network : String) (h : ℕ) (cs : List Call)
    → 1 ≤ h
    → All
        (λ c. c.task.network ≡ network → (c.event_height < h) × (c.task.block_height < h))
        (calls_below network h cs)
calls_below-All network h cs pos =
    All-update (call_block_from network h) call_as_sending
      (λ c p y n. ground (arith, p, y, n, eq_iff c.task.network network, pos))
      (λ c p y n. ground (arith, p, y, n, eq_iff c.task.network network)) _
      (All-delete (λ c. Unit {0}) (call_event_from network h) cs (All-any cs))

rollbacks_below-All :
    (network : String) (h : ℕ) (rs : List Rollback)
    → 1 ≤ h
    → All
        (λ r.
          r.task.network ≡ network
          → (r.trigger_height < h) × (r.event_height < h) × (r.task.block_height < h))
        (rollbacks_below network h rs)
rollbacks_below-All network h rs pos =
    All-update {P = λ r. r.task.network ≡ network → (r.trigger_height < h) × (r.event_height < h)}
      (rollback_block_from network h) rollback_as_sending
      (λ r p y n. ground (arith, p, y, n, eq_iff r.task.network network, pos))
      (λ r p y n. ground (arith, p, y, n, eq_iff r.task.network network)) _
      (All-update (rollback_event_from network h) rollback_as_none
        (λ r p y n. ground (arith, p, y, n, eq_iff r.task.network network, pos))
        (λ r p y n. ground (arith, p, y, n, eq_iff r.task.network network)) _
        (All-delete (λ r. Unit {0}) (rollback_trigger_from network h) rs (All-any rs)))

-- After `dropBlock` at a height `h` of at least 1, every call of the network that is left has its
-- event and its transaction below `h`, and every rollback its trigger, its event and its
-- transaction (a height that was reset counts as 0).
pub drop_block-below :
    (d : Database) (network : String) (h : ℕ) (s s' : d.Store)
    → IsDatabase d
    → 1 ≤ h
    → drop_block d network h s ≡ ok s'
    → ((c : Call)
        → Has c (d.calls.rows s')
        → c.task.network ≡ network
        → (c.event_height < h) × (c.task.block_height < h))
      × ((r : Rollback)
          → Has r (d.rollbacks.rows s')
          → r.task.network ≡ network
          → (r.trigger_height < h) × (r.event_height < h) × (r.task.block_height < h))
drop_block-below d network h s s' laws pos q =
    let (ec, er) = drop_block-rows d network h s s' laws q in
    (
      λ c has n.
          All-Has _ c _ (calls_below-All network h (d.calls.rows s) pos) (subst (Has c) ec has) n,
      λ r has n.
          All-Has _ r _ (rollbacks_below-All network h (d.rollbacks.rows s) pos)
            (subst (Has r) er has) n,
    )

abbrev call_of_others : String → Call → Bool
call_of_others network c = not (str_eq c.task.network network)

abbrev rollback_of_others : String → Rollback → Bool
rollback_of_others network r = not (str_eq r.task.network network)

-- `dropBlock` leaves the calls and rollbacks of all other networks as they are.
pub drop_block-others :
    (d : Database) (network : String) (h : ℕ) (s s' : d.Store)
    → IsDatabase d
    → drop_block d network h s ≡ ok s'
    → (filter (λ c. not (str_eq c.task.network network)) (d.calls.rows s')
        ≡ filter (λ c. not (str_eq c.task.network network)) (d.calls.rows s))
      × (filter (λ r. not (str_eq r.task.network network)) (d.rollbacks.rows s')
          ≡ filter (λ r. not (str_eq r.task.network network)) (d.rollbacks.rows s))
drop_block-others d network h s s' laws q =
    let (ec, er) = drop_block-rows d network h s s' laws q in
    let fc = call_of_others network in
    let fr = rollback_of_others network in
    (
      ap (filter fc) ec
          ∙ filter-update fc (call_block_from network h) call_as_sending (λ c y. ground (arith, y))
              _
          ∙ filter-delete fc (call_event_from network h) (λ c y. ground (arith, y))
              (d.calls.rows s),
      ap (filter fr) er
          ∙ filter-update fr (rollback_block_from network h) rollback_as_sending
              (λ r y. ground (arith, y)) _
          ∙ filter-update fr (rollback_event_from network h) rollback_as_none
              (λ r y. ground (arith, y)) _
          ∙ filter-delete fr (rollback_trigger_from network h) (λ r y. ground (arith, y))
              (d.rollbacks.rows s),
    )

-- `dropBlock` at a height `h` of at least 1 leaves the calls and rollbacks of all other networks as
-- they are. Of its own network every call that is left has its event and its transaction below
-- `h`, and every rollback its trigger, its event and its transaction (a height that was reset
-- counts as 0).
pub drop_block_lem :
    (d : Database) (network : String) (h : ℕ) (s s' : d.Store)
    → IsDatabase d
    → 1 ≤ h
    → drop_block d network h s ≡ ok s'
    → ((c : Call)
        → Has c (d.calls.rows s')
        → c.task.network ≡ network
        → (c.event_height < h) × (c.task.block_height < h))
      × ((r : Rollback)
          → Has r (d.rollbacks.rows s')
          → r.task.network ≡ network
          → (r.trigger_height < h) × (r.event_height < h) × (r.task.block_height < h))
      × (filter (λ c. not (str_eq c.task.network network)) (d.calls.rows s')
          ≡ filter (λ c. not (str_eq c.task.network network)) (d.calls.rows s))
      × (filter (λ r. not (str_eq r.task.network network)) (d.rollbacks.rows s')
          ≡ filter (λ r. not (str_eq r.task.network network)) (d.rollbacks.rows s))
drop_block_lem d network h s s' laws pos q =
    let below = drop_block-below d network h s s' laws pos q in
    let others = drop_block-others d network h s s' laws q in (below.0, below.1, others.0, others.1)
