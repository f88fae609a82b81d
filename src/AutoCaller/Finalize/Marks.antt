-- ===== src/AutoCaller/Finalize/Marks.antt =====
-- finalizeCall and finalizeRollback: which rows are marked as finalized.
use btp_sdk.Base.{
  ◌≡◌, refl, inl, inr, ◌≤◌, ℕ, String, Bool, true, List, All, Has, All-Has, arith, ap, ◌∙◌, sym,
  eq_iff,
}
use btp_sdk.Base.Results.{Result, ok, err, Result-cases}
use mathlib.Core.Path.{subst}
use btp_sdk.Finality.Verdict.{Error as FinalityError}
use btp_sdk.Rows.{PassError, Pass, marked, dropped, update_where}
use btp_sdk.Rows.Laws.{All-update, All-any, Marked, pass-Marked}
use btp_sdk.AutoCaller.CallRow.{Call}
use btp_sdk.AutoCaller.RollbackRow.{Rollback}
use btp_sdk.AutoCaller.Finalize.{
  Database, IsDatabase, call_event, call_block, rollback_trigger, rollback_event, rollback_block,
  committed_pass, then_pass, call_passes, finalize_call, rollback_passes, finalize_rollback,
}

-- A flag that is set where the height is of the range of a network.
abbrev IsMarked : String → ℕ → String → ℕ → Bool → Type 0
IsMarked network h n height flag = n ≡ network → 1 ≤ height → height ≤ h → flag ≡ true

then_pass-marked :
    (d : Database) (p : Result PassError (Pass d.Store))
    (next : d.Store → Result PassError (Pass d.Store)) (s' : d.Store)
    → then_pass d p next ≡ ok (marked s')
    → (s1 : d.Store) × (p ≡ ok (marked s1)) × (next s1 ≡ ok (marked s'))
then_pass-marked d (ok (marked s)) next s' q = (s, refl, q)
then_pass-marked d (ok (dropped s)) next s' q = absurd (ground (arith, q))
then_pass-marked d (err e) next s' q = absurd (ground (arith, q))

committed_pass-marked :
    (d : Database) (p : Result PassError (Pass d.Store)) (s' : d.Store)
    → IsDatabase d
    → committed_pass d p ≡ ok (marked s')
    → p ≡ ok (marked s')
unfolding committed_pass
committed_pass-marked d (ok (marked s)) s' laws q = elim (Result-cases (d.commit s)) [
  | inl (s2, e) ↦
      let same : s2 ≡ s' = ground (arith, q, e) in
      ap (λ x. ok (marked x)) (sym (laws.committed s s2 e) ∙ same)
  | inr (x, e) ↦ absurd (ground (arith, q, e))
]
committed_pass-marked d (ok (dropped s)) s' laws q = elim (Result-cases (d.commit s)) [
  | inl (s2, e) ↦ absurd (ground (arith, q, e))
  | inr (x, e) ↦ absurd (ground (arith, q, e))
]
committed_pass-marked d (err e) s' laws q = absurd (ground (arith, q))

module _ (d : Database) (is_finalized : ℕ → String → Result FinalityError Bool) where
  open d use {Store, calls, rollbacks}

  pub finalize_call-Marked :
      (network : String) (h : ℕ) (s s' : Store)
      → IsDatabase d
      → finalize_call d is_finalized network h s ≡ ok (marked s')
      → (s1 : Store) × Marked is_finalized calls (call_event network h) s s1
        × Marked is_finalized calls (call_block network h) s1 s'
  unfolding finalize_call call_passes
  finalize_call-Marked network h s s' laws q =
      let (s1, a, b) = then_pass-marked d _ _ s' (committed_pass-marked d _ s' laws q) in
      (
        s1,
        pass-Marked is_finalized calls (call_event network h) _ s s1 laws.call_rows a,
        pass-Marked is_finalized calls (call_block network h) _ s1 s' laws.call_rows b,
      )

  IsMarked-calls :
      (network : String) (h : ℕ) (cs : List Call)
      → All
          (λ c.
            IsMarked network h c.task.network c.event_height c.event_finalized
            × IsMarked network h c.task.network c.task.block_height c.task.finalized)
          (update_where
            (call_block network h).query
            (call_block network h).mark
            (update_where (call_event network h).query (call_event network h).mark cs))
  IsMarked-calls network h cs =
      All-update (call_block network h).query (call_block network h).mark
        (λ c p y. (p, λ e l g. refl))
        (λ c p y. (p, λ e l g. ground (arith, y, e, l, g, eq_iff c.task.network network))) _
        (All-update {P = λ c. Unit {0}} (call_event network h).query (call_event network h).mark
          (λ c p y e l g. refl)
          (λ c p y e l g. ground (arith, y, e, l, g, eq_iff c.task.network network)) cs
          (All-any cs))

  IsMarked-rollbacks :
      (network : String) (h : ℕ) (rs : List Rollback)
      → All
          (λ r.
            IsMarked network h r.task.network r.trigger_height r.trigger_finalized
            × IsMarked network h r.task.network r.event_height r.event_finalized
            × IsMarked network h r.task.network r.task.block_height r.task.finalized)
          (update_where (rollback_block network h).query (rollback_block network h).mark (
            update_where (rollback_event network h).query (rollback_event network h).mark (
              update_where
                (rollback_trigger network h).query
                (rollback_trigger network h).mark
                rs)))
  IsMarked-rollbacks network h rs =
      All-update
        {P = λ r.
          IsMarked network h r.task.network r.trigger_height r.trigger_finalized
          × IsMarked network h r.task.network r.event_height r.event_finalized}
        (rollback_block network h).query (rollback_block network h).mark
        (λ r p y. (p.0, p.1, λ e l g. refl))
        (λ r p y. (p.0, p.1, λ e l g. ground (arith, y, e, l, g, eq_iff r.task.network network))) _
        (All-update
          {P = λ r. IsMarked network h r.task.network r.trigger_height r.trigger_finalized}
          (rollback_event network h).query (rollback_event network h).mark
          (λ r p y. (p, λ e l g. refl))
          (λ r p y. (p, λ e l g. ground (arith, y, e, l, g, eq_iff r.task.network network))) _
          (All-update {P = λ r. Unit {0}} (rollback_trigger network h).query
            (rollback_trigger network h).mark (λ r p y e l g. refl)
            (λ r p y e l g. ground (arith, y, e, l, g, eq_iff r.task.network network)) rs
            (All-any rs)))

  finalize_rollback-Marked :
      (network : String) (h : ℕ) (s s' : Store)
      → IsDatabase d
      → finalize_rollback d is_finalized network h s ≡ ok (marked s')
      → (s1 : Store) × (s2 : Store) × Marked is_finalized rollbacks
          (rollback_trigger network h)
          s
          s1
        × Marked is_finalized rollbacks (rollback_event network h) s1 s2
        × Marked is_finalized rollbacks (rollback_block network h) s2 s'
  unfolding finalize_rollback rollback_passes
  finalize_rollback-Marked network h s s' laws q =
      let (s2, a, c) = then_pass-marked d _ _ s' (committed_pass-marked d _ s' laws q) in
      let (s1, x, y) = then_pass-marked d _ _ s2 a in
      (
        s1,
        s2,
        pass-Marked is_finalized rollbacks (rollback_trigger network h) _ s s1 laws.rollback_rows x,
        pass-Marked is_finalized rollbacks (rollback_event network h) _ s1 s2 laws.rollback_rows y,
        pass-Marked is_finalized rollbacks (rollback_block network h) _ s2 s' laws.rollback_rows c,
      )

  -- After `finalizeCall` has marked the calls for a block of height `h`, no call of the network is
  -- left whose event or whose transaction is of a block between 1 and `h` and not marked.
  pub finalize_call-marks :
      (network : String) (h : ℕ) (s s' : Store)
      → IsDatabase d
      → finalize_call d is_finalized network h s ≡ ok (marked s')
      → (c : Call) → Has c (calls.rows s')
      → c.task.network ≡ network
      → (1 ≤ c.event_height → c.event_height ≤ h → c.event_finalized ≡ true)
        × (1 ≤ c.task.block_height → c.task.block_height ≤ h → c.task.finalized ≡ true)
  finalize_call-marks network h s s' laws q c has n =
      let (s1, a, b) = finalize_call-Marked network h s s' laws q in
      let all =
        subst (All _)
          (sym
            (b.0 ∙ ap (update_where (call_block network h).query (call_block network h).mark) a.0))
          (IsMarked-calls network h (calls.rows s)) in
      let p = All-Has _ _ _ all has in (p.0 n, p.1 n)

  -- After `finalizeRollback` has marked the rollbacks for a block of height `h`, no rollback of the
  -- network is left whose trigger, event or transaction is of a block between 1 and `h` and not
  -- marked.
  pub finalize_rollback-marks :
      (network : String) (h : ℕ) (s s' : Store)
      → IsDatabase d
      → finalize_rollback d is_finalized network h s ≡ ok (marked s')
      → (r : Rollback) → Has r (rollbacks.rows s')
      → r.task.network ≡ network
      → (1 ≤ r.trigger_height → r.trigger_height ≤ h → r.trigger_finalized ≡ true)
        × (1 ≤ r.event_height → r.event_height ≤ h → r.event_finalized ≡ true)
        × (1 ≤ r.task.block_height → r.task.block_height ≤ h → r.task.finalized ≡ true)
  finalize_rollback-marks network h s s' laws q r has n =
      let (s1, s2, a, b, c) = finalize_rollback-Marked network h s s' laws q in
      let all =
        subst (All _)
          (sym (
            c.0
            ∙ ap (update_where (rollback_block network h).query (rollback_block network h).mark) (
                b.0
                ∙ ap (update_where (rollback_event network h).query (rollback_event network h).mark)
                    a.0)))
          (IsMarked-rollbacks network h (rollbacks.rows s)) in
      let p = All-Has _ _ _ all has in (p.0 n, p.1 n, p.2 n)
