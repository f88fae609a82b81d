-- ===== src/AutoCaller/Finalize/Sound.antt =====
-- finalizeCall with the finality monitor: the blocks that a row is marked for.
use btp_sdk.Base.{◌≡◌, ◌⊎◌, inl, inr, ℕ, String, Bool, true, Has, arith, Option, some}
use mathlib.Core.Path.{subst}
use btp_sdk.Base.Results.{Result, ok}
use btp_sdk.Finality.{BlockInfo, Monitor}
use btp_sdk.Finality.Verdict.{
  Error as FinalityError, Supplier, Serves, AtHeight, IsVerdict, is_finalized, last_block,
  is_finalized-IsVerdict,
}
use btp_sdk.Rows.{marked}
use btp_sdk.Rows.Laws.{Marked-origin}
use btp_sdk.AutoCaller.CallRow.{Call}
use btp_sdk.AutoCaller.Finalize.{Database, IsDatabase, call_event, call_block, finalize_call}
use btp_sdk.AutoCaller.Finalize.Marks.{finalize_call-Marked}

-- The call `c'` is the call `c` apart from the two flags.
abbrev pub SameCall : Call → Call → Type 0
SameCall c' c = c' ≡ record c {
  event_finalized = c'.event_finalized;
  task = record c.task { finalized = c'.task.finalized };
}

-- A flag is set only where it was set, or where the block is known to be finalized.
abbrev Raised : (ℕ → String → Result FinalityError Bool) → ℕ → String → Bool → Bool → Type 0
Raised fin h id new old = new ≡ true → (old ≡ true) ⊎ (fin h id ≡ ok true)

module _ (d : Database) (fin : ℕ → String → Result FinalityError Bool) where
  open d use {Store, calls}

  finalize_call-origin :
      (network : String) (h : ℕ) (s s' : Store)
      → IsDatabase d
      → finalize_call d fin network h s ≡ ok (marked s')
      → (c' : Call) → Has c' (calls.rows s')
      → (c : Call) × Has c (calls.rows s)
        × SameCall c' c
        × Raised fin c.event_height c.event_block_id c'.event_finalized c.event_finalized
        × Raised fin c.task.block_height c.task.block_id c'.task.finalized c.task.finalized
  finalize_call-origin network h s s' laws q c' has =
      let (s1, a, b) = finalize_call-Marked d fin network h s s' laws q in
      let (c1, has1, e2) = Marked-origin fin calls (call_block network h) s1 s' c' b has in
      let (c, has0, e1) = Marked-origin fin calls (call_event network h) s s1 c1 a has1 in
      (c, has0, ground (arith, e1, e2), ground (arith, e1, e2), ground (arith, e1, e2))

module _ (decode : String → Option String) (number_of : String → Option ℕ) where
  final-AtHeight :
      (f : Supplier) (m : Monitor) (last : BlockInfo)
      → Serves decode number_of f
      → last_block f m ≡ ok last
      → number_of last.block_id ≡ some last.height
      → (h : ℕ) (id : String) → is_finalized f m h id ≡ ok true
      → AtHeight decode number_of last h id
  final-AtHeight f m last w known on h id q =
      (subst (IsVerdict decode number_of f last h id) q
        (is_finalized-IsVerdict decode number_of f m last h id w known on)).1

  -- Every call in the table after `finalizeCall` has marked rows was in the table before, with at
  -- most its two flags changed. A flag that was not set before is set only if the call's event, or its
  -- transaction, is in a block that the node has at the height of the row, not above the last final block,
  -- and equal to this one if at its height. This is for a finality monitor whose supplier keeps its
  -- contract, and whose last final block the node has at its height.
  pub finalize_call-AtHeight :
      (d : Database) (f : Supplier) (m : Monitor) (last : BlockInfo)
      → Serves decode number_of f
      → last_block f m ≡ ok last
      → number_of last.block_id ≡ some last.height
      → IsDatabase d
      → (network : String) (h : ℕ) (s s' : d.Store)
      → finalize_call d (is_finalized f m) network h s ≡ ok (marked s')
      → (c' : Call) → Has c' (d.calls.rows s')
      → (c : Call) × Has c (d.calls.rows s)
        × SameCall c' c
        × (c'.event_finalized ≡ true
            → (c.event_finalized ≡ true)
              ⊎ AtHeight decode number_of last c.event_height c.event_block_id)
        × (c'.task.finalized ≡ true
            → (c.task.finalized ≡ true)
              ⊎ AtHeight decode number_of last c.task.block_height c.task.block_id)
  finalize_call-AtHeight d f m last w known on laws network h s s' q c' has =
      let final = final-AtHeight f m last w known on in
      let (c, has0, same, event, block) =
        finalize_call-origin d (is_finalized f m) network h s s' laws q c' has in
      (
        c,
        has0,
        same,
        (λ y. elim (event y) [
          | inl old ↦ inl old
          | inr new ↦ inr (final c.event_height c.event_block_id new)
        ]),
        (λ y. elim (block y) [
          | inl old ↦ inl old
          | inr new ↦ inr (final c.task.block_height c.task.block_id new)
        ]),
      )
