-- ===== src/Tests/Finalizing.antt =====
-- Two calls and a rollback of one network, and the finality monitor of a chain with the blocks b, bb, …
use btp_sdk.Base.{
  ℕ, ◌≡◌, ◌⊎◌, ◌≤◌, ◌<◌, inl, refl, String, Bool, true, false, List, [], ◌∷◌, Has, str_eq, not,
  arith, sym,
}
use btp_sdk.Base.Results.{Result, ok, ok_injective}
use btp_sdk.Finality.{new_monitor}
use btp_sdk.Finality.Verdict.{Error as FinalityError, AtHeight, is_finalized, confirm, last_block}
use btp_sdk.Finality.Supplier.{
  eth_supplier, eth_latest, common_hash_of, equal_id, height_by_id, node_answer,
}
use btp_sdk.Convert.Primitive.{bytes_of, parse_bytes}
use btp_sdk.Rows.{marked, filter, pass, check}
use btp_sdk.Rows.Memory.{
  left, right, left-IsRowTable, right-IsRowTable, left-IsApart, right-IsApart,
}
use btp_sdk.AutoCaller.CallRow.{Call, zero_call}
use btp_sdk.AutoCaller.RollbackRow.{Rollback, zero_rollback}
use btp_sdk.AutoCaller.Finalize.{
  Database, IsDatabase, finalize_call, finalize_rollback, call_passes, rollback_passes,
  committed_pass, drop_block,
}
use btp_sdk.AutoCaller.Finalize.Marks.{finalize_call-marks, finalize_rollback-marks}
use btp_sdk.AutoCaller.Finalize.Sound.{SameCall, finalize_call-AtHeight}
use btp_sdk.AutoCaller.Finalize.Drops.{drop_block_lem}
use btp_sdk.Tests.Verdict.{decode, number_of, last_final, supplier, supplier-Serves}

abbrev database : Database
database = record {
  Store = List Call × List Rollback;
  calls = left;
  rollbacks = right;
  commit = λ s. ok s;
}

database-IsDatabase : IsDatabase database
database-IsDatabase = record {
  call_rows = left-IsRowTable;
  rollback_rows = right-IsRowTable;
  calls_apart = left-IsApart;
  rollbacks_apart = right-IsApart;
  committed = λ s s' e. sym (ok_injective e);
}

abbrev early : Call
early = record (zero_call "icon") { event_height = 3; event_block_id = "bbb"; req_id = 1 }

abbrev early_marked : Call
early_marked = record early { event_finalized = true }

abbrev late : Call
late = record (zero_call "icon") { event_height = 9; event_block_id = "other"; req_id = 2 }

abbrev answered : Rollback
answered = record (zero_rollback "icon") { trigger_height = 2; trigger_block_id = "bb"; sn = 4 }

abbrev answered_marked : Rollback
answered_marked = record answered { trigger_finalized = true }

abbrev before : List Call × List Rollback
before = (early ∷ late ∷ [], answered ∷ [])

abbrev finalized : ℕ → String → Result FinalityError Bool
finalized = is_finalized supplier new_monitor

calls_marked :
    finalize_call database finalized "icon" 5 before
    ≡ ok (marked (early_marked ∷ late ∷ [], answered ∷ []))
unfolding finalize_call call_passes committed_pass pass check is_finalized last_block new_monitor
    confirm eth_supplier eth_latest common_hash_of equal_id height_by_id node_answer bytes_of
    parse_bytes
calls_marked = refl

rollbacks_marked :
    finalize_rollback database finalized "icon" 5 before
    ≡ ok (marked (early ∷ late ∷ [], answered_marked ∷ []))
unfolding finalize_rollback rollback_passes committed_pass pass check is_finalized last_block
    new_monitor confirm eth_supplier eth_latest common_hash_of equal_id height_by_id node_answer
    bytes_of parse_bytes
rollbacks_marked = refl

calls_dropped : drop_block database "icon" 5 before ≡ ok (early ∷ [], answered ∷ [])
unfolding drop_block
calls_dropped = refl

finalize_call-marks_example : (1 ≤ 3 → 3 ≤ 5 → true ≡ true) × (1 ≤ 0 → 0 ≤ 5 → false ≡ true)
finalize_call-marks_example =
    finalize_call-marks database finalized "icon" 5 before (early_marked ∷ late ∷ [], answered ∷ [])
      database-IsDatabase calls_marked early_marked (inl refl) refl

finalize_rollback-marks_example :
    (1 ≤ 2 → 2 ≤ 5 → true ≡ true) × (1 ≤ 0 → 0 ≤ 5 → false ≡ true) × (1 ≤ 0 → 0 ≤ 5 → false ≡ true)
finalize_rollback-marks_example =
    finalize_rollback-marks database finalized "icon" 5 before
      (early ∷ late ∷ [], answered_marked ∷ []) database-IsDatabase rollbacks_marked answered_marked
      (inl refl) refl

finalize_call-AtHeight_example :
    (c : Call) × Has c (early ∷ late ∷ [])
    × SameCall early_marked c
    × (true ≡ true
        → (c.event_finalized ≡ true)
          ⊎ AtHeight decode number_of last_final c.event_height c.event_block_id)
    × (false ≡ true
        → (c.task.finalized ≡ true)
          ⊎ AtHeight decode number_of last_final c.task.block_height c.task.block_id)
unfolding last_block new_monitor eth_supplier eth_latest
finalize_call-AtHeight_example =
    finalize_call-AtHeight decode number_of database supplier new_monitor last_final supplier-Serves
      refl refl database-IsDatabase "icon" 5 before (early_marked ∷ late ∷ [], answered ∷ [])
      calls_marked early_marked (inl refl)

drop_block_lem_example :
    ((c : Call)
      → Has c (early ∷ [])
      → c.task.network ≡ "icon"
      → (c.event_height < 5) × (c.task.block_height < 5))
    × ((r : Rollback)
        → Has r (answered ∷ [])
        → r.task.network ≡ "icon"
        → (r.trigger_height < 5) × (r.event_height < 5) × (r.task.block_height < 5))
    × (filter (λ c. not (str_eq c.task.network "icon")) (early ∷ [])
        ≡ filter (λ c. not (str_eq c.task.network "icon")) (early ∷ late ∷ []))
    × (filter (λ r. not (str_eq r.task.network "icon")) (answered ∷ [])
        ≡ filter (λ r. not (str_eq r.task.network "icon")) (answered ∷ []))
drop_block_lem_example =
    drop_block_lem database "icon" 5 before (early ∷ [], answered ∷ []) database-IsDatabase
      (omega arith) calls_dropped
