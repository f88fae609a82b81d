-- ===== src/AutoCaller/Finalize.antt =====
-- autocaller/xcall/autocaller.go (finalizeCall, finalizeRollback, dropBlock, getMonitorHeight and the case of
-- monitorFinality that calls them) with the queries of autocaller/xcall/repository.go. Each of the
-- two functions is a transaction under a lock, so it is one step; what fails leaves the tables as
-- they were. The goroutine that dropBlock starts is no part of the tables and is left out.
pub mod Marks
pub mod Sound
pub mod Drops
use btp_sdk.Base.{
  ℕ, String, Bool, true, false, Option, none, some, not, List, [], ◌∷◌, ◌&&◌, ◌≡◌, str_eq, leb, ltb,
  if◌then◌else◌,
}
use btp_sdk.Base.Int.{pos}
use btp_sdk.Base.Results.{Result, ok, err, ◌>>=◌}
use btp_sdk.Finality.Verdict.{Error as FinalityError}
use btp_sdk.Rows.{
  between, RowTable, IsRowTable, IsApart, PassError, Pass, marked, dropped, Column, pass,
  from_database,
}
use btp_sdk.AutoCaller.Task.{task_none, sending}
use btp_sdk.AutoCaller.CallRow.{Call}
use btp_sdk.AutoCaller.RollbackRow.{Rollback}

-- A database with the two tables. A transaction that has done its work is committed.
pub record Database : Type 1 where
  pub Store : Type 0
  pub calls : RowTable Call Store
  pub rollbacks : RowTable Rollback Store
  pub commit : Store → Result String Store

pub record IsDatabase (d : Database) : Type 0 where
  pub call_rows : IsRowTable d.calls
  pub rollback_rows : IsRowTable d.rollbacks
  pub calls_apart : IsApart d.calls d.rollbacks
  pub rollbacks_apart : IsApart d.rollbacks d.calls
  pub committed : (s s' : d.Store) → d.commit s ≡ ok s' → s' ≡ s

-- AsStateSending, on either table
abbrev pub call_as_sending : Call → Call
call_as_sending c = record c {
  task = record c.task { state = sending; block_height = 0; block_id = ""; failure = "" };
  exec_result_code = pos 0;
  exec_result_msg = "";
}

abbrev pub rollback_as_sending : Rollback → Rollback
rollback_as_sending r = record r {
  task = record r.task { state = sending; block_height = 0; block_id = ""; failure = "" };
  exec_result_code = pos 0;
  exec_result_msg = "";
}

-- AsStateNone
abbrev pub rollback_as_none : Rollback → Rollback
rollback_as_none r = record r {
  task = record r.task {
    state = task_none;
    tx_id = "";
    block_height = 0;
    block_id = "";
    failure = "";
  };
  event_height = 0;
  event_block_id = "";
  exec_result_code = pos 0;
  exec_result_msg = "";
}

-- QueryNetworkAndEventFinalizedAndEventHeightBetween, with ColumnEventFinalized
abbrev pub call_event : String → ℕ → Column Call
call_event network h = record {
  query = λ c. str_eq c.task.network network && not c.event_finalized && between 1 h c.event_height;
  height = λ c. c.event_height;
  block_id = λ c. c.event_block_id;
  mark = λ c. record c { event_finalized = true };
}

-- QueryNetworkAndFinalizedAndBlockHeightBetween, with ColumnFinalized
abbrev pub call_block : String → ℕ → Column Call
call_block network h = record {
  query =
      λ c. str_eq c.task.network network && not c.task.finalized && between 1 h c.task.block_height;
  height = λ c. c.task.block_height;
  block_id = λ c. c.task.block_id;
  mark = λ c. record c { task = record c.task { finalized = true } };
}

-- QueryNetworkAndTriggerFinalizedAndTriggerHeightBetween, with ColumnTriggerFinalized
abbrev pub rollback_trigger : String → ℕ → Column Rollback
rollback_trigger network h = record {
  query =
      λ r. str_eq r.task.network network && not r.trigger_finalized && between 1 h r.trigger_height;
  height = λ r. r.trigger_height;
  block_id = λ r. r.trigger_block_id;
  mark = λ r. record r { trigger_finalized = true };
}

abbrev pub rollback_event : String → ℕ → Column Rollback
rollback_event network h = record {
  query = λ r. str_eq r.task.network network && not r.event_finalized && between 1 h r.event_height;
  height = λ r. r.event_height;
  block_id = λ r. r.event_block_id;
  mark = λ r. record r { event_finalized = true };
}

abbrev pub rollback_block : String → ℕ → Column Rollback
rollback_block network h = record {
  query =
      λ r. str_eq r.task.network network && not r.task.finalized && between 1 h r.task.block_height;
  height = λ r. r.task.block_height;
  block_id = λ r. r.task.block_id;
  mark = λ r. record r { task = record r.task { finalized = true } };
}

-- the rows of a network from a height on: the queries of `dropBlock`
abbrev pub call_event_from : String → ℕ → Call → Bool
call_event_from network h c = str_eq c.task.network network && leb h c.event_height

abbrev pub call_block_from : String → ℕ → Call → Bool
call_block_from network h c = str_eq c.task.network network && leb h c.task.block_height

abbrev pub rollback_trigger_from : String → ℕ → Rollback → Bool
rollback_trigger_from network h r = str_eq r.task.network network && leb h r.trigger_height

abbrev pub rollback_event_from : String → ℕ → Rollback → Bool
rollback_event_from network h r = str_eq r.task.network network && leb h r.event_height

abbrev pub rollback_block_from : String → ℕ → Rollback → Bool
rollback_block_from network h r = str_eq r.task.network network && leb h r.task.block_height

abbrev pub greater_height : ℕ → ℕ → ℕ
greater_height a b = if ltb a b then b else a

abbrev pub call_height : Option Call → ℕ
call_height none = 0
call_height (some c) = c.event_height

abbrev pub with_rollback : ℕ → Option Rollback → ℕ
with_rollback height none = height
with_rollback height (some r) = greater_height height r.event_height

-- `getMonitorHeight`, from the rows of the network with the greatest event height
unfoldable pub monitor_height :
    Result String (Option Call) → Result String (Option Rollback) → Result String ℕ
monitor_height fc fr = fc >>= λ cm. fr >>= λ rm. ok (with_rollback (call_height cm) rm)

module _ (d : Database) where
  open d use {Store, calls, rollbacks, commit}

  unfoldable pub drop_block : String → ℕ → Store → Result PassError Store
  drop_block network h s = from_database (
      calls.delete (call_event_from network h) s >>= λ s1.
      calls.update (call_block_from network h) call_as_sending s1 >>= λ s2.
      rollbacks.delete (rollback_trigger_from network h) s2 >>= λ s3.
      rollbacks.update (rollback_event_from network h) rollback_as_none s3 >>= λ s4.
      rollbacks.update (rollback_block_from network h) rollback_as_sending s4)

  -- the end of a transaction
  unfoldable pub committed_pass : Result PassError (Pass Store) → Result PassError (Pass Store)
  committed_pass (ok (marked s)) = from_database (commit s) >>= λ s'. ok (marked s')
  committed_pass (ok (dropped s)) = from_database (commit s) >>= λ s'. ok (dropped s')
  committed_pass (err e) = err e

  -- Another pass follows one that has marked its rows; one that has dropped a block ends it.
  abbrev pub then_pass :
      Result PassError (Pass Store)
      → (Store → Result PassError (Pass Store))
      → Result PassError (Pass Store)
  then_pass (ok (marked s)) next = next s
  then_pass (ok (dropped s)) next = ok (dropped s)
  then_pass (err e) next = err e

  module _ (is_finalized : ℕ → String → Result FinalityError Bool) where
    unfoldable pub call_passes : String → ℕ → Store → Result PassError (Pass Store)
    unfolding drop_block
    call_passes network h s =
        then_pass
          (pass is_finalized calls (call_event network h) (λ c. drop_block network c.event_height)
            s)
          (λ s1.
            pass is_finalized calls (call_block network h)
              (λ c. drop_block network c.task.block_height) s1)

    unfoldable pub finalize_call : String → ℕ → Store → Result PassError (Pass Store)
    unfolding call_passes committed_pass
    finalize_call network h s = committed_pass (call_passes network h s)

    unfoldable pub rollback_passes : String → ℕ → Store → Result PassError (Pass Store)
    unfolding drop_block
    rollback_passes network h s =
        then_pass
          (then_pass
            (pass is_finalized rollbacks (rollback_trigger network h)
              (λ r. drop_block network r.trigger_height) s)
            (λ s1.
              pass is_finalized rollbacks (rollback_event network h)
                (λ r. drop_block network r.event_height) s1))
          (λ s2.
            pass is_finalized rollbacks (rollback_block network h)
              (λ r. drop_block network r.task.block_height) s2)

    unfoldable pub finalize_rollback : String → ℕ → Store → Result PassError (Pass Store)
    unfolding rollback_passes committed_pass
    finalize_rollback network h s = committed_pass (rollback_passes network h s)

    -- What a transaction leaves; its error is logged.
    abbrev pub after : Result PassError (Pass Store) → Store → Store
    after (ok (marked s')) s = s'
    after (ok (dropped s')) s = s'
    after (err e) s = s

    -- the case of `monitorFinality` for a block of height `h`
    unfoldable pub on_finalized : String → ℕ → Store → Store
    unfolding finalize_call finalize_rollback
    on_finalized network h s =
        let s1 = after (finalize_call network h s) s in after (finalize_rollback network h s1) s1
