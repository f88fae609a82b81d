-- ===== src/Tracker/Finalize.antt =====
-- tracker/bmc/tracker.go: finalizeBlock, finalizeEvent and dropBlock.
-- `dropBlock` takes the read lock of a mutex and releases its write lock when it returns, on every
-- path. Go's runtime then ends the program, before the transaction commits.
pub mod Effect
use btp_sdk.Base.{
  ◌≡◌, refl, ◌⊎◌, inl, inr, ◌≤◌, ℕ, String, Bool, true, false, not, List, [], ◌∷◌, map, All, Has,
  All-Has, if◌then◌else◌, ◌&&◌, ◌||◌, str_eq, ◌==◌, ==_iff, ==_refl, arith, Bool-cases, ap, ◌∙◌,
  sym, eq_iff,
}
use btp_sdk.Base.Results.{Result, ok, err, ◌>>=◌, Result-cases}
use mathlib.Core.Path.{subst}
use btp_sdk.Finality.Verdict.{Error as FinalityError, not_found_block}
use btp_sdk.Rows.{
  between, filter, update_where, RowTable, IsRowTable, IsApart, PassError, Column, check, Verdict,
  all_finalized, gone, failed,
}
use btp_sdk.Rows.Laws.{All-update, All-any, Has-update, Verdict-cases}
use btp_sdk.Tracker.Event.{BtpEvent}
use btp_sdk.Tracker.Store.{Block}

pub record Database : Type 1 where
  pub Store : Type 0
  pub blocks : RowTable Block Store
  pub events : RowTable BtpEvent Store
  pub commit : Store → Result String Store

pub record IsDatabase (d : Database) : Type 0 where
  pub block_rows : IsRowTable d.blocks
  pub event_rows : IsRowTable d.events
  pub blocks_apart : IsApart d.blocks d.events
  pub events_apart : IsApart d.events d.blocks
  pub committed : (s s' : d.Store) → d.commit s ≡ ok s' → s' ≡ s

-- How `finalizeBlock` fails: with an error that is logged, or with the end of the program.
pub data Failure : Type 0 where
  logged : PassError → Failure
  program_ended : Failure

abbrev pub from_database {ℓ} : {A : Type ℓ} → Result String A → Result Failure A
from_database (ok a) = ok a
from_database (err e) = err (logged (PassError.database e))

-- QueryNetworkAddressAndFinalizedAndHeightBetween, with ColumnFinalized
abbrev pub block_column : String → ℕ → Column Block
block_column na h = record {
  query = λ b. str_eq b.network_address na && not b.finalized && between 1 h b.height;
  height = λ b. b.height;
  block_id = λ b. b.block_id;
  mark = λ b. record b { finalized = true };
}

-- `x IN ids`
abbrev pub is_in : ℕ → List ℕ → Bool
is_in x [] = false
is_in x (i ∷ is) = x == i || is_in x is

abbrev pub block_ids : List Block → List ℕ
block_ids [] = []
block_ids (b ∷ bs) = b.id ∷ block_ids bs

abbrev pub mark_event : BtpEvent → BtpEvent
mark_event e = record e { finalized = true }

module _ (d : Database) where
  open d use {Store, blocks, events, commit}

  unfoldable pub finalize_event : List ℕ → Store → Result String Store
  finalize_event ids s = events.update (λ e. is_in e.block_id ids) mark_event s

  -- the deferred `Unlock`, whatever the deletions did
  abbrev pub unlock_unlocked : Result String Store → Result Failure Store
  unlock_unlocked r = err program_ended

  unfoldable pub drop_block : ℕ → Store → Result Failure Store
  drop_block id s =
      unlock_unlocked
        (events.delete (λ e. e.block_id == id) s >>= λ s1. blocks.delete (λ b. b.id == id) s1)

  module _ (is_finalized : ℕ → String → Result FinalityError Bool) where
    -- the function inside the transaction
    unfoldable pub finalize_rows : String → ℕ → Store → Result Failure Store
    unfolding drop_block finalize_event
    finalize_rows na h s = from_database (blocks.find (block_column na h).query s) >>= λ l. elim l [
      | [] ↦ ok s
      | b ∷ bs ↦ elim (check is_finalized (block_column na h) (b ∷ bs)) [
        | gone x ↦ drop_block x.id s
        | failed e ↦ err (logged e)
        | all_finalized ↦ from_database (
            blocks.update (λ x. is_in x.id (block_ids (b ∷ bs))) (block_column na h).mark s
            >>= λ s1. finalize_event (block_ids (b ∷ bs)) s1)
      ]
    ]

    unfoldable pub finalize_block : String → ℕ → Store → Result Failure Store
    unfolding finalize_rows
    finalize_block na h s = finalize_rows na h s >>= λ s1. from_database (commit s1)
