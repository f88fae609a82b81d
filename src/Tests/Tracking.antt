-- ===== src/Tests/Tracking.antt =====
-- A message whose SEND is logged, on a database that holds the status of one message; the counts of
-- two networks; and a block that is finalized with its event.
use btp_sdk.Base.{
  ℕ, suc, ◌≡◌, ◌≤◌, ◌+◌, ◌&&◌, refl, ap, sym, String, Bool, true, false, Option, none, some, List,
  [], ◌∷◌, ◌++◌, Has, str_eq, ◌==◌, eq_iff, eq_refl, ==_iff, ==_refl, if◌then◌else◌, length, arith,
}
use btp_sdk.Base.Int.{ℤ, pos, negsuc}
use btp_sdk.Base.Results.{Result, ok, ok_injective}
use btp_sdk.Finality.Verdict.{Error as FinalityError}
use btp_sdk.Rows.{check}
use btp_sdk.Rows.Memory.{
  left, right, left-IsRowTable, right-IsRowTable, left-IsApart, right-IsApart,
}
use btp_sdk.Tracker.Event.{BtpEvent, sending, send}
use btp_sdk.Tracker.Links.{get_links}
use btp_sdk.Tracker.Store.{
  Block, BtpStatus, Database, Log, int64_of, new_block, new_status, new_btp_event, on_btp_event,
  store_block, store_btp_status, store_btp_event, update_link, with_status, store_and_link,
  param_nsn, links_of,
}
use btp_sdk.Tracker.Store.Sync.{IsDatabase, InSync, on_btp_event-InSync}
use btp_sdk.Tracker.Finalize as Blocks
use btp_sdk.Tracker.Finalize.Effect.{finalize_block-marks}
use btp_sdk.Tracker.Summary.{
  StatusCount, summary_of_btp_status_by_networks, summary_of, sum_of, delivery_part, completed_part,
  summary-sums,
}

abbrev same_number : ℤ → ℤ → Bool
same_number (pos a) (pos b) = a == b
same_number (pos a) (negsuc b) = false
same_number (negsuc a) (pos b) = false
same_number (negsuc a) (negsuc b) = a == b

same_number-eq : (a b : ℤ) → same_number a b ≡ true → a ≡ b
same_number-eq (pos a) (pos b) h = ap pos ((==_iff a b).0 h)
same_number-eq (pos a) (negsuc b) h = absurd (ground (arith, h))
same_number-eq (negsuc a) (pos b) h = absurd (ground (arith, h))
same_number-eq (negsuc a) (negsuc b) h = ap negsuc ((==_iff a b).0 h)

same_number_refl : (a : ℤ) → same_number a a ≡ true
same_number_refl (pos a) = ==_refl a
same_number_refl (negsuc a) = ==_refl a

abbrev matching : String → ℤ → Option BtpStatus → Option BtpStatus
matching src nsn none = none
matching src nsn (some bs) = if str_eq bs.src src && same_number bs.nsn nsn then some bs else none

abbrev stored_block : Block
stored_block = record (new_block "icon" "0x1.icon" "b1" 7) { id = 1 }

abbrev one_message : Database
one_message = record {
  Store = Option BtpStatus × List BtpEvent;
  find_block = λ na hash h s. ok (some stored_block);
  save_block = λ b s. ok s;
  last_block = λ na s. ok (some stored_block);
  find_status = λ src nsn s. ok (matching src nsn s.0);
  save_status = λ bs s. ok (some bs, s.1);
  uncompleted = λ src s. ok [];
  find_events = λ src nsn s. ok s.1;
  save_event = λ e s. ok (s.0, s.1 ++ record e { id = suc (length s.1) } ∷ []);
}

matching-found :
    (src : String) (nsn : ℤ) (o : Option BtpStatus) (bs : BtpStatus)
    → matching src nsn o ≡ some bs
    → (bs.src ≡ src) × (bs.nsn ≡ nsn)
matching-found src nsn none bs q = absurd (ground (arith, q))
matching-found src nsn (some x) bs q = ground (arith, q, eq_iff x.src src, same_number-eq x.nsn nsn)

one_message-IsDatabase : IsDatabase one_message
one_message-IsDatabase = record {
  found_status = λ src nsn s bs hs hn q. matching-found src nsn s.0 bs (ok_injective q);
  saved_status =
      λ bs old s s' q i e. rw (← ok_injective e, eq_refl bs.src, same_number_refl bs.nsn) refl;
  events_kept = λ bs s s' e src nsn. ap (λ x. ok x.1) (sym (ok_injective e));
  statuses_kept = λ v s s' e src nsn. ap (λ x. ok (matching src nsn x.0)) (sym (ok_injective e));
}

abbrev log : Log
log = record {
  block_height = 7;
  identifier = 0;
  block_hash = ok "b1";
  src = ok "0x1.icon";
  nsn = int64_of (ok (pos 3));
  next = ok "0x2.eth";
  event = ok send;
  tx_id = ok "tx";
}

abbrev logged : BtpEvent
logged = record (new_btp_event log "0x1.icon" (pos 3) "tx" 1 0 "icon" "0x1.icon") { id = 1 }

abbrev tracked : BtpStatus
tracked = record (new_status "0x1.icon" (pos 3) "icon" "0x1.icon") {
  status = sending;
  links = some (1 ∷ []);
}

tracks : on_btp_event one_message "icon" "0x1.icon" log (none, []) ≡ ok (some tracked, logged ∷ [])
unfolding on_btp_event store_block store_btp_status store_btp_event update_link with_status
    store_and_link param_nsn links_of get_links
tracks = refl

on_btp_event-InSync_example : InSync one_message "0x1.icon" (pos 3) (some tracked, logged ∷ [])
on_btp_event-InSync_example =
    on_btp_event-InSync one_message "icon" "0x1.icon" log "0x1.icon" (pos 3) (none, [])
      (some tracked, logged ∷ []) one_message-IsDatabase
      (λ e. ground (arith, (eq_iff "0x1.icon" "").1 e)) (λ e. ground (arith, e)) refl refl tracks

abbrev counts : List StatusCount
counts =
    record { src = "a"; status = "Completed"; count = 2 }
    ∷ record { src = "b"; status = "Sending"; count = 5 }
    ∷ record { src = "a"; status = "Sending"; count = 1 }
    ∷ []

summary-sums_example :
    (summary_of "a" (summary_of_btp_status_by_networks counts)
      ≡ some (record { address = "a"; total = 3; in_delivery = 1; completed = 2 }))
    × (sum_of delivery_part "a" counts + sum_of completed_part "a" counts
        ≡ sum_of (λ c. c.count) "a" counts)
summary-sums_example = summary-sums "a" counts (omega arith)

abbrev blocks : Blocks.Database
blocks = record {
  Store = List Block × List BtpEvent;
  blocks = left;
  events = right;
  commit = λ s. ok s;
}

blocks-IsDatabase : Blocks.IsDatabase blocks
blocks-IsDatabase = record {
  block_rows = left-IsRowTable;
  event_rows = right-IsRowTable;
  blocks_apart = left-IsApart;
  events_apart = right-IsApart;
  committed = λ s s' e. sym (ok_injective e);
}

abbrev always : ℕ → String → Result FinalityError Bool
always h id = ok true

abbrev marked_block : Block
marked_block = record stored_block { finalized = true }

abbrev marked_event : BtpEvent
marked_event = record logged { finalized = true }

block_marked :
    Blocks.finalize_block blocks always "0x1.icon" 8 (stored_block ∷ [], logged ∷ [])
    ≡ ok (marked_block ∷ [], marked_event ∷ [])
unfolding Blocks.finalize_block Blocks.finalize_rows Blocks.finalize_event check
block_marked = refl

finalize_block-marks_example :
    ((b : Block)
      → Has b (marked_block ∷ [])
      → b.network_address ≡ "0x1.icon"
      → 1 ≤ b.height
      → b.height ≤ 8
      → b.finalized ≡ true)
    × ((b : Block) (e : BtpEvent)
        → Has b (stored_block ∷ [])
        → b.network_address ≡ "0x1.icon"
        → 1 ≤ b.height
        → b.height ≤ 8
        → b.finalized ≡ false
        → Has e (marked_event ∷ [])
        → e.block_id ≡ b.id
        → e.finalized ≡ true)
finalize_block-marks_example =
    finalize_block-marks blocks always "0x1.icon" 8 (stored_block ∷ [], logged ∷ [])
      (marked_block ∷ [], marked_event ∷ []) blocks-IsDatabase block_marked
