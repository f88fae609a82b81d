-- ===== src/Tracker/Store.antt =====
-- tracker/bmc/tracker.go (onBTPEvent, storeBlock, storeBtpStatus, storeBtpEvent, updateLink, updateReLink, Relink,
-- getUncompletedBtpStatus and getMonitorHeight) over the three tables of tracker/bmc/repository.go. The
-- calls of gorm are fields of a parameter. The handlers run outside a transaction: what one has written before
-- it fails stays in the tables, and the model gives only its error. A new row has the primary key 0, and Save assigns one.
pub mod Sync
use btp_sdk.Base.{
  ◌≡◌, ◌≤◌, ◌+◌, ℕ, String, Bool, true, false, Option, none, some, List, [], ◌∷◌, if◌then◌else◌,
  leb, ltb,
}
use btp_sdk.Base.Int.{ℤ}
use btp_sdk.Base.Results.{Result, ok, err, ◌>>=◌}
use btp_sdk.Tracker.Event.{BtpEvent, Status, unknown}
use btp_sdk.Tracker.Links.{get_links}

pub record Block : Type 0 where
  pub id : ℕ
  pub block_id : String
  pub height : ℕ
  pub network_name : String
  pub network_address : String
  pub finalized : Bool

-- `links` holds the list whose JSON text is stored, and `none` for the empty text of a new row.
pub record BtpStatus : Type 0 where
  pub id : ℕ
  pub src : String
  pub nsn : ℤ
  pub status : Status
  pub last_network_name : String
  pub last_network_address : String
  pub links : Option (List ℕ)

pub data Error : Type 0 where
  database : String → Error
  invalid : String → Error
  panicked : Error

-- the parameter `_nsn`: no contract.Integer, or what AsInt64 gives
pub data NsnParam : Type 0 where
  not_integer : NsnParam
  int64_of : Result String ℤ → NsnParam

-- A BTPEvent log with what contract.StringOf gives for each parameter that is read.
pub record Log : Type 0 where
  pub block_height : ℕ
  pub identifier : ℕ
  pub block_hash : Result String String
  pub src : Result String String
  pub nsn : NsnParam
  pub next : Result String String
  pub event : Result String String
  pub tx_id : Result String String

-- the calls of gorm on the three tables
pub record Database : Type 1 where
  pub Store : Type 0
  pub find_block : String → String → ℕ → Store → Result String (Option Block)
  pub save_block : Block → Store → Result String Store
  pub last_block : String → Store → Result String (Option Block)
  pub find_status : String → ℤ → Store → Result String (Option BtpStatus)
  pub save_status : BtpStatus → Store → Result String Store
  pub uncompleted : String → Store → Result String (List BtpStatus)
  pub find_events : String → ℤ → Store → Result String (List BtpEvent)
  pub save_event : BtpEvent → Store → Result String Store

abbrev pub from_database {ℓ} : {A : Type ℓ} → Result String A → Result Error A
from_database (ok a) = ok a
from_database (err e) = err (database e)

-- the text that getParamString returns beside its error
abbrev pub text_of : Result String String → String
text_of (ok s) = s
text_of (err e) = ""

abbrev pub param_text : String → Result String String → Result Error String
param_text name (ok s) = ok s
param_text name (err e) = err (invalid name)

-- `getParamInt64`, whose type assertion panics
unfoldable pub param_nsn : NsnParam → Result Error ℤ
param_nsn not_integer = err panicked
param_nsn (int64_of (ok n)) = ok n
param_nsn (int64_of (err e)) = err (invalid "_nsn")

abbrev pub new_block : String → String → String → ℕ → Block
new_block network na hash height = record {
  id = 0;
  block_id = hash;
  height = height;
  network_name = network;
  network_address = na;
  finalized = false;
}

abbrev pub new_status : String → ℤ → String → String → BtpStatus
new_status src nsn network na = record {
  id = 0;
  src = src;
  nsn = nsn;
  status = unknown;
  last_network_name = network;
  last_network_address = na;
  links = none;
}

abbrev pub new_btp_event : Log → String → ℤ → String → ℕ → ℕ → String → String → BtpEvent
new_btp_event e src nsn tx block_id status_id network na = record {
  id = 0;
  src = src;
  nsn = nsn;
  next = text_of e.next;
  event = text_of e.event;
  block_id = block_id;
  btp_status_id = status_id;
  tx_hash = tx;
  event_id = e.identifier;
  network_name = network;
  network_address = na;
  finalized = false;
}

-- What a pointer points to; nil panics.
abbrev pub deref {ℓ} : {A : Type ℓ} → Option A → Result Error A
deref (some a) = ok a
deref none = err panicked

-- the links and the status of the events that were read; `getLinks` takes a failed read for no events
unfoldable pub links_of : Result String (List BtpEvent) → List ℕ × Status
links_of (err e) = ([], unknown)
links_of (ok events) = elim (get_links events) [ some r ↦ r | none ↦ ([], unknown) ]

module _ (d : Database) where
  open d use {
    Store, find_block, save_block, last_block, find_status, save_status, uncompleted, find_events,
    save_event,
  }

  unfoldable pub store_block :
      String → String → String → ℕ → Store → Result String (Option Block × Store)
  store_block network na hash height s = find_block na hash height s >>= λ b. elim b [
    | some found ↦ ok (some found, s)
    | none ↦ save_block (new_block network na hash height) s >>= λ s1.
        find_block na hash height s1 >>= λ b1. ok (b1, s1)
  ]

  unfoldable pub store_btp_status :
      String → String → String → ℤ → Store → Result String (Option BtpStatus × Store)
  store_btp_status src network na nsn s = find_status src nsn s >>= λ b. elim b [
    | some found ↦ ok (some found, s)
    | none ↦ save_status (new_status src nsn network na) s >>= λ s1.
        find_status src nsn s1 >>= λ b1. ok (b1, s1)
  ]

  -- `storeBtpEvent`: the errors of `_next` and `_event` are overwritten
  unfoldable pub store_btp_event :
      Log → String → ℤ → ℕ → ℕ → String → String → Store → Result Error Store
  store_btp_event e src nsn block_id status_id network na s = param_text "_txId" e.tx_id >>= λ tx.
      from_database (save_event (new_btp_event e src nsn tx block_id status_id network na) s)

  unfoldable pub update_link : BtpStatus → String → String → String → ℤ → Store → Result Error Store
  unfolding links_of
  update_link bs src network na nsn s =
      let r = links_of (find_events src nsn s) in
      from_database (
        save_status
          (record bs {
            links = some r.0;
            status = r.1;
            last_network_name = network;
            last_network_address = na;
          })
          s)

  unfoldable pub update_relink : BtpStatus → String → ℤ → Store → Result Error Store
  unfolding links_of
  update_relink bs src nsn s =
      let r = links_of (find_events src nsn s) in
      from_database (save_status (record bs { links = some r.0; status = r.1 }) s)

  -- What a failed call leaves of the store, where its error is dropped.
  abbrev pub or_else : Result Error Store → Store → Store
  or_else (ok s') s = s'
  or_else (err e) s = s

  -- the end of `onBTPEvent`: the error of storing the event is overwritten by that of `updateLink`
  unfoldable pub store_and_link :
      Log → Block → BtpStatus → String → ℤ → String → String → Store → Result Error Store
  unfolding store_btp_event update_link
  store_and_link e b bs src nsn network na s =
      update_link bs src network na nsn
        (or_else (store_btp_event e src nsn b.id bs.id network na s) s)

  -- The error of storing the status is dropped, and the nil status dereferenced, as is a block that
  -- is not found again; the latter first.
  unfoldable pub with_status :
      Log → Option Block → String → ℤ → String → String → Store → Result Error Store
  unfolding store_btp_status store_and_link
  with_status e b src nsn network na s = elim (store_btp_status src network na nsn s) [
    | err x ↦ err panicked
    | ok (bs, s1) ↦
        deref b >>= λ b'. deref bs >>= λ bs'. store_and_link e b' bs' src nsn network na s1
  ]

  unfoldable pub on_btp_event : String → String → Log → Store → Result Error Store
  unfolding store_block with_status
  on_btp_event network na e s =
      from_database (store_block network na (text_of e.block_hash) e.block_height s) >>= λ r.
      param_text "_src" e.src >>= λ src.
      param_nsn e.nsn >>= λ nsn. with_status e r.0 src nsn network na r.1

  -- the loop of `Relink` over the statuses of one network
  unfoldable pub relink_statuses : List BtpStatus → Store → Result Error Store
  unfolding update_relink
  relink_statuses [] s = ok s
  relink_statuses (bs ∷ statuses) s =
      update_relink bs bs.src bs.nsn s >>= λ s1. relink_statuses statuses s1

  -- `getUncompletedBtpStatus`
  unfoldable pub uncompleted_statuses : String → Store → List BtpStatus
  uncompleted_statuses src s = elim (uncompleted src s) [ ok l ↦ l | err e ↦ [] ]

  -- `Relink`, over the addresses of the networks
  unfoldable pub relink : List String → Store → Result Error Store
  unfolding relink_statuses uncompleted_statuses
  relink [] s = ok s
  relink (na ∷ nas) s = relink_statuses (uncompleted_statuses na s) s >>= λ s1. relink nas s1

  -- `getMonitorHeight`: the height after the last stored block, but at least the initial height
  unfoldable pub monitor_height : String → ℕ → Store → Result String ℕ
  monitor_height na initial s = last_block na s >>= λ b. elim b [
    | none ↦ ok initial
    | some last ↦ ok (if leb initial last.height then last.height + 1 else initial)
  ]
