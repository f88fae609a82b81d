-- ===== src/Tracker/Links.antt =====
-- tracker/bmc/tracker.go: getLinks, trimBTPEvents, trimBTPEventsById, inferStatus,
-- findStartingEvent and findNextLink.
-- The loop counter `i` of getLinks may be -1, so the model counts `n = i + 1`. An event that was
-- not found is `none`; the source uses the zero BTPEvent, which no row of the table equals, since
-- its primary keys start at 1.
pub mod Chain
pub mod Trim
pub mod Loop
pub mod Progress
use btp_sdk.Base.{
  ℕ, zero, suc, ◌+◌, ◌-◌, ◌≡◌, String, Bool, true, false, ◌||◌, Option, none, some, List, [], ◌∷◌,
  ◌++◌, str_eq, leb, ◌==◌, if◌then◌else◌, take, drop, length,
}
use btp_sdk.Tracker.Event.{
  BtpEvent, Status, unknown, sending, wait_reply, replying, completed, is_completed, send, receive,
  reply, dropped, error,
}

-- `status` is unchanged where no case of the `switch` applies.
unfoldable pub infer_status : BtpEvent → Status → Status
infer_status e status = if str_eq e.event dropped then completed else elim status [
  | sending ↦
      if str_eq e.event receive then if str_eq e.next "" then completed else wait_reply else sending
  | wait_reply ↦ if str_eq e.event reply || str_eq e.event error then replying else wait_reply
  | replying ↦ if str_eq e.event receive then completed else replying
  | unknown ↦ unknown
  | completed ↦ completed
]

-- the loop of `findStartingEvent` at the index `i`
unfoldable pub find_starting_from : ℕ → List BtpEvent → Option (BtpEvent × ℕ)
find_starting_from i [] = none
find_starting_from i (e ∷ events) =
    if str_eq e.event send then some (e, i) else find_starting_from (i + 1) events

unfoldable pub find_starting_event : List BtpEvent → Option (BtpEvent × ℕ)
unfolding find_starting_from
find_starting_event events = find_starting_from 0 events

unfoldable pub find_next_link : List BtpEvent → BtpEvent → Option BtpEvent
find_next_link [] cur = none
find_next_link (e ∷ events) cur =
    if str_eq cur.event receive
    then if str_eq e.event reply || (str_eq e.event error || str_eq e.event dropped)
      then some e
      else find_next_link events cur
    else if str_eq cur.next e.network_address
    then if str_eq e.next cur.network_address
      then if str_eq e.event receive then some e else find_next_link events cur
      else some e
    else find_next_link events cur

unfoldable pub trim_btp_events : List BtpEvent → ℕ → List BtpEvent
trim_btp_events events i = take i events ++ drop (i + 1) events

-- the search loop of `trimBTPEventsById`
unfoldable pub index_by_id : ℕ → List BtpEvent → ℕ → Option ℕ
index_by_id i [] id = none
index_by_id i (e ∷ events) id = if id == e.id then some i else index_by_id (i + 1) events id

-- `index - 1` of the source is `index` in the shifted count; a missing id leaves the count as it is.
unfoldable pub trim_btp_events_by_id : List BtpEvent → ℕ → ℕ → List BtpEvent × ℕ
unfolding index_by_id trim_btp_events
trim_btp_events_by_id events id n = elim (index_by_id 0 events id) [
  | none ↦ (events, n)
  | some index ↦ (trim_btp_events events index, index)
]

-- the loop of `getLinks`, with fuel; `none` means that the fuel ran out
unfoldable pub follow :
    ℕ → List BtpEvent → ℕ → BtpEvent → List ℕ → Status → Option (List ℕ × Status)
unfolding find_next_link trim_btp_events_by_id infer_status
follow zero events n cur links status = none
follow (suc fuel) events n cur links status = elim (leb n (length events + 1)) [
  | false ↦ some (links, status)
  | true ↦ elim (find_next_link events cur) [
    | none ↦ some (links, status)
    | some e ↦
        let trimmed = trim_btp_events_by_id events e.id n in
        elim (is_completed (infer_status e status)) [
          | true ↦ some (links ++ e.id ∷ [], infer_status e status)
          | false ↦
              follow fuel trimmed.0 (trimmed.1 + 1) e (links ++ e.id ∷ []) (infer_status e status)
        ]
  ]
]

-- The argument is what `FindBySrcAndNsn` returned. Each round removes one event, so a fuel of one
-- more than the number of events is enough.
unfoldable pub get_links : List BtpEvent → Option (List ℕ × Status)
unfolding find_starting_event follow trim_btp_events
get_links events = elim (find_starting_event events) [
  | none ↦ some ([], unknown)
  | some (cur, location) ↦
      let rest = trim_btp_events events location in
      follow (length events + 1) rest 1 cur (cur.id ∷ []) sending
]
