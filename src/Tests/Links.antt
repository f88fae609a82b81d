-- ===== src/Tests/Links.antt =====
-- A message from net1 to net2 with a reply, given out of order.
use btp_sdk.Base.{
  ℕ, ◌≤◌, ◌≡◌, ◌≢◌, refl, ◌⊎◌, inr, String, false, some, List, [], ◌∷◌, ◌++◌, arith, All, eq_iff,
}
use btp_sdk.Base.Int.{pos}
use btp_sdk.Tracker.Event.{
  BtpEvent, Status, unknown, sending, wait_reply, replying, completed, send, receive, reply,
}
use btp_sdk.Tracker.Links.{
  infer_status, get_links, find_starting_event, find_starting_from, follow, find_next_link,
  trim_btp_events, trim_btp_events_by_id, index_by_id,
}
use btp_sdk.Tracker.Links.Chain.{here, Chain, stop, step}
use btp_sdk.Tracker.Links.Trim.{DistinctIds, ids}
use btp_sdk.Tracker.Links.Loop.{StartsAt, get_links-Chain}
use btp_sdk.Tracker.Links.Progress.{rank, Some, Ended, Answered, Delivered, Chain_evidence}

abbrev btp_event : ℕ → String → String → String → BtpEvent
btp_event id name at next = record {
  id = id;
  src = "btp://net1";
  nsn = pos 7;
  next = next;
  event = name;
  block_id = 1;
  btp_status_id = 1;
  tx_hash = "0x01";
  event_id = id;
  network_name = at;
  network_address = at;
  finalized = false;
}

abbrev sent_event : BtpEvent
sent_event = btp_event 2 send "net1" "net2"

abbrev received_event : BtpEvent
received_event = btp_event 4 receive "net2" "net1"

abbrev replied_event : BtpEvent
replied_event = btp_event 3 reply "net2" "net1"

abbrev returned_event : BtpEvent
returned_event = btp_event 9 receive "net1" ""

abbrev message : List BtpEvent
message = returned_event ∷ sent_event ∷ replied_event ∷ received_event ∷ []

-- The order of the links is that of the message's way.
links_in_order : get_links message ≡ some (2 ∷ 4 ∷ 3 ∷ 9 ∷ [], completed)
unfolding get_links find_starting_event find_starting_from follow find_next_link trim_btp_events
    trim_btp_events_by_id index_by_id infer_status
links_in_order = refl

message-DistinctIds : DistinctIds message
message-DistinctIds = (
  (omega arith, (omega arith, (omega arith, tt))),
  ((omega arith, (omega arith, tt)), ((omega arith, tt), (tt, tt))),
)

get_links-Chain_example :
    (All (λ e. e.event ≢ send) message × (get_links message ≡ some ([], unknown)))
    ⊎ ((pre : List BtpEvent) × (e : BtpEvent) × (post : List BtpEvent) × (chain : List BtpEvent)
        × (fin : Status) × StartsAt message pre e post
        × (get_links message ≡ some (ids (e ∷ chain), fin))
        × Chain (pre ++ post) e sending chain fin)
get_links-Chain_example = get_links-Chain message message-DistinctIds

-- The message waits for its reply.
half_way : Chain (received_event ∷ []) sent_event sending (received_event ∷ []) wait_reply
unfolding infer_status
half_way =
    step here (inr (λ p. ground (arith, eq_iff send receive, p), refl, λ p. refl)) (λ p. cc)
      (stop tt)

Chain_evidence_example :
    (1 ≤ rank wait_reply)
    × (wait_reply ≡ completed → Some Ended (received_event ∷ []))
    × (wait_reply ≡ replying → Some Answered (received_event ∷ []))
    × ((wait_reply ≡ wait_reply) ⊎ (wait_reply ≡ replying) → Some Delivered (received_event ∷ []))
Chain_evidence_example = Chain_evidence half_way
