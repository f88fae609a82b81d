-- ===== src/Tracker/Links/Progress.antt =====
-- What the status of a BTP message says of the events that led to it.
use btp_sdk.Base.{ℕ, ◌≤◌, ◌≡◌, ap, ◌≢◌, ◌⊎◌, inl, inr, List, [], ◌∷◌, arith, eq_iff}
use btp_sdk.Tracker.Event.{
  BtpEvent, Status, unknown, sending, wait_reply, replying, completed, receive, reply, dropped,
  error,
}
use btp_sdk.Tracker.Links.{infer_status}
use btp_sdk.Tracker.Links.Chain.{Chain, stop, close, step}

-- How far a message has come.
abbrev pub rank : Status → ℕ
rank unknown = 0
rank sending = 1
rank wait_reply = 2
rank replying = 3
rank completed = 4

-- An event never moves a status back, whatever the event; Completed and Unknown change no more,
-- but for a DROP, which completes every message.
pub infer_status_forward :
    (e : BtpEvent) (st : Status)
    → (rank st ≤ rank (infer_status e st))
      × (infer_status e completed ≡ completed)
      × (e.event ≢ dropped → infer_status e unknown ≡ unknown)
unfolding infer_status
infer_status_forward e st =
    (ground arith, ground arith, λ h. ground (arith, eq_iff e.event dropped))

from_completed :
    (e : BtpEvent) (st : Status)
    → infer_status e st ≡ completed
    → (st ≡ completed) ⊎ (e.event ≡ dropped) ⊎ (e.event ≡ receive)
unfolding infer_status
from_completed e st h = ground (arith, eq_iff e.event dropped, eq_iff e.event receive)

from_replying :
    (e : BtpEvent) (st : Status)
    → infer_status e st ≡ replying
    → (st ≡ replying) ⊎ ((st ≡ wait_reply) × ((e.event ≡ reply) ⊎ (e.event ≡ error)))
unfolding infer_status
from_replying e st h = ground (arith, eq_iff e.event reply, eq_iff e.event error)

from_wait_reply :
    (e : BtpEvent) (st : Status)
    → infer_status e st ≡ wait_reply
    → (st ≡ wait_reply) ⊎ ((st ≡ sending) × (e.event ≡ receive) × (e.next ≢ ""))
unfolding infer_status
from_wait_reply e st h = ground (arith, eq_iff e.event receive, eq_iff e.next "")

-- An event of the list with a property.
abbrev pub Some : (BtpEvent → Type 0) → List BtpEvent → Type 0
Some P [] = ⊥
Some P (e ∷ links) = P e ⊎ Some P links

abbrev pub Ended : BtpEvent → Type 0
Ended e = (e.event ≡ dropped) ⊎ (e.event ≡ receive)

abbrev pub Answered : BtpEvent → Type 0
Answered e = (e.event ≡ reply) ⊎ (e.event ≡ error)

-- a RECEIVE that names a network to answer to
abbrev pub Delivered : BtpEvent → Type 0
Delivered e = (e.event ≡ receive) × (e.next ≢ "")

chain_forward :
    {pool : List BtpEvent} {cur : BtpEvent} {st fin : Status} {links : List BtpEvent}
    → Chain pool cur st links fin
    → rank st ≤ rank fin
chain_forward (stop h) = omega arith
chain_forward {st = st} (close {e = e} r n h) =
    omega (arith, (infer_status_forward e st).0, ap rank h)
chain_forward {st = st} (step {e = e} r n h c) =
    omega (arith, (infer_status_forward e st).0, chain_forward c)

chain_completed :
    {pool : List BtpEvent} {cur : BtpEvent} {st fin : Status} {links : List BtpEvent}
    → Chain pool cur st links fin
    → fin ≡ completed
    → (st ≡ completed) ⊎ Some Ended links
chain_completed (stop h) q = inl q
chain_completed {st = st} (close {e = e} r n h) q = ground (arith, from_completed e st h)
chain_completed {st = st} (step {e = e} r n h c) q = elim (chain_completed c q) [
  | inl p ↦ absurd (h p)
  | inr m ↦ inr (inr m)
]

chain_replying :
    {pool : List BtpEvent} {cur : BtpEvent} {st fin : Status} {links : List BtpEvent}
    → Chain pool cur st links fin
    → fin ≡ replying
    → (st ≡ replying) ⊎ Some Answered links
chain_replying (stop h) q = inl q
chain_replying (close r n h) q = cc
chain_replying {st = st} (step {e = e} r n h c) q = elim (chain_replying c q) [
  | inl p ↦ elim (from_replying e st p) [ inl x ↦ inl x | inr y ↦ inr (inl y.1) ]
  | inr m ↦ inr (inr m)
]

chain_wait :
    {pool : List BtpEvent} {cur : BtpEvent} {st fin : Status} {links : List BtpEvent}
    → Chain pool cur st links fin
    → (fin ≡ wait_reply) ⊎ (fin ≡ replying)
    → (st ≡ wait_reply) ⊎ (st ≡ replying) ⊎ Some Delivered links
chain_wait {st = st} (stop h) q = elim q [ inl x ↦ inl x | inr y ↦ inr (inl y) ]
chain_wait (close r n h) q = elim q [ inl x ↦ cc | inr y ↦ cc ]
chain_wait {st = st} (step {e = e} r n h c) q = elim (chain_wait c q) [
  | inl p ↦ elim (from_wait_reply e st p) [ inl x ↦ inl x | inr y ↦ inr (inr (inl (y.1, y.2))) ]
  | inr (inl p) ↦ elim (from_replying e st p) [ inl x ↦ inr (inl x) | inr y ↦ inl y.0 ]
  | inr (inr m) ↦ inr (inr (inr m))
]

-- What a status proves of the links behind it. Along a chain that starts in Sending the status
-- never falls below Sending; Completed means that a link is a DROP or a RECEIVE; Replying means
-- that a link is a REPLY or an ERROR; and both WaitReply and Replying mean that a link is a
-- RECEIVE that names a network to answer to.
pub Chain_evidence :
    {pool : List BtpEvent} {cur : BtpEvent} {fin : Status} {links : List BtpEvent}
    → Chain pool cur sending links fin
    → (1 ≤ rank fin)
      × (fin ≡ completed → Some Ended links)
      × (fin ≡ replying → Some Answered links)
      × ((fin ≡ wait_reply) ⊎ (fin ≡ replying) → Some Delivered links)
Chain_evidence c = (
  chain_forward c,
  λ q. ground (arith, chain_completed c q),
  λ q. ground (arith, chain_replying c q),
  λ q. ground (arith, chain_wait c q),
)
