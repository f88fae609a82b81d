-- ===== src/Tracker/Links/Chain.antt =====
-- What getLinks computes: a chain of events, each a continuation of the one before it.
use btp_sdk.Base.{
  ◌≡◌, refl, ◌≢◌, ◌⊎◌, inl, inr, Bool, true, false, ◌||◌, none, some, List, [], ◌∷◌, arith, str_eq,
  eq_iff, if◌then◌else◌, Has, All, Bool-cases,
}
use btp_sdk.Tracker.Event.{BtpEvent, Status, completed, receive, reply, dropped, error}
use btp_sdk.Tracker.Links.{infer_status, find_next_link}

-- `e` continues `cur`: a RECEIVE is answered by a REPLY, an ERROR or a DROP; any other event by an
-- event of the network that it names as next, which must be a RECEIVE if it points back.
abbrev pub IsNext : BtpEvent → BtpEvent → Type 0
IsNext cur e =
    ((cur.event ≡ receive) × ((e.event ≡ reply) ⊎ (e.event ≡ error) ⊎ (e.event ≡ dropped)))
    ⊎ ((cur.event ≢ receive)
        × (cur.next ≡ e.network_address)
        × (e.next ≡ cur.network_address → e.event ≡ receive))

-- `Removes e l r`: `r` is `l` without one occurrence of `e`.
pub data Removes {A : Type 0} (e : A) : List A → List A → Type 0 where
  here : {l : List A} → Removes e (e ∷ l) l
  there : {x : A} {l r : List A} → Removes e l r → Removes e (x ∷ l) (x ∷ r)

-- `Chain pool cur st links fin`: from `cur` in status `st`, the events `links` are drawn one by one
-- from `pool`, each continuing the one before, up to the status `fin`. The chain stops as soon
-- as the status is completed, and otherwise only when no event left continues the last one.
pub data Chain : List BtpEvent → BtpEvent → Status → List BtpEvent → Status → Type 0 where
  stop :
      {pool : List BtpEvent} {cur : BtpEvent} {st : Status}
      → All (λ e. ¬ IsNext cur e) pool
      → Chain pool cur st [] st
  close :
      {pool rest : List BtpEvent} {cur e : BtpEvent} {st : Status}
      → Removes e pool rest
      → IsNext cur e
      → infer_status e st ≡ completed
      → Chain pool cur st (e ∷ []) completed
  step :
      {pool rest : List BtpEvent} {cur e : BtpEvent} {st : Status} {links : List BtpEvent}
      {fin : Status}
      → Removes e pool rest
      → IsNext cur e
      → infer_status e st ≢ completed
      → Chain rest e (infer_status e st) links fin
      → Chain pool cur st (e ∷ links) fin

-- The test that `find_next_link` makes of each event.
continues : BtpEvent → BtpEvent → Bool
continues cur e =
    if str_eq cur.event receive
    then str_eq e.event reply || (str_eq e.event error || str_eq e.event dropped)
    else if str_eq cur.next e.network_address
    then if str_eq e.next cur.network_address then str_eq e.event receive else true
    else false

find_next_link-cons :
    (e : BtpEvent) (events : List BtpEvent) (cur : BtpEvent)
    → find_next_link (e ∷ events) cur
      ≡ (if continues cur e then some e else find_next_link events cur)
unfolding find_next_link continues
find_next_link-cons e events cur = ground arith

continues→IsNext : (cur e : BtpEvent) → continues cur e ≡ true → IsNext cur e
unfolding continues
continues→IsNext cur e h = ground (
  arith,
  eq_iff cur.event receive,
  eq_iff e.event reply,
  eq_iff e.event error,
  eq_iff e.event dropped,
  eq_iff e.event receive,
  eq_iff cur.next e.network_address,
  eq_iff e.next cur.network_address,
)

not-continues→IsNext : (cur e : BtpEvent) → continues cur e ≡ false → ¬ IsNext cur e
unfolding continues
not-continues→IsNext cur e h n = ground (
  arith,
  eq_iff cur.event receive,
  eq_iff e.event reply,
  eq_iff e.event error,
  eq_iff e.event dropped,
  eq_iff e.event receive,
  eq_iff cur.next e.network_address,
  eq_iff e.next cur.network_address,
)

pub find_next_link-none :
    (events : List BtpEvent) (cur : BtpEvent)
    → find_next_link events cur ≡ none
    → All (λ e. ¬ IsNext cur e) events
unfolding find_next_link
find_next_link-none [] cur h = tt
find_next_link-none (e ∷ events) cur h = elim (Bool-cases (continues cur e)) [
  | inl c ↦ absurd (ground (arith, find_next_link-cons e events cur))
  | inr c ↦ (
    not-continues→IsNext cur e c,
    find_next_link-none events cur (ground (arith, find_next_link-cons e events cur)),
  )
]

pub find_next_link-some :
    (events : List BtpEvent) (cur e : BtpEvent)
    → find_next_link events cur ≡ some e
    → IsNext cur e × Has e events
unfolding find_next_link
find_next_link-some [] cur e h = cc
find_next_link-some (x ∷ events) cur e h = elim (Bool-cases (continues cur x)) [
  | inl c ↦
      let p : x ≡ e = ground (arith, find_next_link-cons x events cur) in
      rw (← p) (continues→IsNext cur x c, inl refl)
  | inr c ↦
      let found =
        find_next_link-some events cur e (ground (arith, find_next_link-cons x events cur)) in
      (found.0, inr found.1)
]
