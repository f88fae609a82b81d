-- ===== src/Tracker/Links/Loop.antt =====
-- The loop of getLinks ends, and what it returns.
use btp_sdk.Base.{
  ℕ, zero, suc, ◌+◌, ◌≤◌, ◌<◌, ◌≡◌, refl, ap, ◌≢◌, ◌↔◌, ◌⊎◌, inl, inr, true, none, some, List, [],
  ◌∷◌, ◌++◌, arith, str_eq, eq_iff, leb, length, All, Bool-cases, Option-cases,
}
use mathlib.Core.List.{append-nil, append_assoc}
use native.Mathlib.Nat.{add-zero, zero-add}
use btp_sdk.Tracker.Event.{BtpEvent, Status, unknown, sending, completed, is_completed, send}
use btp_sdk.Tracker.Links.{
  infer_status, find_starting_from, find_starting_event, find_next_link, trim_btp_events,
  trim_btp_events_by_id, follow, get_links,
}
use btp_sdk.Tracker.Links.Chain.{
  Removes, here, there, Chain, stop, close, step, find_next_link-none, find_next_link-some,
}
use btp_sdk.Tracker.Links.Trim.{
  trim_by_id_lem, Removes-length, Removes-DistinctIds, ids, DistinctIds,
}

is_completed_iff : (st : Status) → (is_completed st ≡ true) ↔ (st ≡ completed)
is_completed_iff st = ground arith

-- One more link in front of a chain that the loop has found.
push-ids :
    (links : List ℕ) (e : BtpEvent) (chain : List BtpEvent)
    → (links ++ e.id ∷ []) ++ ids chain ≡ links ++ ids (e ∷ chain)
push-ids links e chain = append_assoc links (e.id ∷ []) (ids chain)

follow-Chain :
    (fuel : ℕ) (events : List BtpEvent) (n : ℕ) (cur : BtpEvent) (links : List ℕ) (st : Status)
    → DistinctIds events
    → length events < fuel
    → n ≤ length events + 1
    → (chain : List BtpEvent) × (fin : Status) × (follow fuel events n cur links st
        ≡ some (links ++ ids chain, fin))
      × Chain events cur st chain fin
unfolding follow
follow-Chain zero events n cur links st d f b = absurd (omega arith)
follow-Chain (suc fuel) events n cur links st d f b =
    let more : leb n (length events + 1) ≡ true = ground arith in
    elim (Option-cases (find_next_link events cur)) [
      | inl last ↦
          ([], st, ground (arith, append-nil links), stop (find_next_link-none events cur last))
      | inr (e, found) ↦
          let (next, m) = find_next_link-some events cur e found in
          let (removed, below) = trim_by_id_lem events e n m d in
          elim (Bool-cases (is_completed (infer_status e st))) [
            | inl done ↦
                let p : infer_status e st ≡ completed = (is_completed_iff _).0 done in
                (e ∷ [], completed, ground arith, close removed next p)
            | inr going ↦
                let trimmed = trim_btp_events_by_id events e.id n in
                let shorter = Removes-length e removed in
                let (chain, fin, eq, c) =
                  follow-Chain fuel trimmed.0 (trimmed.1 + 1) e (links ++ e.id ∷ [])
                    (infer_status e st) (Removes-DistinctIds e removed d) (omega arith)
                    (omega arith) in
                (
                  e ∷ chain,
                  fin,
                  ground (arith, eq, push-ids links e chain),
                  step removed next (λ q. ground (arith, going, q)) c,
                )
          ]
    ]

trim_at :
    (pre : List BtpEvent) (e : BtpEvent) (post : List BtpEvent)
    → trim_btp_events (pre ++ e ∷ post) (length pre) ≡ pre ++ post
unfolding trim_btp_events
trim_at [] e post = refl
trim_at (x ∷ pre) e post =
    let eq : suc (length pre) + 1 ≡ suc (length pre + 1) = omega arith in
    rw eq (ap (◌∷◌ x) (trim_at pre e post))

Removes-middle :
    {A : Type 0} (pre : List A) (e : A) (post : List A) → Removes e (pre ++ e ∷ post) (pre ++ post)
Removes-middle [] e post = here
Removes-middle (x ∷ pre) e post = there (Removes-middle pre e post)

-- The first SEND event splits the list.
abbrev pub StartsAt : List BtpEvent → List BtpEvent → BtpEvent → List BtpEvent → Type 0
StartsAt events pre e post =
    (events ≡ pre ++ e ∷ post) × All (λ x. x.event ≢ send) pre × (e.event ≡ send)

find_starting_cases :
    (i : ℕ) (events : List BtpEvent)
    → (All (λ e. e.event ≢ send) events × (find_starting_from i events ≡ none))
      ⊎ ((pre : List BtpEvent) × (e : BtpEvent) × (post : List BtpEvent) × StartsAt events pre e
            post
          × (find_starting_from i events ≡ some (e, i + length pre)))
unfolding find_starting_from
find_starting_cases i [] = inl (tt, refl)
find_starting_cases i (x ∷ events) = elim (Bool-cases (str_eq x.event send)) [
  | inl e ↦ inr ([], x, events, (refl, tt, (eq_iff x.event send).0 e), rw (e, add-zero))
  | inr e ↦
      let other : x.event ≢ send = λ p. ground (arith, eq_iff x.event send) in
      elim (find_starting_cases (i + 1) events) [
        | inl (all, q) ↦ inl ((other, all), rw e q)
        | inr (pre, s, post, (split, before, is_send), q) ↦
            let shifted : i + suc (length pre) ≡ i + 1 + length pre = omega arith in
            inr (x ∷ pre, s, post, (ap (◌∷◌ x) split, (other, before), is_send), rw (e, shifted) q)
      ]
]

-- For events with distinct primary keys getLinks always returns, with the fuel of the model. If
-- no event is a SEND the result is no link and the status Unknown. Otherwise the links are the
-- primary keys of the first SEND event and of a chain of continuations drawn from the other events,
-- each event at most once. The chain ends where the status becomes Completed, or where none of the events
-- that are left continues its last event, and the status is the one that the chain ends in. (Other choices
-- of continuations may give a chain with more events.)
pub get_links-Chain :
    (events : List BtpEvent)
    → DistinctIds events
    → (All (λ e. e.event ≢ send) events × (get_links events ≡ some ([], unknown)))
      ⊎ ((pre : List BtpEvent) × (e : BtpEvent) × (post : List BtpEvent) × (chain : List BtpEvent)
          × (fin : Status) × StartsAt events pre e post
          × (get_links events ≡ some (ids (e ∷ chain), fin))
          × Chain (pre ++ post) e sending chain fin)
unfolding get_links find_starting_event
get_links-Chain events d = elim (find_starting_cases 0 events) [
  | inl (all, q) ↦ inl (all, rw (q, get_links))
  | inr (pre, e, post, at, q) ↦
      let trimmed : trim_btp_events events (0 + length pre) ≡ pre ++ post =
        rw (zero-add (length pre), at.0) (trim_at pre e post) in
      let removed : Removes e events (pre ++ post) = rw at.0 (Removes-middle pre e post) in
      let shorter = Removes-length e removed in
      let (chain, fin, eq, c) =
        follow-Chain (length events + 1) (pre ++ post) 1 e (e.id ∷ []) sending
          (Removes-DistinctIds e removed d) (omega arith) (omega arith) in
      inr (pre, e, post, chain, fin, at, rw (q, get_links, trimmed) eq, c)
]
