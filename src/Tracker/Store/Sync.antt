-- ===== src/Tracker/Store/Sync.antt =====
-- onBTPEvent: the stored status of a message is the one of its stored events.
use btp_sdk.Base.{◌≡◌, ◌≢◌, refl, ℕ, String, Option, none, some, arith, ap, ◌∙◌, sym, inl, inr}
use btp_sdk.Base.Int.{ℤ, pos}
use btp_sdk.Base.Results.{Result, ok, err, Result-cases}
use btp_sdk.Tracker.Event.{BtpEvent}
use btp_sdk.Tracker.Store.{
  Block, BtpStatus, panicked, Log, int64_of, new_status, new_btp_event, Database, from_database,
  links_of, store_block, store_btp_status, store_btp_event, update_link, or_else, store_and_link,
  with_status, on_btp_event, param_nsn, text_of,
}

-- What gorm documents of the calls. A condition on a field that is zero is left out of the query,
-- so the laws of FindOne ask for a source and a number that are not.
pub record IsDatabase (d : Database) : Type 0 where
  pub found_status :
      (src : String) (nsn : ℤ) (s : d.Store) (bs : BtpStatus)
      → src ≢ ""
      → nsn ≢ pos 0
      → d.find_status src nsn s ≡ ok (some bs)
      → (bs.src ≡ src) × (bs.nsn ≡ nsn)
  pub saved_status :
      (bs old : BtpStatus) (s s' : d.Store)
      → d.find_status bs.src bs.nsn s ≡ ok (some old)
      → old.id ≡ bs.id
      → d.save_status bs s ≡ ok s'
      → d.find_status bs.src bs.nsn s' ≡ ok (some bs)
  pub events_kept :
      (bs : BtpStatus) (s s' : d.Store)
      → d.save_status bs s ≡ ok s'
      → (src : String) (nsn : ℤ) → d.find_events src nsn s' ≡ d.find_events src nsn s
  pub statuses_kept :
      (e : BtpEvent) (s s' : d.Store)
      → d.save_event e s ≡ ok s'
      → (src : String) (nsn : ℤ) → d.find_status src nsn s' ≡ d.find_status src nsn s

module _ (d : Database) where
  open d use {Store, find_status, save_status, find_events}

  -- The stored status of a message has the links and the status of the stored events.
  abbrev pub InSync : String → ℤ → Store → Type 0
  InSync src nsn s =
      (bs : BtpStatus) × (find_status src nsn s ≡ ok (some bs))
      × (bs.links ≡ some (links_of (find_events src nsn s)).0)
      × (bs.status ≡ (links_of (find_events src nsn s)).1)

  from_database-ok : {A : Type 0} (r : Result String A) (a : A) → from_database r ≡ ok a → r ≡ ok a
  from_database-ok (ok x) a q = ground (arith, q)
  from_database-ok (err e) a q = absurd (ground (arith, q))

  update_link-InSync :
      (bs : BtpStatus) (src network na : String) (nsn : ℤ) (s s' : Store)
      → IsDatabase d
      → src ≢ ""
      → nsn ≢ pos 0
      → find_status src nsn s ≡ ok (some bs)
      → update_link d bs src network na nsn s ≡ ok s'
      → InSync src nsn s'
  unfolding update_link
  update_link-InSync bs src network na nsn s s' laws hs hn found q =
      let r = links_of (find_events src nsn s) in
      let new : BtpStatus = record bs {
        links = some r.0;
        status = r.1;
        last_network_name = network;
        last_network_address = na;
      } in
      let saved : save_status new s ≡ ok s' = from_database-ok _ s' q in
      let at = laws.found_status src nsn s bs hs hn found in
      let kept = laws.events_kept new s s' saved src nsn in
      let old : find_status bs.src bs.nsn s ≡ ok (some bs) =
        ap (λ x. find_status x bs.nsn s) at.0 ∙ ap (λ x. find_status src x s) at.1 ∙ found in
      let stored : find_status bs.src bs.nsn s' ≡ ok (some new) =
        laws.saved_status new bs s s' old refl saved in
      (
        new,
        ap (λ x. find_status x nsn s') (sym at.0)
            ∙ ap (λ x. find_status bs.src x s') (sym at.1)
            ∙ stored,
        ap (λ x. some (links_of x).0) (sym kept),
        ap (λ x. (links_of x).1) (sym kept),
      )

  status_after_event :
      (e : Log) (src : String) (nsn : ℤ) (i j : ℕ) (network na : String) (s : Store)
      → IsDatabase d
      → find_status src nsn (or_else d (store_btp_event d e src nsn i j network na s) s)
        ≡ find_status src nsn s
  unfolding store_btp_event
  status_after_event e src nsn i j network na s laws =
      elim (Result-cases (store_btp_event d e src nsn i j network na s)) [
        | inr (x, q) ↦ ap (λ r. find_status src nsn (or_else d r s)) q
        | inl (s1, q) ↦ elim (Result-cases e.tx_id) [
          | inr (x, t) ↦ absurd (ground (arith, q, t))
          | inl (tx, t) ↦
              ap (λ r. find_status src nsn (or_else d r s)) q
              ∙ laws.statuses_kept (new_btp_event e src nsn tx i j network na) s s1
                  (from_database-ok (d.save_event (new_btp_event e src nsn tx i j network na) s) s1
                    (ground (arith, q, t)))
                  src nsn
        ]
      ]

  store_btp_status-found :
      (src network na : String) (nsn : ℤ) (s s1 : Store) (bs : Option BtpStatus)
      → store_btp_status d src network na nsn s ≡ ok (bs, s1)
      → find_status src nsn s1 ≡ ok bs
  unfolding store_btp_status
  store_btp_status-found src network na nsn s s1 bs q =
      elim (Result-cases (find_status src nsn s)) [
        | inr (x, f) ↦ absurd (ground (arith, q, f))
        | inl (some found, f) ↦ ground (arith, q, f)
        | inl (none, f) ↦ elim (Result-cases (save_status (new_status src nsn network na) s)) [
          | inr (x, w) ↦ absurd (ground (arith, q, f, w))
          | inl (s2, w) ↦ elim (Result-cases (find_status src nsn s2)) [
            | inr (x, g) ↦ absurd (ground (arith, q, f, w, g))
            | inl (o, g) ↦ ground (arith, q, f, w, g)
          ]
        ]
      ]

  with_status-InSync :
      (e : Log) (b : Option Block) (src network na : String) (nsn : ℤ) (s s' : Store)
      → IsDatabase d
      → src ≢ ""
      → nsn ≢ pos 0
      → with_status d e b src nsn network na s ≡ ok s'
      → InSync src nsn s'
  unfolding with_status store_and_link
  with_status-InSync e none src network na nsn s s' laws hs hn q =
      elim (Result-cases (store_btp_status d src network na nsn s)) [
        | inr (x, f) ↦ absurd (ground (arith, q, f))
        | inl ((bs, s1), f) ↦ absurd (ground (arith, q, f))
      ]
  with_status-InSync e (some b) src network na nsn s s' laws hs hn q =
      elim (Result-cases (store_btp_status d src network na nsn s)) [
        | inr (x, f) ↦ absurd (ground (arith, q, f))
        | inl ((none, s1), f) ↦ absurd (ground (arith, q, f))
        | inl ((some bs, s1), f) ↦
            let s2 = or_else d (store_btp_event d e src nsn b.id bs.id network na s1) s1 in
            let found : find_status src nsn s2 ≡ ok (some bs) =
              status_after_event e src nsn b.id bs.id network na s1 laws
              ∙ store_btp_status-found src network na nsn s s1 (some bs) f in
            update_link-InSync bs src network na nsn s2 s' laws hs hn found (ground (arith, q, f))
      ]

  -- For a message whose source is not empty and whose number is not 0, on a database that keeps the laws of
  -- gorm's calls: after `onBTPEvent` has returned without an error, the stored status of the message has exactly
  -- the links and the status that `getLinks` computes from the stored events of the message (those of
  -- no event, if reading them fails), whether or not the event itself could be stored.
  pub on_btp_event-InSync :
      (network na : String) (e : Log) (src : String) (nsn : ℤ) (s s' : Store)
      → IsDatabase d
      → src ≢ ""
      → nsn ≢ pos 0
      → e.src ≡ ok src
      → e.nsn ≡ int64_of (ok nsn)
      → on_btp_event d network na e s ≡ ok s'
      → InSync src nsn s'
  unfolding on_btp_event param_nsn
  on_btp_event-InSync network na e src nsn s s' laws hs hn es en q =
      elim (Result-cases (store_block d network na (text_of e.block_hash) e.block_height s)) [
        | inr (x, f) ↦ absurd (ground (arith, q, f))
        | inl ((b, s1), f) ↦
            with_status-InSync e b src network na nsn s1 s' laws hs hn
              (ground (arith, q, f, es, en))
      ]

  -- Where storing the status of the message fails, `onBTPEvent` panics: the error is dropped, and the
  -- status is nil.
  pub on_btp_event-nil_status :
      (network na : String) (e : Log) (src : String) (nsn : ℤ) (b : Option Block) (s s1 : Store)
      (x : String)
      → store_block d network na (text_of e.block_hash) e.block_height s ≡ ok (b, s1)
      → e.src ≡ ok src
      → e.nsn ≡ int64_of (ok nsn)
      → store_btp_status d src network na nsn s1 ≡ err x
      → on_btp_event d network na e s ≡ err panicked
  unfolding on_btp_event param_nsn with_status
  on_btp_event-nil_status network na e src nsn b s s1 x f es en g = ground (arith, f, es, en, g)
