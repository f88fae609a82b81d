-- ===== src/Tracker/Links/Trim.antt =====
-- trimBTPEvents and trimBTPEventsById of tracker/bmc/tracker.go take one event out of the list.
use btp_sdk.Base.{
  All-Has, ℕ, suc, ◌+◌, ◌<◌, ◌≡◌, refl, ◌≢◌, inl, inr, some, List, [], ◌∷◌, map, arith, length, Has,
  All,
}
use mathlib.Core.Option
use btp_sdk.Tracker.Event.{BtpEvent}
use btp_sdk.Tracker.Links.{trim_btp_events, index_by_id, trim_btp_events_by_id}
use btp_sdk.Tracker.Links.Chain.{Removes, here, there}

index_by_id-suc :
    (i : ℕ) (l : List BtpEvent) (id : ℕ)
    → index_by_id (suc i) l id ≡ Option.map suc (index_by_id i l id)
unfolding index_by_id
index_by_id-suc i [] id = refl
index_by_id-suc i (x ∷ l) id = ground (arith, index_by_id-suc (i + 1) l id)

-- No two events have one primary key.
abbrev pub DistinctIds : List BtpEvent → Type 0
DistinctIds [] = Unit
DistinctIds (x ∷ xs) = All (λ y. x.id ≢ y.id) xs × DistinctIds xs

trim_one :
    (events : List BtpEvent) (e : BtpEvent)
    → Has e events
    → DistinctIds events
    → (i : ℕ) × (index_by_id 0 events e.id ≡ some i)
      × (i < length events)
      × Removes e events (trim_btp_events events i)
unfolding index_by_id trim_btp_events
trim_one [] e m d = absurd m
trim_one (x ∷ xs) e (inl p) d = (0, ground arith, omega arith, rw (← p) here)
trim_one (x ∷ xs) e (inr m) d =
    let (i, found, below, removed) = trim_one xs e m d.1 in
    let apart : x.id ≢ e.id = All-Has (λ y. x.id ≢ y.id) e xs d.0 m in
    let eq : suc i + 1 ≡ suc (i + 1) = omega arith in
    (suc i, ground (arith, index_by_id-suc 0 xs e.id), omega arith, rw eq (there removed))

pub Removes-length : {A : Type 0} (e : A) {l r : List A} → Removes e l r → length l ≡ suc (length r)
Removes-length e here = refl
Removes-length e (there h) = omega (arith, Removes-length e h)

pub Removes-All :
    {A : Type 0} (P : A → Type 0) (e : A) {l r : List A} → Removes e l r → All P l → All P r
Removes-All P e here h = h.1
Removes-All P e (there m) h = (h.0, Removes-All P e m h.1)

pub Removes-DistinctIds :
    (e : BtpEvent) {l r : List BtpEvent} → Removes e l r → DistinctIds l → DistinctIds r
Removes-DistinctIds e here d = d.1
Removes-DistinctIds e (there {x = x} m) d =
    (Removes-All (λ y. x.id ≢ y.id) e m d.0, Removes-DistinctIds e m d.1)

abbrev pub ids : List BtpEvent → List ℕ
ids = map (λ e. e.id)

pub trim_by_id_lem :
    (events : List BtpEvent) (e : BtpEvent) (n : ℕ)
    → Has e events
    → DistinctIds events
    → Removes e events (trim_btp_events_by_id events e.id n).0
      × ((trim_btp_events_by_id events e.id n).1 < length events)
unfolding trim_btp_events_by_id
trim_by_id_lem events e n m d =
    let (i, found, below, removed) = trim_one events e m d in
    rw (found, trim_btp_events_by_id) (removed, below)
