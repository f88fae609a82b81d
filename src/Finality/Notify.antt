-- ===== src/Finality/Notify.antt =====
-- What `notify` delivers (contract/monitor.go): every subscription with room gets the block, and
-- those without are dropped.
use btp_sdk.Base.{
  ℕ, ◌≡◌, Bool, true, false, not, ◌||◌, ◌&&◌, some, List, [], ◌∷◌, ◌++◌, ltb, ◌==◌, ==_iff,
  if◌then◌else◌, length, arith,
}
use btp_sdk.Finality.{BlockInfo, Chan, Monitor, mem, notify_one, notify_all, notify}
use btp_sdk.Finality.Invariant.{Distinct, Agrees, IsValid, mem-delete}
use btp_sdk.Finality.Delivery.{Listed, notify_one_lem, notify_all_lem}

-- A place in the buffer, or a receiver that waits.
abbrev pub has_room : Chan → Bool
has_room c = c.waiting || ltb (length c.queue) c.size

-- A subscriber's channel after a block was offered to it.
abbrev pub offered : BlockInfo → Chan → Chan
offered b c =
    if has_room c
    then record c { queue = c.queue ++ b ∷ []; waiting = false }
    else record c { closed = true }

module _ (b : BlockInfo) (k : ℕ) (s : Monitor) (v : Agrees s) (h : mem k s.m ≡ true) where
  notify_one_offers :
      (t : Monitor)
      → notify_one b k s ≡ some t
      → (j : ℕ)
      → (t.chans j ≡ (if k == j then offered b (s.chans j) else s.chans j))
        × (mem j t.m ≡ (mem j s.m && (not (k == j) || has_room (s.chans j))))
  unfolding notify_one
  notify_one_offers t e j =
      ground (arith, v.issued k, v.listed_open k, mem-delete k j s.m, ==_iff k j)

notify_all_offers :
    (b : BlockInfo) (ks : List ℕ) (s t : Monitor)
    → Distinct ks
    → Agrees s
    → Listed ks s
    → notify_all b ks s ≡ some t
    → (j : ℕ)
    → (t.chans j ≡ (if mem j ks then offered b (s.chans j) else s.chans j))
      × (mem j t.m ≡ (mem j s.m && (not (mem j ks) || has_room (s.chans j))))
unfolding notify_all Listed
notify_all_offers b [] s t d v l e j = ground arith
notify_all_offers b (k ∷ ks) s t d v l e j =
    let listed : mem k s.m ≡ true = ground (arith, l k) in
    let (u, one, w, kept, others, live) = notify_one_lem b k s v listed in
    let tail : notify_all b ks u ≡ some t = ground (arith, one) in
    let first = notify_one_offers b k s v listed u one j in
    let later =
      notify_all_offers b ks u t d.1 w (λ i h. ground (arith, l i, others i, ==_iff k i, d.0)) tail
        j in
    ground (arith, first, later, ==_iff k j, d.0)

-- A notification on a valid monitor does not panic. It records the block as the last one; each
-- subscription of the map that has room receives the block at the end of its queue and stays;
-- each that has none has its channel closed, with the queue as it was, and leaves the map; and
-- every other channel is unchanged.
pub notify-offers :
    (b : BlockInfo) (s : Monitor)
    → IsValid s
    → (t : Monitor) × (notify b s ≡ some t)
      × (t.last ≡ some b)
      × ((j : ℕ) → t.chans j ≡ (if mem j s.m then offered b (s.chans j) else s.chans j))
      × ((j : ℕ) → mem j t.m ≡ (mem j s.m && has_room (s.chans j)))
unfolding notify Listed
notify-offers b s v =
    let noted = record s { last = some b } in
    let w : Agrees noted = record {
      issued = v.agrees.issued;
      listed_open = v.agrees.listed_open;
      distinct = v.agrees.distinct;
    } in
    let (t, eq, a, kept, live) = notify_all_lem b s.m noted v.agrees.distinct w (λ j h. h) in
    let offers = notify_all_offers b s.m noted t v.agrees.distinct w (λ j h. h) eq in
    (t, eq, kept.last_same, λ j. (offers j).0, λ j. ground (arith, (offers j).1))
