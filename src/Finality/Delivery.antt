-- ===== src/Finality/Delivery.antt =====
-- The sends of `notify` (contract/monitor.go): none panics, and each keeps the invariant.
use btp_sdk.Base.{
  ℕ, ◌≡◌, refl, inl, inr, true, false, ◌||◌, some, List, [], ◌∷◌, ◌++◌, ltb, ◌==◌, ==_iff, length,
  arith, Bool-cases,
}
use btp_sdk.Finality.{
  BlockInfo, Monitor, mem, delete, update, try_send, notify_one, notify_all, is_empty,
}
use btp_sdk.Finality.Invariant.{
  Distinct, Agrees, removed, removed-Agrees, Keeps, Keeps-trans, removed-Keeps, mem-removed,
}

pub is_empty-delete : (k : ℕ) (l : List ℕ) → is_empty (delete k l) ≡ false → is_empty l ≡ false
is_empty-delete k [] h = h
is_empty-delete k (j ∷ l) h = refl

-- The send that `notify` makes to one subscription of the map.
pub notify_one_lem :
    (b : BlockInfo) (k : ℕ) (s : Monitor)
    → Agrees s
    → mem k s.m ≡ true
    → (t : Monitor) × (notify_one b k s ≡ some t)
      × Agrees t
      × Keeps s t
      × ((j : ℕ) → (k == j) ≡ false → mem j t.m ≡ mem j s.m)
      × (is_empty t.m ≡ false → is_empty s.m ≡ false)
unfolding notify_one try_send
notify_one_lem b k s v h =
    let c = s.chans k in
    let is_open : c.closed ≡ false = ground (arith, v.issued k, v.listed_open k) in
    elim (Bool-cases (c.waiting || ltb (length c.queue) c.size)) [
      | inl room ↦ (
        record s {
          chans = update s.chans k (record c { queue = c.queue ++ b ∷ []; waiting = false });
        },
        rw (is_open, room) refl,
        record {
          issued = v.issued;
          listed_open = λ j q. ground (arith, v.listed_open j, v.issued k, ==_iff k j);
          distinct = v.distinct;
        },
        ground arith,
        λ j q. refl,
        λ q. q,
      )
      | inr full ↦ (
        removed k s,
        ground (arith, is_open, full, h),
        removed-Agrees k s v,
        removed-Keeps k s,
        λ j q. ground (arith, mem-removed k j s),
        λ q. ground (arith, is_empty-delete k s.m),
      )
    ]

-- Every entry is in the map.
unfoldable pub Listed : List ℕ → Monitor → Type 0
Listed ks s = (j : ℕ) → mem j ks ≡ true → mem j s.m ≡ true

pub notify_all_lem :
    (b : BlockInfo) (ks : List ℕ) (s : Monitor)
    → Distinct ks
    → Agrees s
    → Listed ks s
    → (t : Monitor) × (notify_all b ks s ≡ some t)
      × Agrees t
      × Keeps s t
      × (is_empty t.m ≡ false → is_empty s.m ≡ false)
unfolding notify_all Listed
notify_all_lem b [] s d v l = (s, refl, v, ground arith, λ q. q)
notify_all_lem b (k ∷ ks) s d v l =
    let (u, eq, w, kept, others, live) = notify_one_lem b k s v (ground (arith, l k)) in
    let (t, eq', x, kept', live') =
      notify_all_lem b ks u d.1 w (λ j h. ground (arith, l j, others j, ==_iff k j, d.0)) in
    (t, rw eq eq', x, Keeps-trans kept kept', λ q. live (live' q))
