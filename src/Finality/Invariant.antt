-- ===== src/Finality/Invariant.antt =====
-- The invariant of the monitor's map and channels (contract/monitor.go), and that _remove keeps it.
use btp_sdk.Base.{
  ℕ, ◌<◌, ◌≡◌, refl, ◌∙◌, inl, inr, true, false, not, ◌&&◌, some, List, [], ◌∷◌, ◌==◌, ==_iff,
  if◌then◌else◌, arith, Bool-cases,
}
use btp_sdk.Finality.{Monitor, mem, delete, update, remove_sub, is_empty}

abbrev pub Distinct : List ℕ → Type 0
Distinct [] = Unit
Distinct (k ∷ l) = (mem k l ≡ false) × Distinct l

-- The map and the channels agree: a subscription is in the map exactly when its channel is open.
pub record Agrees (s : Monitor) : Type 0 where
  pub issued : (k : ℕ) → mem k s.m ≡ true → k < s.fresh
  pub listed_open : (k : ℕ) → k < s.fresh → (s.chans k).closed ≡ not (mem k s.m)
  pub distinct : Distinct s.m

pub record IsValid (s : Monitor) : Type 0 where
  pub agrees : Agrees s
  pub running : is_empty s.m ≡ false → s.started ≡ true

pub mem-delete : (k j : ℕ) (l : List ℕ) → mem j (delete k l) ≡ (mem j l && not (k == j))
mem-delete k j [] = refl
mem-delete k j (i ∷ l) = ground (arith, mem-delete k j l)

pub delete-Distinct : (k : ℕ) (l : List ℕ) → Distinct l → Distinct (delete k l)
delete-Distinct k [] d = d
delete-Distinct k (i ∷ l) d = elim (Bool-cases (i == k)) [
  | inl e ↦ rw e (delete-Distinct k l d.1)
  | inr e ↦ rw e (ground (arith, mem-delete k i l), delete-Distinct k l d.1)
]

-- What `remove_sub` makes of a valid state.
abbrev pub removed : ℕ → Monitor → Monitor
removed k s =
    if mem k s.m
    then record s {
      m = delete k s.m;
      chans = update s.chans k (record (s.chans k) { closed = true });
    }
    else s

pub remove_sub_lem : (k : ℕ) (s : Monitor) → Agrees s → remove_sub k s ≡ some (removed k s)
unfolding remove_sub
remove_sub_lem k s v = ground (arith, v.issued k, v.listed_open k)

pub removed-Agrees : (k : ℕ) (s : Monitor) → Agrees s → Agrees (removed k s)
removed-Agrees k s v = elim (Bool-cases (mem k s.m)) [
  | inr e ↦ rw e v
  | inl e ↦ rw e (record {
    issued = λ j h. ground (arith, mem-delete k j s.m, v.issued j);
    listed_open = λ j h. ground (arith, mem-delete k j s.m, v.listed_open j, v.issued k);
    distinct = delete-Distinct k s.m v.distinct;
  })
]

-- A step that keeps the counter, and the flag and the last block as they were.
pub record Keeps (s t : Monitor) : Type 0 where
  pub fresh_same : t.fresh ≡ s.fresh
  pub started_same : t.started ≡ s.started
  pub last_same : t.last ≡ s.last

pub Keeps-trans : {s t u : Monitor} → Keeps s t → Keeps t u → Keeps s u
Keeps-trans a b = record {
  fresh_same = b.fresh_same ∙ a.fresh_same;
  started_same = b.started_same ∙ a.started_same;
  last_same = b.last_same ∙ a.last_same;
}

pub removed-Keeps : (k : ℕ) (s : Monitor) → Keeps s (removed k s)
removed-Keeps k s = ground arith

pub mem-removed : (k j : ℕ) (s : Monitor) → mem j (removed k s).m ≡ (mem j s.m && not (k == j))
mem-removed k j s = ground (arith, mem-delete k j s.m, ==_iff k j)
