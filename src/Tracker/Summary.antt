-- ===== src/Tracker/Summary.antt =====
-- tracker/bmc/repository.go: SummaryOfBtpStatusByNetworks, from the counts that the query groups by source and
-- status. The map of summaries is a list with each address once; the source lists it in any order.
use btp_sdk.Base.{
  ◌≡◌, refl, ℕ, ◌+◌, ◌%◌, ◌^◌, String, Bool, true, false, Option, none, some, List, [], ◌∷◌,
  if◌then◌else◌, str_eq, eq_iff, arith, inl, inr, Bool-cases, ap, ◌∙◌, sym, ◌<◌,
}
use mathlib.Core.Path.{subst}

pub record StatusCount : Type 0 where
  pub src : String
  pub status : String
  pub count : ℕ

pub record NetworkSummary : Type 0 where
  pub address : String
  pub total : ℕ
  pub in_delivery : ℕ
  pub completed : ℕ

-- addition of 64 bits
abbrev pub plus : ℕ → ℕ → ℕ
plus a b = (a + b) % 2 ^ 64

-- the `switch`: what a count adds to `completed`, and to `inDelivery`
abbrev pub completed_part : StatusCount → ℕ
completed_part c = if str_eq c.status "Completed" then c.count else 0

abbrev pub delivery_part : StatusCount → ℕ
delivery_part c = if str_eq c.status "Completed" then 0 else c.count

-- one round of the loop
unfoldable pub add_count : StatusCount → List NetworkSummary → List NetworkSummary
add_count c [] =
    record {
      address = c.src;
      total = c.count;
      in_delivery = delivery_part c;
      completed = completed_part c;
    }
    ∷ []
add_count c (x ∷ xs) =
    let rest = add_count c xs in
    if str_eq x.address c.src
    then record x {
      total = plus x.total c.count;
      in_delivery = plus x.in_delivery (delivery_part c);
      completed = plus x.completed (completed_part c);
    }
      ∷ xs
    else x ∷ rest

unfoldable pub summarize_from : List NetworkSummary → List StatusCount → List NetworkSummary
unfolding add_count
summarize_from m [] = m
summarize_from m (c ∷ cs) = summarize_from (add_count c m) cs

unfoldable pub summary_of_btp_status_by_networks : List StatusCount → List NetworkSummary
unfolding summarize_from
summary_of_btp_status_by_networks counts = summarize_from [] counts

abbrev pub summary_of : String → List NetworkSummary → Option NetworkSummary
summary_of a [] = none
summary_of a (x ∷ xs) = if str_eq x.address a then some x else summary_of a xs

-- The sum over the counts of an address.
abbrev pub sum_of : (StatusCount → ℕ) → String → List StatusCount → ℕ
sum_of f a [] = 0
sum_of f a (c ∷ cs) = if str_eq c.src a then f c + sum_of f a cs else sum_of f a cs

abbrev pub occurs : String → List StatusCount → Bool
occurs a [] = false
occurs a (c ∷ cs) = if str_eq c.src a then true else occurs a cs

-- What the counts say of an address, given its summary so far.
abbrev plus_counts : String → Option NetworkSummary → List StatusCount → Option NetworkSummary
plus_counts a (some x) cs = some (record x {
  total = x.total + sum_of (λ c. c.count) a cs;
  in_delivery = x.in_delivery + sum_of delivery_part a cs;
  completed = x.completed + sum_of completed_part a cs;
})
plus_counts a none cs =
    if occurs a cs
    then some (record {
      address = a;
      total = sum_of (λ c. c.count) a cs;
      in_delivery = sum_of delivery_part a cs;
      completed = sum_of completed_part a cs;
    })
    else none

-- The sums of an address stay below 2^63.
abbrev Fits : String → Option NetworkSummary → List StatusCount → Type 0
Fits a none cs = sum_of (λ c. c.count) a cs < 2 ^ 63
Fits a (some x) cs =
    (x.total + sum_of (λ c. c.count) a cs < 2 ^ 63) × (x.in_delivery + x.completed ≡ x.total)

plus-small : (a b : ℕ) → a + b < 2 ^ 63 → plus a b ≡ a + b
plus-small a b h = omega arith

-- one summary after one count
abbrev plus_one : String → Option NetworkSummary → StatusCount → Option NetworkSummary
plus_one a none c = some (record {
  address = a;
  total = c.count;
  in_delivery = delivery_part c;
  completed = completed_part c;
})
plus_one a (some x) c = some (record x {
  total = plus x.total c.count;
  in_delivery = plus x.in_delivery (delivery_part c);
  completed = plus x.completed (completed_part c);
})

summary_of-add_count :
    (a : String) (c : StatusCount) (m : List NetworkSummary)
    → summary_of a (add_count c m)
      ≡ (if str_eq c.src a then plus_one a (summary_of a m) c else summary_of a m)
unfolding add_count
summary_of-add_count a c [] = elim (Bool-cases (str_eq c.src a)) [
  | inl y ↦ rw y (
      ap
        (λ z. some (record {
          address = z;
          total = c.count;
          in_delivery = delivery_part c;
          completed = completed_part c;
        }))
        ((eq_iff c.src a).0 y))
  | inr y ↦ rw y refl
]
summary_of-add_count a c (x ∷ xs) =
    ground (
      arith,
      eq_iff c.src a,
      eq_iff x.address a,
      eq_iff x.address c.src,
      summary_of-add_count a c xs,
    )

sum_of-parts :
    (a : String) (cs : List StatusCount)
    → sum_of delivery_part a cs + sum_of completed_part a cs ≡ sum_of (λ c. c.count) a cs
sum_of-parts a [] = refl
sum_of-parts a (c ∷ cs) = elim (Bool-cases (str_eq c.src a)) [
  | inl y ↦ elim (Bool-cases (str_eq c.status "Completed")) [
    | inl z ↦ ground (arith, y, z, sum_of-parts a cs)
    | inr z ↦ ground (arith, y, z, sum_of-parts a cs)
  ]
  | inr y ↦ ground (arith, y, sum_of-parts a cs)
]

parts : (c : StatusCount) → delivery_part c + completed_part c ≡ c.count
parts c = ground arith

-- what one more count does to an address
abbrev next : String → Option NetworkSummary → StatusCount → Option NetworkSummary
next a o c = if str_eq c.src a then plus_one a o c else o

next-Fits :
    (a : String) (o : Option NetworkSummary) (c : StatusCount) (cs : List StatusCount)
    → Fits a o (c ∷ cs)
    → Fits a (next a o c) cs × (plus_counts a (next a o c) cs ≡ plus_counts a o (c ∷ cs))
next-Fits a none c cs h = elim (Bool-cases (str_eq c.src a)) [
  | inl y ↦ rw y ((ground (arith, h, y), parts c), refl)
  | inr y ↦ rw y (ground (arith, h, y), refl)
]
next-Fits a (some x) c cs h = elim (Bool-cases (str_eq c.src a)) [
  | inl y ↦
      let below : x.total + (c.count + sum_of (λ k. k.count) a cs) < 2 ^ 63 =
        ground (arith, h, y) in
      let whole = parts c in
      let total = plus-small x.total c.count (omega (arith, below)) in
      let delivery =
        plus-small x.in_delivery (delivery_part c) (omega (arith, below, h.1, whole)) in
      let complete = plus-small x.completed (completed_part c) (omega (arith, below, h.1, whole)) in
      rw (y, total, delivery, complete)
        ((omega (arith, below), omega (arith, h.1, whole)), ground arith)
  | inr y ↦ rw y ((ground (arith, h, y), h.1), refl)
]

plus_counts-none : (a : String) (o : Option NetworkSummary) → o ≡ plus_counts a o []
plus_counts-none a none = refl
plus_counts-none a (some x) = ground arith

summarize-counts :
    (a : String) (cs : List StatusCount) (m : List NetworkSummary)
    → Fits a (summary_of a m) cs
    → summary_of a (summarize_from m cs) ≡ plus_counts a (summary_of a m) cs
unfolding summarize_from
summarize-counts a [] m h = plus_counts-none a (summary_of a m)
summarize-counts a (c ∷ cs) m h =
    let step = next-Fits a (summary_of a m) c cs h in
    let at = summary_of-add_count a c m in
    summarize-counts a cs (add_count c m) (subst (λ o. Fits a o cs) (sym at) step.0)
    ∙ ap (λ o. plus_counts a o cs) at
    ∙ step.1

-- For every address whose counts sum up to less than 2^63, the summary has no entry if no count is of
-- this address, and otherwise its total is the sum of these counts, Completed the sum of those with
-- that status, InDelivery the sum of the others; and the two make up the total.
pub summary-sums :
    (a : String) (counts : List StatusCount)
    → sum_of (λ c. c.count) a counts < 2 ^ 63
    → (summary_of a (summary_of_btp_status_by_networks counts) ≡ (
        if occurs a counts
        then some (record {
          address = a;
          total = sum_of (λ c. c.count) a counts;
          in_delivery = sum_of delivery_part a counts;
          completed = sum_of completed_part a counts;
        })
        else none))
      × (sum_of delivery_part a counts + sum_of completed_part a counts
          ≡ sum_of (λ c. c.count) a counts)
unfolding summary_of_btp_status_by_networks
summary-sums a counts h = (summarize-counts a counts [] h, sum_of-parts a counts)
