-- ===== src/Rows/Laws.antt =====
-- Lemmas on updates and deletions, and what a pass has done where it marks rows.
use btp_sdk.Base.{
  ◌≡◌, refl, ◌⊎◌, inl, inr, ℕ, String, Bool, true, false, List, [], ◌∷◌, All, Has, All-Has,
  if◌then◌else◌, arith, Bool-cases, ap, ◌∙◌, sym,
}
use btp_sdk.Base.Results.{Result, ok, Result-cases}
use mathlib.Core.Path.{subst}
use btp_sdk.Finality.Verdict.{Error as FinalityError, not_found_block}
use btp_sdk.Rows.{
  filter, update_where, delete_where, RowTable, IsRowTable, PassError, marked, dropped, Verdict,
  all_finalized, gone, failed, Column, check, pass,
}

-- A property that the new rows have and the kept rows have holds of all rows after an update.
pub All-update :
    {R : Type 0} {P Q : R → Type 0} (q : R → Bool) (f : R → R)
    → ((r : R) → P r → q r ≡ true → Q (f r))
    → ((r : R) → P r → q r ≡ false → Q r)
    → (rs : List R) → All P rs
    → All Q (update_where q f rs)
All-update q f h k [] a = tt
All-update q f h k (r ∷ rs) (p, a) = elim (Bool-cases (q r)) [
  | inl e ↦ rw e (h r p e, All-update q f h k rs a)
  | inr e ↦ rw e (k r p e, All-update q f h k rs a)
]

-- What stays after a deletion does not match the query.
pub All-delete :
    {R : Type 0} (P : R → Type 0) (q : R → Bool) (rs : List R)
    → All P rs
    → All (λ r. P r × (q r ≡ false)) (delete_where q rs)
All-delete P q [] a = tt
All-delete P q (r ∷ rs) (p, a) = elim (Bool-cases (q r)) [
  | inl e ↦ rw e (All-delete P q rs a)
  | inr e ↦ rw e ((p, e), All-delete P q rs a)
]

pub All-map :
    {R : Type 0} {P Q : R → Type 0} → ((r : R) → P r → Q r) → (rs : List R) → All P rs → All Q rs
All-map h [] a = tt
All-map h (r ∷ rs) (p, a) = (h r p, All-map h rs a)

pub All-any : {R : Type 0} (rs : List R) → All (λ r. Unit {0}) rs
All-any [] = tt
All-any (r ∷ rs) = (tt, All-any rs)

pub All-filter :
    {R : Type 0} (P : R → Type 0) (q : R → Bool) (rs : List R)
    → All P (filter q rs)
    → All (λ r. q r ≡ true → P r) rs
All-filter P q [] a = tt
All-filter P q (r ∷ rs) a = elim (Bool-cases (q r)) [
  | inl e ↦
      let b : All P (r ∷ filter q rs) =
        subst (All P) (ap (λ x. if x then r ∷ filter q rs else filter q rs) e) a in
      (λ y. b.0, All-filter P q rs b.1)
  | inr e ↦
      let b : All P (filter q rs) =
        subst (All P) (ap (λ x. if x then r ∷ filter q rs else filter q rs) e) a in
      (λ y. absurd (ground (arith, y, e)), All-filter P q rs b)
]

pub update_where-filter :
    {R : Type 0} (q : R → Bool) (f : R → R) (rs : List R)
    → filter q rs ≡ []
    → update_where q f rs ≡ rs
update_where-filter q f [] e = refl
update_where-filter q f (r ∷ rs) e = elim (Bool-cases (q r)) [
  | inl y ↦ absurd (ground (arith, e, y))
  | inr y ↦ ground (arith, y, e, update_where-filter q f rs)
]

pub update_where-none :
    {R : Type 0} (q : R → Bool) (f : R → R)
    → ((r : R) → q r ≡ false)
    → (rs : List R) → update_where q f rs ≡ rs
update_where-none q f h [] = refl
update_where-none q f h (r ∷ rs) = ground (arith, h r, update_where-none q f h rs)

pub Has-filter :
    {R : Type 0} (q : R → Bool) (x : R) (rs : List R) → Has x rs → q x ≡ true → Has x (filter q rs)
Has-filter q x [] h y = absurd h
Has-filter q x (r ∷ rs) (inl e) y = let here : q r ≡ true = ap q e ∙ y in rw here (inl e)
Has-filter q x (r ∷ rs) (inr h) y = elim (Bool-cases (q r)) [
  | inl t ↦ rw t (inr (Has-filter q x rs h y))
  | inr t ↦ rw t (Has-filter q x rs h y)
]

pub Verdict-cases :
    {R : Type 0} (v : Verdict R)
    → (v ≡ all_finalized) ⊎ ((r : R) × (v ≡ gone r)) ⊎ ((e : PassError) × (v ≡ failed e))
Verdict-cases all_finalized = inl refl
Verdict-cases (gone r) = inr (inl (r, refl))
Verdict-cases (failed e) = inr (inr (e, refl))

pub Has-update :
    {R : Type 0} (q : R → Bool) (f : R → R) (x : R) (rs : List R)
    → Has x (update_where q f rs)
    → (r : R) × Has r rs × ((if q r then f r else r) ≡ x)
Has-update q f x [] h = absurd h
Has-update q f x (r ∷ rs) (inl e) = (r, inl refl, e)
Has-update q f x (r ∷ rs) (inr h) = let (y, a, e) = Has-update q f x rs h in (y, inr a, e)

module _ (is_finalized : ℕ → String → Result FinalityError Bool) where
  -- the rows of a list are all of finalized blocks
  abbrev pub AreFinalized : {R : Type 0} → Column R → List R → Type 0
  AreFinalized c rs = All (λ r. is_finalized (c.height r) (c.block_id r) ≡ ok true) rs

  check-AreFinalized :
      {R : Type 0} (c : Column R) (rs : List R)
      → check is_finalized c rs ≡ all_finalized
      → AreFinalized c rs
  unfolding check
  check-AreFinalized c [] e = tt
  check-AreFinalized c (r ∷ rs) e = elim (Result-cases (is_finalized (c.height r) (c.block_id r))) [
    | inl (true, y) ↦ (y, check-AreFinalized c rs (ground (arith, e, y)))
    | inl (false, y) ↦ absurd (ground (arith, e, y))
    | inr (not_found_block, y) ↦ absurd (ground (arith, e, y))
    | inr (x, y) ↦ absurd (ground (arith, e, y))
  ]

  -- what a pass has done where it ends with its rows marked
  abbrev pub Marked : {R Store : Type 0} → RowTable R Store → Column R → Store → Store → Type 0
  Marked t c s s' =
      (t.rows s' ≡ update_where c.query c.mark (t.rows s))
      × All (λ r. c.query r ≡ true → is_finalized (c.height r) (c.block_id r) ≡ ok true) (t.rows s)

  pub pass-Marked :
      {R Store : Type 0} (t : RowTable R Store) (c : Column R)
      (drop : R → Store → Result PassError Store) (s s' : Store)
      → IsRowTable t
      → pass is_finalized t c drop s ≡ ok (marked s')
      → Marked t c s s'
  unfolding pass
  pass-Marked t c drop s s' laws q = elim (Result-cases (t.find c.query s)) [
    | inr (x, e) ↦ absurd (ground (arith, q, e))
    | inl ([], e) ↦
        let same : s ≡ s' = ground (arith, q, e) in
        let none_left : filter c.query (t.rows s) ≡ [] = sym (laws.found c.query s [] e) in
        (
          ap t.rows (sym same) ∙ sym (update_where-filter c.query c.mark (t.rows s) none_left),
          All-filter (λ r. is_finalized (c.height r) (c.block_id r) ≡ ok true) c.query (t.rows s)
              (subst (AreFinalized c) (laws.found c.query s [] e) tt),
        )
    | inl (r ∷ rs, e) ↦ elim (Verdict-cases (check is_finalized c (r ∷ rs))) [
      | inl v ↦ elim (Result-cases (t.update c.query c.mark s)) [
        | inr (x, u) ↦ absurd (ground (arith, q, e, v, u))
        | inl (s2, u) ↦
            let same : s2 ≡ s' = ground (arith, q, e, v, u) in
            (
              ap t.rows (sym same) ∙ laws.updated c.query c.mark s s2 u,
              All-filter (λ r. is_finalized (c.height r) (c.block_id r) ≡ ok true) c.query
                  (t.rows s)
                  (subst (AreFinalized c) (laws.found c.query s (r ∷ rs) e)
                    (check-AreFinalized c (r ∷ rs) v)),
            )
      ]
      | inr (inl (x, v)) ↦ elim (Result-cases (drop x s)) [
        | inl (s2, u) ↦ absurd (ground (arith, q, e, v, u))
        | inr (y, u) ↦ absurd (ground (arith, q, e, v, u))
      ]
      | inr (inr (x, v)) ↦ absurd (ground (arith, q, e, v))
    ]
  ]

  -- A row after the marking is a row from before, as it was or marked, and marked only if its block
  -- is finalized.
  pub Marked-origin :
      {R Store : Type 0} (t : RowTable R Store) (c : Column R) (s s' : Store) (x' : R)
      → Marked t c s s'
      → Has x' (t.rows s')
      → (x : R) × Has x (t.rows s)
        × ((x' ≡ x) ⊎ ((x' ≡ c.mark x) × (is_finalized (c.height x) (c.block_id x) ≡ ok true)))
  Marked-origin t c s s' x' (e, all) has =
      let (x, h, same) = Has-update c.query c.mark x' (t.rows s) (subst (Has x') e has) in
      elim (Bool-cases (c.query x)) [
        | inl y ↦
            (x, h, inr (sym same ∙ ap (λ b. if b then c.mark x else x) y, All-Has _ x _ all h y))
        | inr y ↦ (x, h, inl (sym same ∙ ap (λ b. if b then c.mark x else x) y))
      ]

  -- A pass drops rows only for a block that `IsFinalized` does not find.
  pub pass-dropped :
      {R Store : Type 0} (t : RowTable R Store) (c : Column R)
      (drop : R → Store → Result PassError Store) (s s' : Store)
      → pass is_finalized t c drop s ≡ ok (dropped s')
      → (r : R) × (drop r s ≡ ok s')
  unfolding pass
  pass-dropped t c drop s s' q = elim (Result-cases (t.find c.query s)) [
    | inr (x, e) ↦ absurd (ground (arith, q, e))
    | inl ([], e) ↦ absurd (ground (arith, q, e))
    | inl (r ∷ rs, e) ↦ elim (Verdict-cases (check is_finalized c (r ∷ rs))) [
      | inl v ↦ elim (Result-cases (t.update c.query c.mark s)) [
        | inr (x, u) ↦ absurd (ground (arith, q, e, v, u))
        | inl (s2, u) ↦ absurd (ground (arith, q, e, v, u))
      ]
      | inr (inl (x, v)) ↦ elim (Result-cases (drop x s)) [
        | inl (s2, u) ↦ (x, ground (arith, q, e, v, u))
        | inr (y, u) ↦ absurd (ground (arith, q, e, v, u))
      ]
      | inr (inr (x, v)) ↦ absurd (ground (arith, q, e, v))
    ]
  ]

-- Rows that an update or a deletion does not select stay, in their order.
pub filter-update :
    {R : Type 0} (p q : R → Bool) (f : R → R)
    → ((r : R) → q r ≡ true → (p r ≡ false) × (p (f r) ≡ false))
    → (rs : List R) → filter p (update_where q f rs) ≡ filter p rs
filter-update p q f h [] = refl
filter-update p q f h (r ∷ rs) = elim (Bool-cases (q r)) [
  | inl y ↦ ground (arith, y, h r y, filter-update p q f h rs)
  | inr y ↦ ground (arith, y, filter-update p q f h rs)
]

pub filter-delete :
    {R : Type 0} (p q : R → Bool)
    → ((r : R) → q r ≡ true → p r ≡ false)
    → (rs : List R) → filter p (delete_where q rs) ≡ filter p rs
filter-delete p q h [] = refl
filter-delete p q h (r ∷ rs) = elim (Bool-cases (q r)) [
  | inl y ↦ ground (arith, y, h r y, filter-delete p q h rs)
  | inr y ↦ ground (arith, y, filter-delete p q h rs)
]
