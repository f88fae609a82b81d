-- ===== src/AutoCaller/Memory.antt =====
-- A table of the auto-caller kept in memory, which satisfies what the proofs ask of gorm. A row
-- without a primary key is written under the next number, or refused if that one is taken.
use btp_sdk.Base.{
  ℕ, zero, suc, ◌≡◌, ◌≢◌, refl, sym, ◌⊎◌, inl, inr, Bool, ◌&&◌, Option, none, some, arith, ◌==◌,
  ==_iff, ==_refl, if◌then◌else◌, Bool-cases, Option-cases,
}
use btp_sdk.Base.Results.{Result, ok, err}
use btp_sdk.AutoCaller.Repository.{DbError, db_error, Table, IsTable}

pub record Rows (R : Type 0) : Type 0 where
  pub last_id : ℕ
  pub at : ℕ → Option R

abbrev pub no_rows : {R : Type 0} → Rows R
no_rows = record { last_id = 0; at = λ id. none }

module _ {R Query : Type 0} (key : R → ℕ) (with_key : ℕ → R → R) (matches : Query → R → Bool) where
  unfoldable pub write : ℕ → R → Rows R → Rows R
  write id v s = record s { at = λ j. if id == j then some v else s.at j }

  unfoldable pub insert_row : R → Rows R → Result DbError (Rows R × R)
  unfolding write
  insert_row v s =
      let id = suc s.last_id in
      elim (s.at id) [
        | some taken ↦ err db_error
        | none ↦ ok (record (write id (with_key id v) s) { last_id = id }, with_key id v)
      ]

  unfoldable pub save_row : R → Rows R → Result DbError (Rows R × R)
  unfolding insert_row write
  save_row v s = if key v == 0 then insert_row v s else ok (write (key v) v s, v)

  unfoldable pub find_below : ℕ → Query → Rows R → Option R
  find_below zero q s = none
  find_below (suc id) q s = elim (s.at (suc id)) [
    | none ↦ find_below id q s
    | some v ↦ if matches q v && key v == suc id then some v else find_below id q s
  ]

  unfoldable pub memory : Table R Query key
  unfolding save_row find_below
  memory = record {
    Store = Rows R;
    row = λ s. s.at;
    save = save_row;
    first = λ id s. ok (s.at id);
    find_one = λ q s. ok (find_below s.last_id q s);
  }

  find_below_row :
      (id : ℕ) (q : Query) (s : Rows R) (v : R)
      → find_below id q s ≡ some v
      → (s.at (key v) ≡ some v) × (key v ≢ 0)
  unfolding find_below
  find_below_row zero q s v h = cc
  find_below_row (suc id) q s v h = elim (Option-cases (s.at (suc id))) [
    | inl empty ↦ find_below_row id q s v (ground (arith, empty))
    | inr (c, filled) ↦ elim (Bool-cases (matches q c && key c == suc id)) [
      | inr other ↦ find_below_row id q s v (ground (arith, filled, other))
      | inl hit ↦
          let p : c ≡ v = ground (arith, filled, hit) in
          let k : key c ≡ suc id = ground (arith, ==_iff (key c) (suc id)) in
          rw (← p) (rw k filled, λ z. omega (arith, k, z))
    ]
  ]

  module _ (key_of : (id : ℕ) (v : R) → key (with_key id v) ≡ id)
      (same_key : (v : R) → with_key (key v) v ≡ v) where
    saved :
        (v : R) (s s' : Rows R) (v' : R)
        → save_row v s ≡ ok (s', v')
        → ((v' ≡ with_key (key v') v) × (s'.at (key v') ≡ some v'))
          × (((key v ≡ 0) × (s.at (key v') ≡ none)) ⊎ ((key v ≢ 0) × (v' ≡ v)))
          × ((j : ℕ) → j ≢ key v' → s'.at j ≡ s.at j)
    unfolding save_row insert_row write
    saved v s s' v' h = elim (Bool-cases (key v == 0)) [
      | inr old ↦
          let p : v ≡ v' = ground arith in
          let q : write (key v) v s ≡ s' = ground arith in
          let k : key v ≢ 0 = λ z. ground (arith, ==_iff (key v) 0) in
          rw (← p, ← q)
            (
              (sym (same_key v), rw (==_refl (key v)) refl),
              inr (k, refl),
              λ j ne. ground (arith, ==_iff (key v) j),
            )
      | inl new ↦ elim (Option-cases (s.at (suc s.last_id))) [
        | inr (c, taken) ↦ absurd (ground (arith, new, taken))
        | inl free ↦
            let id = suc s.last_id in
            let p : with_key id v ≡ v' = ground (arith, new, free) in
            let q : record (write id (with_key id v) s) { last_id = id } ≡ s' =
              ground (arith, new, free) in
            let k : key v ≡ 0 = ground (arith, ==_iff (key v) 0) in
            rw (← p, ← q, key_of id v)
              ((refl, rw (==_refl id) refl), inl (k, free), λ j ne. ground (arith, ==_iff id j))
      ]
    ]

    pub memory-IsTable : IsTable memory with_key
    unfolding memory
    memory-IsTable = record {
      saved_row = λ v s s' v' h. (saved v s s' v' h).0;
      saved_key = λ v s s' v' h. (saved v s s' v' h).1;
      saved_other = λ v s s' v' h. (saved v s s' v' h).2;
      first_row = λ id s o h. ground arith;
      found_row = λ q s v h. find_below_row s.last_id q s v (ground arith);
    }
