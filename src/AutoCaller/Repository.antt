-- ===== src/AutoCaller/Repository.antt =====
-- database/repository.go as the auto-caller uses it: Save, First by primary key and FindOne are
-- calls of gorm, so they are the fields of a parameter; SaveIf is the source's, over them.
use btp_sdk.Base.{ℕ, ◌≡◌, ◌≢◌, Bool, true, false, Option, none, some, if◌then◌else◌, ◌⊎◌}
use btp_sdk.Base.Results.{Result, ok, ◌>>=◌}

pub data DbError : Type 0 where
  db_error : DbError

-- A table of rows `R` with the primary key `key`, and what gorm answers. `save` returns the
-- row with its primary key, which gorm assigns where the given one is 0.
pub record Table (R Query : Type 0) (key : R → ℕ) : Type 1 where
  pub Store : Type 0
  pub row : Store → ℕ → Option R
  pub save : R → Store → Result DbError (Store × R)
  pub first : ℕ → Store → Result DbError (Option R)
  pub find_one : Query → Store → Result DbError (Option R)

-- What gorm documents of these calls: Save writes the row of its primary key and no other, under a
-- new key if the given one is 0; First and FindOne return rows of the table.
pub record IsTable {R Query : Type 0} {key : R → ℕ} (t : Table R Query key) (with_key : ℕ → R → R)
    : Type 0 where
  pub saved_row :
      (v : R) (s s' : t.Store) (v' : R)
      → t.save v s ≡ ok (s', v')
      → (v' ≡ with_key (key v') v) × (t.row s' (key v') ≡ some v')
  pub saved_key :
      (v : R) (s s' : t.Store) (v' : R)
      → t.save v s ≡ ok (s', v')
      → ((key v ≡ 0) × (t.row s (key v') ≡ none)) ⊎ ((key v ≢ 0) × (v' ≡ v))
  pub saved_other :
      (v : R) (s s' : t.Store) (v' : R)
      → t.save v s ≡ ok (s', v')
      → (j : ℕ) → j ≢ key v'
      → t.row s' j ≡ t.row s j
  pub first_row : (id : ℕ) (s : t.Store) (o : Option R) → t.first id s ≡ ok o → o ≡ t.row s id
  pub found_row :
      (q : Query) (s : t.Store) (v : R)
      → t.find_one q s ≡ ok (some v)
      → (t.row s (key v) ≡ some v) × (key v ≢ 0)

module _ {R Query : Type 0} {key : R → ℕ} (t : Table R Query key) where
  open t use {Store, save, first}

  -- `SaveIf`: the transaction reads the row of the primary key, and saves only if the predicate
  -- holds of it. The lock and the transaction make it one step.
  unfoldable pub save_if : R → (Option R → Bool) → Store → Result DbError (Store × R × Bool)
  save_if v predicate s = first (key v) s >>= λ found.
      if predicate found then (save v s >>= λ r. ok (r.0, r.1, true)) else ok (s, v, false)
