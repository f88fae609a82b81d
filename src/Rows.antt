-- ===== src/Rows.antt =====
-- database/repository.go: the methods Find, Update, Updates and Delete, which are single calls of gorm,
-- on tables whose rows the model can list. The queries are predicates on the rows.
-- A pass is the part that the functions finalizeCall, finalizeRollback (autocaller/xcall/autocaller.go)
-- and finalizeBlock (tracker/bmc/tracker.go) share: find the rows up to a height that are not marked,
-- ask whether their blocks are finalized, then mark them, or give up on a block that is gone.
pub mod Laws
pub mod Memory
use btp_sdk.Base.{
  ◌≡◌, ◌≤◌, ℕ, String, Bool, true, false, List, [], ◌∷◌, if◌then◌else◌, leb, ◌&&◌, str_eq,
}
use btp_sdk.Base.Results.{Result, ok, err, ◌>>=◌}
use btp_sdk.Finality.Verdict.{Error as FinalityError, not_found_block}

abbrev pub filter {ℓ} : {R : Type ℓ} → (R → Bool) → List R → List R
filter q [] = []
filter q (r ∷ rs) = if q r then r ∷ filter q rs else filter q rs

abbrev pub update_where {ℓ} : {R : Type ℓ} → (R → Bool) → (R → R) → List R → List R
update_where q f [] = []
update_where q f (r ∷ rs) = (if q r then f r else r) ∷ update_where q f rs

abbrev pub delete_where {ℓ} : {R : Type ℓ} → (R → Bool) → List R → List R
delete_where q [] = []
delete_where q (r ∷ rs) = if q r then delete_where q rs else r ∷ delete_where q rs

-- `column BETWEEN low AND high`
abbrev pub between : ℕ → ℕ → ℕ → Bool
between low high n = leb low n && leb n high

-- The calls of gorm on one table of a database.
pub record RowTable (R Store : Type 0) : Type 0 where
  pub rows : Store → List R
  pub find : (R → Bool) → Store → Result String (List R)
  pub update : (R → Bool) → (R → R) → Store → Result String Store
  pub delete : (R → Bool) → Store → Result String Store

-- What gorm documents of them where they succeed.
pub record IsRowTable {R Store : Type 0} (t : RowTable R Store) : Type 0 where
  pub found : (q : R → Bool) (s : Store) (l : List R) → t.find q s ≡ ok l → l ≡ filter q (t.rows s)
  pub updated :
      (q : R → Bool) (f : R → R) (s s' : Store)
      → t.update q f s ≡ ok s'
      → t.rows s' ≡ update_where q f (t.rows s)
  pub deleted :
      (q : R → Bool) (s s' : Store) → t.delete q s ≡ ok s' → t.rows s' ≡ delete_where q (t.rows s)

-- Writes to the table `t` leave the table `u` alone.
pub record IsApart {R Q Store : Type 0} (t : RowTable R Store) (u : RowTable Q Store) : Type 0 where
  pub kept_by_update :
      (q : R → Bool) (f : R → R) (s s' : Store) → t.update q f s ≡ ok s' → u.rows s' ≡ u.rows s
  pub kept_by_delete : (q : R → Bool) (s s' : Store) → t.delete q s ≡ ok s' → u.rows s' ≡ u.rows s

pub data PassError : Type 0 where
  database : String → PassError
  finality : FinalityError → PassError
  invalid_state : ℕ → PassError

-- How a pass ends: the rows are marked, or those of a block that is gone are dropped.
pub data Pass (Store : Type 0) : Type 0 where
  marked : Store → Pass Store
  dropped : Store → Pass Store

abbrev pub from_database {ℓ} : {A : Type ℓ} → Result String A → Result PassError A
from_database (ok a) = ok a
from_database (err e) = err (database e)

-- what the loop over the rows finds
pub data Verdict (R : Type 0) : Type 0 where
  all_finalized : Verdict R
  gone : R → Verdict R
  failed : PassError → Verdict R

-- What a pass is about: the query, the block of a row and how to mark it.
pub record Column (R : Type 0) : Type 0 where
  pub query : R → Bool
  pub height : R → ℕ
  pub block_id : R → String
  pub mark : R → R

module _ (is_finalized : ℕ → String → Result FinalityError Bool) where
  unfoldable pub check : {R : Type 0} → Column R → List R → Verdict R
  check c [] = all_finalized
  check c (r ∷ rs) =
      let rest = check c rs in
      elim (is_finalized (c.height r) (c.block_id r)) [
        | err not_found_block ↦ gone r
        | err e ↦ failed (finality e)
        | ok false ↦ failed (invalid_state (c.height r))
        | ok true ↦ rest
      ]

  unfoldable pub pass :
      {R Store : Type 0}
      → RowTable R Store
      → Column R
      → (R → Store → Result PassError Store)
      → Store
      → Result PassError (Pass Store)
  unfolding check
  pass t c drop s = from_database (t.find c.query s) >>= λ l. elim l [
    | [] ↦ ok (marked s)
    | r ∷ rs ↦ elim (check c (r ∷ rs)) [
      | gone x ↦ drop x s >>= λ s'. ok (dropped s')
      | failed e ↦ err e
      | all_finalized ↦ from_database (t.update c.query c.mark s) >>= λ s'. ok (marked s')
    ]
  ]
