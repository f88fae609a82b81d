-- ===== src/Rows/Memory.antt =====
-- A database of two tables that are lists, in which no call fails.
use btp_sdk.Base.{List, ap, sym}
use btp_sdk.Base.Results.{ok, ok_injective}
use btp_sdk.Rows.{filter, update_where, delete_where, RowTable, IsRowTable, IsApart}

module _ {A B : Type 0} where
  abbrev pub left : RowTable A (List A × List B)
  left = record {
    rows = λ s. s.0;
    find = λ q s. ok (filter q s.0);
    update = λ q f s. ok (update_where q f s.0, s.1);
    delete = λ q s. ok (delete_where q s.0, s.1);
  }

  abbrev pub right : RowTable B (List A × List B)
  right = record {
    rows = λ s. s.1;
    find = λ q s. ok (filter q s.1);
    update = λ q f s. ok (s.0, update_where q f s.1);
    delete = λ q s. ok (s.0, delete_where q s.1);
  }

  pub left-IsRowTable : IsRowTable left
  left-IsRowTable = record {
    found = λ q s l e. sym (ok_injective e);
    updated = λ q f s s' e. ap (λ x. x.0) (sym (ok_injective e));
    deleted = λ q s s' e. ap (λ x. x.0) (sym (ok_injective e));
  }

  pub right-IsRowTable : IsRowTable right
  right-IsRowTable = record {
    found = λ q s l e. sym (ok_injective e);
    updated = λ q f s s' e. ap (λ x. x.1) (sym (ok_injective e));
    deleted = λ q s s' e. ap (λ x. x.1) (sym (ok_injective e));
  }

  pub left-IsApart : IsApart left right
  left-IsApart = record {
    kept_by_update = λ q f s s' e. ap (λ x. x.1) (sym (ok_injective e));
    kept_by_delete = λ q s s' e. ap (λ x. x.1) (sym (ok_injective e));
  }

  pub right-IsApart : IsApart right left
  right-IsApart = record {
    kept_by_update = λ q f s s' e. ap (λ x. x.0) (sym (ok_injective e));
    kept_by_delete = λ q s s' e. ap (λ x. x.0) (sym (ok_injective e));
  }
