-- ===== src/Spec.antt =====
-- contract/spec.go: the types of contract methods and events, and when two of them are equal.
-- A TypeSpec whose TypeID is TStruct always has its `Resolved` struct (resolveType sets both at
-- once), so the model's `t_struct` holds it. A `map[string]*NameAndTypeSpec` is the association
-- list `Fields`, with each key once in a well-formed one. Resolved structs are finite trees here:
-- a struct that contains itself makes the source's comparison loop.
pub mod Reflexive
pub mod Optional
use btp_sdk.Base.{
  ℕ, suc, String, Bool, true, false, ◌&&◌, Option, none, some, ◌≡◌, str_eq, ◌==◌, if◌then◌else◌,
}

mutual
  pub data TypeSpec : Type 0 where
    type_spec : String → ℕ → TypeId → TypeSpec

  pub data TypeId : Type 0 where
    t_unknown t_void t_integer t_boolean t_string t_bytes t_address : TypeId
    t_struct : String → Fields → TypeId

  pub data Fields : Type 0 where
    no_fields : Fields
    field : String → NameAndTypeSpec → Fields → Fields

  pub data NameAndTypeSpec : Type 0 where
    name_and_type : String → TypeSpec → Bool → NameAndTypeSpec

abbrev pub field_type : NameAndTypeSpec → TypeSpec
field_type (name_and_type n t optional) = t

abbrev pub field_count : Fields → ℕ
field_count no_fields = 0
field_count (field k a fs) = suc (field_count fs)

unfoldable pub lookup_field : String → Fields → Option NameAndTypeSpec
lookup_field k no_fields = none
lookup_field k (field j a fs) = if str_eq j k then some a else lookup_field k fs

-- `EqualsTypeSpec` and `EqualsNameAndTypes`, with its loop `all_in`; `ids_equal` is the `switch`.
unfoldable mutual
  pub equals_type_spec : TypeSpec → TypeSpec → Bool
  equals_type_spec (type_spec n d t) (type_spec n' d' t') =
      if d == d' then ids_equal t n n' t' else false

  pub ids_equal : TypeId → String → String → TypeId → Bool
  ids_equal t_unknown n n' t_unknown = str_eq n n'
  ids_equal t_void n n' t_void = true
  ids_equal t_integer n n' t_integer = true
  ids_equal t_boolean n n' t_boolean = true
  ids_equal t_string n n' t_string = true
  ids_equal t_bytes n n' t_bytes = true
  ids_equal t_address n n' t_address = true
  ids_equal (t_struct s fs) n n' (t_struct s' fs') =
      if field_count fs == field_count fs' then all_in fs fs' else false
  ids_equal _ n n' _ = false

  pub all_in : Fields → Fields → Bool
  all_in no_fields b = true
  all_in (field k a fs) b = elim (lookup_field k b) [
    | none ↦ false
    | some bv ↦ field_equal a bv && all_in fs b
  ]

  pub field_equal : NameAndTypeSpec → NameAndTypeSpec → Bool
  field_equal (name_and_type n t o) b = equals_type_spec t (field_type b)

unfoldable pub equals_name_and_types : Fields → Fields → Bool
unfolding all_in
equals_name_and_types a b = if field_count a == field_count b then all_in a b else false
