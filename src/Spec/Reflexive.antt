-- ===== src/Spec/Reflexive.antt =====
-- EqualsTypeSpec and EqualsNameAndTypes are reflexive.
use btp_sdk.Base.{String, true, none, some, ◌≡◌, refl, eq_iff, eq_refl, ==_refl, arith}
use btp_sdk.Spec.{
  TypeSpec, type_spec, TypeId, t_unknown, t_void, t_integer, t_boolean, t_string, t_bytes,
  t_address, t_struct, Fields, no_fields, field, NameAndTypeSpec, name_and_type, field_count,
  lookup_field, equals_type_spec, ids_equal, all_in, field_equal, equals_name_and_types,
}

-- No key stands twice, in any struct.
abbrev mutual
  pub WellFormed : TypeSpec → Type 0
  WellFormed (type_spec n d t) = IdWellFormed t

  pub IdWellFormed : TypeId → Type 0
  IdWellFormed (t_struct s fs) = FieldsWellFormed fs
  IdWellFormed _ = Unit

  pub FieldsWellFormed : Fields → Type 0
  FieldsWellFormed no_fields = Unit
  FieldsWellFormed (field k a fs) =
      (lookup_field k fs ≡ none) × FieldWellFormed a × FieldsWellFormed fs

  pub FieldWellFormed : NameAndTypeSpec → Type 0
  FieldWellFormed (name_and_type n t o) = WellFormed t

-- Every entry of the first map is what the second map holds under its key.
abbrev pub Within : Fields → Fields → Type 0
Within no_fields b = Unit
Within (field k a fs) b = (lookup_field k b ≡ some a) × Within fs b

Within-cons :
    (k : String) (a : NameAndTypeSpec) (fs b : Fields)
    → lookup_field k fs ≡ none
    → Within fs b
    → Within fs (field k a b)
unfolding lookup_field
Within-cons k a no_fields b h w = tt
Within-cons k a (field j c fs) b h w = ground (arith, eq_iff j k, eq_iff k j, Within-cons k a fs b)

pub Within-refl : (fs : Fields) → FieldsWellFormed fs → Within fs fs
unfolding lookup_field
Within-refl no_fields w = tt
Within-refl (field k a fs) (fresh, wa, w) =
    (rw (eq_refl k) refl, Within-cons k a fs fs fresh (Within-refl fs w))

all_in-cons :
    (k : String) (a bv : NameAndTypeSpec) (fs b : Fields)
    → lookup_field k b ≡ some bv
    → field_equal a bv ≡ true
    → all_in fs b ≡ true
    → all_in (field k a fs) b ≡ true
unfolding all_in
all_in-cons k a bv fs b h p q = ground arith

mutual
  unfolding equals_type_spec ids_equal all_in field_equal

  type_refl : (s : TypeSpec) → WellFormed s → equals_type_spec s s ≡ true
  type_refl (type_spec n d t) w = rw (==_refl d) (id_refl t n w)

  id_refl : (t : TypeId) (n : String) → IdWellFormed t → ids_equal t n n t ≡ true
  id_refl t_unknown n w = eq_refl n
  id_refl t_void n w = refl
  id_refl t_integer n w = refl
  id_refl t_boolean n w = refl
  id_refl t_string n w = refl
  id_refl t_bytes n w = refl
  id_refl t_address n w = refl
  id_refl (t_struct s fs) n w =
      rw (==_refl (field_count fs)) (all_in-Within fs fs w (Within-refl fs w))

  all_in-Within : (fs b : Fields) → FieldsWellFormed fs → Within fs b → all_in fs b ≡ true
  all_in-Within no_fields b w h = refl
  all_in-Within (field k a fs) b w h =
      all_in-cons k a a fs b h.0 (field_refl a w.1) (all_in-Within fs b w.2 h.1)

  field_refl : (a : NameAndTypeSpec) → FieldWellFormed a → field_equal a a ≡ true
  field_refl (name_and_type n t o) w = type_refl t w

-- A well-formed type, in which no struct has a field name twice, compares equal to itself, at any
-- depth of nested structs.
pub equals_type_spec_refl : (s : TypeSpec) → WellFormed s → equals_type_spec s s ≡ true
equals_type_spec_refl s w = type_refl s w

-- Maps of inputs with unique keys and well-formed types compare equal to themselves.
pub equals_name_and_types_refl :
    (fs : Fields) → FieldsWellFormed fs → equals_name_and_types fs fs ≡ true
unfolding equals_name_and_types
equals_name_and_types_refl fs w =
    rw (==_refl (field_count fs)) (all_in-Within fs fs w (Within-refl fs w))
