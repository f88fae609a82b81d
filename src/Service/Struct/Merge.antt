-- ===== src/Service/Struct/Merge.antt =====
-- StructSpec.merge (service/spec.go): which fields each network type sees afterwards.
use btp_sdk.Base.{
  ◌≡◌, refl, inl, inr, String, true, false, Option, none, some, List, [], ◌∷◌, str_eq, eq_refl,
  if◌then◌else◌, arith, All, Bool-cases,
}
use btp_sdk.Spec.{Fields, equals_name_and_types}
use btp_sdk.Spec.Reflexive.{FieldsWellFormed, equals_name_and_types_refl}
use btp_sdk.StringSet
use btp_sdk.StringSet.{IsDistinct, contains-append}
use btp_sdk.Service.Method.Merge.{contains-remove, contains-one, contains-merge_one}
use btp_sdk.Service.Struct.{
  ContractStruct, StructConflict, StructSpec, supports_struct, conflict_in, conflict,
  new_struct_conflict, give_up_conflict, support_struct, unsupport_struct, join_conflict,
  merge_struct,
}

abbrev fields_of : Option StructConflict → Option Fields
fields_of none = none
fields_of (some c) = some c.fields

-- The fields of the struct as a network type sees it.
unfoldable pub seen : StructSpec → String → Option Fields
seen s nt = if supports_struct s nt then some s.fields else fields_of (conflict s nt)

-- Every list of network types is without repetitions.
abbrev pub ConflictsDistinct : List StructConflict → Type 0
ConflictsDistinct cs = All (λ c. IsDistinct c.network_types) cs

-- If the conflict holds the network type, then with the fields of the contract's struct.
abbrev pub HeldLike : String → ContractStruct → StructConflict → Type 0
HeldLike nt cs c =
    StringSet.contains c.network_types nt ≡ true
    → equals_name_and_types c.fields cs.field_map ≡ true

module _ (nt : String) where
  give_up_conflict_frame :
      (cs : List StructConflict) (w : String)
      → ConflictsDistinct cs
      → str_eq nt w ≡ false
      → fields_of (conflict_in (give_up_conflict nt cs) w) ≡ fields_of (conflict_in cs w)
  unfolding conflict_in give_up_conflict
  give_up_conflict_frame [] w d other = refl
  give_up_conflict_frame (c ∷ cs) w d other =
      ground
        (arith, contains-remove c.network_types nt w d.0, give_up_conflict_frame cs w d.1 other)

  join_conflict_frame :
      (cs : ContractStruct) (l : List StructConflict) (w : String)
      → ConflictsDistinct l
      → str_eq nt w ≡ false
      → fields_of (conflict_in (join_conflict cs (nt ∷ []) l) w) ≡ fields_of (conflict_in l w)
  unfolding conflict_in join_conflict new_struct_conflict
  join_conflict_frame cs [] w d other = ground (arith, contains-one nt w)
  join_conflict_frame cs (c ∷ l) w d other =
      elim (Bool-cases (equals_name_and_types c.fields cs.field_map)) [
        | inl same ↦ rw same (ground (arith, contains-merge_one c.network_types nt w d.0))
        | inr differs ↦ rw differs (ground (arith, join_conflict_frame cs l w d.1 other))
      ]

  join_conflict_self :
      (cs : ContractStruct) (l : List StructConflict)
      → FieldsWellFormed cs.field_map
      → ConflictsDistinct l
      → All (HeldLike nt cs) l
      → (g : Fields) × (fields_of (conflict_in (join_conflict cs (nt ∷ []) l) nt) ≡ some g)
        × (equals_name_and_types g cs.field_map ≡ true)
  unfolding conflict_in join_conflict new_struct_conflict
  join_conflict_self cs [] w d a = (
    cs.field_map,
    ground (arith, contains-one nt nt, eq_refl nt),
    equals_name_and_types_refl cs.field_map w,
  )
  join_conflict_self cs (c ∷ l) w d a =
      elim (Bool-cases (equals_name_and_types c.fields cs.field_map)) [
        | inl same ↦ (
          c.fields,
          rw same (ground (arith, contains-merge_one c.network_types nt nt d.0, eq_refl nt)),
          same,
        )
        | inr differs ↦
            let (g, eq, same) = join_conflict_self cs l w d.1 a.1 in
            elim (Bool-cases (StringSet.contains c.network_types nt)) [
              | inl held ↦ absurd (ground (arith, differs, a.0 held))
              | inr free ↦ (g, rw differs (ground (arith, eq, free)), same)
            ]
      ]

-- A merge of a contract's struct for one network type, where every list of network types is without
-- repetitions, the contract's fields are well-formed and, if the struct itself has other fields, every
-- conflict that holds the network type has fields equal to the contract's: the network type sees
-- fields equal to the contract's afterwards, every other network type sees what it saw before, and the
-- flag says whether the struct itself has these fields.
pub merge_struct_lem :
    (s : StructSpec) (cs : ContractStruct) (nt : String)
    → IsDistinct s.network_types
    → ConflictsDistinct s.conflicts
    → FieldsWellFormed cs.field_map
    → (equals_name_and_types s.fields cs.field_map ≡ false → All (HeldLike nt cs) s.conflicts)
    → ((g : Fields) × (seen (merge_struct s cs (nt ∷ [])).0 nt ≡ some g)
        × (equals_name_and_types g cs.field_map ≡ true))
      × ((w : String) → str_eq nt w ≡ false → seen (merge_struct s cs (nt ∷ [])).0 w ≡ seen s w)
      × ((merge_struct s cs (nt ∷ [])).1 ≡ equals_name_and_types s.fields cs.field_map)
unfolding merge_struct support_struct unsupport_struct seen conflict supports_struct
merge_struct_lem s cs nt d dc wf a =
    elim (Bool-cases (equals_name_and_types s.fields cs.field_map)) [
      | inl same ↦ rw same (elim (Bool-cases (StringSet.contains s.network_types nt)) [
        | inl supported ↦
            rw supported ((s.fields, ground (arith, supported), same), λ w other. refl, refl)
        | inr unsupported ↦ rw unsupported (
          (
            s.fields,
            ground (
              arith,
              contains-append s.network_types (nt ∷ []) nt,
              contains-one nt nt,
              eq_refl nt,
            ),
            same,
          ),
          λ w other. ground (
            arith,
            contains-append s.network_types (nt ∷ []) w,
            contains-one nt w,
            give_up_conflict_frame nt s.conflicts w dc other,
          ),
          refl,
        )
      ])
      | inr differs ↦
          let (g, eq, like) = join_conflict_self nt cs s.conflicts wf dc (a differs) in
          rw differs (elim (Bool-cases (StringSet.contains s.network_types nt)) [
            | inl supported ↦ rw supported (
              (g, ground (arith, eq, contains-remove s.network_types nt nt d, eq_refl nt), like),
              λ w other. ground (
                arith,
                contains-remove s.network_types nt w d,
                join_conflict_frame nt cs s.conflicts w dc other,
              ),
              refl,
            )
            | inr unsupported ↦ rw unsupported (
              (g, ground (arith, eq, unsupported), like),
              λ w other. ground (arith, join_conflict_frame nt cs s.conflicts w dc other),
              refl,
            )
          ])
    ]
