-- ===== src/Spec/Optional.antt =====
-- OptionalInputs of contract/spec.go: the inputs that one of two methods has and the other has not.
use btp_sdk.Base.{
  ◌≡◌, refl, ap, ◌⊎◌, inl, inr, String, true, false, Option, none, some, str_eq, eq_iff, eq_refl,
  if◌then◌else◌, arith, Bool-cases, Option-cases,
}
use btp_sdk.Base.Results.{Result, ok, err, ◌>>=◌, Result-cases}
use btp_sdk.Spec.{
  Fields, no_fields, field, NameAndTypeSpec, field_type, lookup_field, equals_type_spec,
}

pub data InputError : Type 0 where
  mismatch : String → InputError

-- the first loop: what `b` lacks, and an error if a type that both have differs
unfoldable pub lacking : Fields → Fields → Result InputError Fields
lacking no_fields b = ok no_fields
lacking (field k v a) b = elim (lookup_field k b) [
  | some bv ↦
      if equals_type_spec (field_type v) (field_type bv) then lacking a b else err (mismatch k)
  | none ↦ lacking a b >>= λ r. ok (field k v r)
]

-- the second loop: the entries of `b` that `a` lacks, written after those of `r`
unfoldable pub write_lacking : Fields → Fields → Fields → Fields
write_lacking no_fields a r = r
write_lacking (field k v b) a r = elim (lookup_field k a) [
  | some av ↦ write_lacking b a r
  | none ↦ field k v (write_lacking b a r)
]

unfoldable pub optional_inputs : Fields → Fields → Result InputError Fields
unfolding lacking write_lacking
optional_inputs a b = lacking a b >>= λ r. ok (write_lacking b a r)

-- What stands in exactly one of two maps.
abbrev pub in_one : Option NameAndTypeSpec → Option NameAndTypeSpec → Option NameAndTypeSpec
in_one none bv = bv
in_one (some av) none = some av
in_one (some av) (some bv) = none

-- what the first map has and the second lacks
abbrev only : Option NameAndTypeSpec → Option NameAndTypeSpec → Option NameAndTypeSpec
only av none = av
only av (some bv) = none

lookup-write :
    (b a r : Fields) (k : String)
    → lookup_field k (write_lacking b a r) ≡ (elim (only (lookup_field k b) (lookup_field k a)) [
      | none ↦ lookup_field k r
      | some v ↦ some v
    ])
unfolding lookup_field write_lacking
lookup-write no_fields a r k = ground arith
lookup-write (field j v b) a r k = elim (Bool-cases (str_eq j k)) [
  | inl same ↦
      let at : lookup_field j a ≡ lookup_field k a =
        ap (λ x. lookup_field x a) ((eq_iff j k).0 same) in
      elim (Option-cases (lookup_field j a)) [
        | inl absent ↦ ground (arith, absent, same, at)
        | inr (av, present) ↦ ground (arith, present, same, at, lookup-write b a r k)
      ]
  | inr other ↦ elim (Option-cases (lookup_field j a)) [
    | inl absent ↦ ground (arith, absent, other, lookup-write b a r k)
    | inr (av, present) ↦ ground (arith, present, other, lookup-write b a r k)
  ]
]

-- No key stands twice, as in every map of the source.
abbrev pub UniqueKeys : Fields → Type 0
UniqueKeys no_fields = Unit
UniqueKeys (field k v fs) = (lookup_field k fs ≡ none) × UniqueKeys fs

-- The types of a name that both maps have are equal, at this name.
abbrev pub AgreeAt : Fields → Fields → String → Type 0
AgreeAt a b k =
    (av bv : NameAndTypeSpec)
    → lookup_field k a ≡ some av
    → lookup_field k b ≡ some bv
    → equals_type_spec (field_type av) (field_type bv) ≡ true

only-none : (o : Option NameAndTypeSpec) → only none o ≡ none
only-none none = refl
only-none (some v) = refl

lacking_ok :
    (a b r : Fields) (k : String)
    → lacking a b ≡ ok r
    → (lookup_field k r ≡ only (lookup_field k a) (lookup_field k b)) × AgreeAt a b k
unfolding lacking lookup_field
lacking_ok no_fields b r k h =
    let same : no_fields ≡ r = ground arith in
    (rw (← same, only-none (lookup_field k b)) refl, λ av bv p q. absurd (ground (arith, p)))
lacking_ok (field j v a) b r k h = elim (Option-cases (lookup_field j b)) [
  | inl absent ↦ elim (Result-cases (lacking a b)) [
    | inr (e, q) ↦ absurd (ground (arith, absent, q))
    | inl (s, q) ↦
        let same : field j v s ≡ r = ground (arith, absent, q) in
        let (rest, agree) = lacking_ok a b s k q in
        elim (Bool-cases (str_eq j k)) [
          | inl here ↦
              let at : lookup_field j b ≡ lookup_field k b =
                ap (λ x. lookup_field x b) ((eq_iff j k).0 here) in
              (
                rw (← same) (ground (arith, absent, here, at)),
                λ av bv p q. absurd (ground (arith, absent, at, q)),
              )
          | inr other ↦ (
            rw (← same) (ground (arith, other, rest)),
            λ av bv p q. agree av bv (ground (arith, other, p)) q,
          )
        ]
  ]
  | inr (w, present) ↦ elim (Bool-cases (equals_type_spec (field_type v) (field_type w))) [
    | inr differs ↦ absurd (ground (arith, present, differs))
    | inl equal ↦
        let (rest, agree) = lacking_ok a b r k (ground (arith, present, equal)) in
        elim (Bool-cases (str_eq j k)) [
          | inl here ↦
              let at : lookup_field j b ≡ lookup_field k b =
                ap (λ x. lookup_field x b) ((eq_iff j k).0 here) in
              (
                rw (rest) (ground (arith, present, at, here)),
                λ av bv p q.
                    let e : v ≡ av = ground (arith, here, p) in
                    let f : w ≡ bv = ground (arith, present, at, q) in rw (← e, ← f) equal,
              )
          | inr other ↦
              (ground (arith, other, rest), λ av bv p q. agree av bv (ground (arith, other, p)) q)
        ]
  ]
]

-- A mismatch of the later entries is one of the whole map, since keys are unique.
later :
    (j : String) (v : NameAndTypeSpec) (a b : Fields) (k : String)
    → UniqueKeys (field j v a)
    → (av : NameAndTypeSpec) × (bv : NameAndTypeSpec) × (lookup_field k a ≡ some av)
      × (lookup_field k b ≡ some bv)
      × (equals_type_spec (field_type av) (field_type bv) ≡ false)
    → (av : NameAndTypeSpec) × (bv : NameAndTypeSpec) × (lookup_field k (field j v a) ≡ some av)
      × (lookup_field k b ≡ some bv)
      × (equals_type_spec (field_type av) (field_type bv) ≡ false)
unfolding lookup_field
later j v a b k u (av, bv, p, q, d) = elim (Bool-cases (str_eq j k)) [
  | inl here ↦
      let at : lookup_field j a ≡ lookup_field k a =
        ap (λ x. lookup_field x a) ((eq_iff j k).0 here) in
      absurd (ground (arith, u.0, at, p))
  | inr other ↦ (av, bv, ground (arith, other, p), q, d)
]

lacking_err :
    (a b : Fields) (k : String)
    → UniqueKeys a
    → lacking a b ≡ err (mismatch k)
    → (av : NameAndTypeSpec) × (bv : NameAndTypeSpec) × (lookup_field k a ≡ some av)
      × (lookup_field k b ≡ some bv)
      × (equals_type_spec (field_type av) (field_type bv) ≡ false)
unfolding lacking lookup_field
lacking_err no_fields b k u h = cc
lacking_err (field j v a) b k u h = elim (Option-cases (lookup_field j b)) [
  | inl absent ↦ elim (Result-cases (lacking a b)) [
    | inl (s, q) ↦ absurd (ground (arith, absent, q))
    | inr (e, q) ↦
        let same : e ≡ mismatch k = ground (arith, absent, q) in
        later j v a b k u (lacking_err a b k u.1 (rw (← same) q))
  ]
  | inr (w, present) ↦ elim (Bool-cases (equals_type_spec (field_type v) (field_type w))) [
    | inr differs ↦
        let same : j ≡ k = ground (arith, present, differs) in
        (v, w, ground (arith, same, eq_refl k, eq_iff j k), rw (← same) present, differs)
    | inl equal ↦ later j v a b k u (lacking_err a b k u.1 (ground (arith, present, equal)))
  ]
]

in_one_cases :
    (o p : Option NameAndTypeSpec)
    → (elim (only p o) [ none ↦ only o p | some v ↦ some v ]) ≡ in_one o p
in_one_cases none none = refl
in_one_cases none (some w) = refl
in_one_cases (some v) none = refl
in_one_cases (some v) (some w) = refl

-- OptionalInputs of two maps either finds a name whose types differ, and its error names it, or
-- yields the map of exactly the names that one of the two has and the other has not, each with its
-- input; every name that both have then has equal types.
pub optional_inputs_cases :
    (a b : Fields)
    → UniqueKeys a
    → ((k : String) × (av : NameAndTypeSpec) × (bv : NameAndTypeSpec) × (optional_inputs a b
          ≡ err (mismatch k))
        × (lookup_field k a ≡ some av)
        × (lookup_field k b ≡ some bv)
        × (equals_type_spec (field_type av) (field_type bv) ≡ false))
      ⊎ ((r : Fields) × (optional_inputs a b ≡ ok r)
          × ((k : String)
              → (lookup_field k r ≡ in_one (lookup_field k a) (lookup_field k b)) × AgreeAt a b k))
unfolding optional_inputs
optional_inputs_cases a b u = elim (Result-cases (lacking a b)) [
  | inr (mismatch k, q) ↦
      let (av, bv, p, s, d) = lacking_err a b k u q in inl (k, av, bv, rw q refl, p, s, d)
  | inl (r, q) ↦ inr (
    write_lacking b a r,
    rw q refl,
    λ k.
        let (rest, agree) = lacking_ok a b r k q in
        (
          ground (
            arith,
            lookup-write b a r k,
            rest,
            in_one_cases (lookup_field k a) (lookup_field k b),
          ),
          agree,
        ),
  )
]
