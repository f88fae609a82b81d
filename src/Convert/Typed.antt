-- ===== src/Convert/Typed.antt =====
-- contract/convert.go: when a value has the type of a specification, and that `ParamOfWithSpec` gives such values only.
use btp_sdk.Base.{
  ◌≡◌, refl, ℕ, suc, ◌+◌, String, Bool, true, Option, none, some, List, [], ◌∷◌, ltb, leb, ◌&&◌,
  not, if◌then◌else◌, arith, inl, inr, ◌⊎◌, ap, ◌∙◌, sym, zero, str_eq, eq_iff, Bool-cases,
  Option-cases,
}
use btp_sdk.Base.Results.{Result, ok, err, ◌>>=◌, Result-cases}
use mathlib.Core.Path.{subst}
use btp_sdk.Spec.{
  TypeSpec, type_spec, TypeId, t_unknown, t_void, t_integer, t_boolean, t_string, t_bytes,
  t_address, t_struct, Fields, no_fields, field, NameAndTypeSpec, name_and_type, lookup_field,
}
use btp_sdk.Spec.Reflexive.{IdWellFormed, FieldsWellFormed, Within, Within-refl}
use btp_sdk.Convert.{
  go_uint, reflected, params, go_map, go_struct, go_bytes, GoType, any_type, Value, nil, integer,
  boolean, string, bytes, address, struct, go_slice, Values, no_values, value, KeyValues,
  no_key_values, key_value, Failure, Outside, has_key, value_at,
}
use btp_sdk.Convert.Primitive.{
  integer_of, string_of, address_of, bytes_of, boolean_of, primitive_of, primitive_param_of,
}
use btp_sdk.Convert.BySpec.{
  fields_from, fields_of, as_slice, is_slice, is_nil, byte_elements, leaf_of, param_at,
  array_elements, struct_result, entries_of, param_of_with_spec,
}

-- What a contract adaptor may be given for a type of `d` dimensions: a slice of interfaces for an array, the type of the
-- contract package for a leaf, and a struct with the specification's fields in its order,
-- each absent (nil) or of its own type.
mutual
  pub data HasType : ℕ → TypeId → Value → Type 0 where
    is_integer : (s : String) → HasType 0 t_integer (integer s)
    is_boolean : (b : Bool) → HasType 0 t_boolean (boolean b)
    is_string : (s : String) → HasType 0 t_string (string s)
    is_bytes : (b : List ℕ) → HasType 0 t_bytes (bytes b)
    is_address : (s : String) → HasType 0 t_address (address s)
    is_struct :
        (n : String) (fs : Fields) (kvs : KeyValues)
        → HaveFields fs kvs
        → HasType 0 (t_struct n fs) (struct n kvs)
    is_array :
        (d : ℕ) (t : TypeId) (vs : Values)
        → HaveType d t vs
        → HasType (suc d) t (go_slice any_type vs)

  pub data HaveType : ℕ → TypeId → Values → Type 0 where
    no_elements : (d : ℕ) (t : TypeId) → HaveType d t no_values
    element :
        (d : ℕ) (t : TypeId) (v : Value) (vs : Values)
        → HasType d t v
        → HaveType d t vs
        → HaveType d t (value v vs)

  pub data HaveFields : Fields → KeyValues → Type 0 where
    no_members : HaveFields no_fields no_key_values
    absent :
        (k n : String) (s : TypeSpec) (o : Bool) (fs : Fields) (kvs : KeyValues)
        → HaveFields fs kvs
        → HaveFields (field k (name_and_type n s o) fs) (key_value n nil kvs)
    member :
        (k n m : String) (d : ℕ) (t : TypeId) (o : Bool) (fs : Fields) (v : Value) (kvs : KeyValues)
        → HasType d t v
        → HaveFields fs kvs
        → HaveFields (field k (name_and_type n (type_spec m d t) o) fs) (key_value n v kvs)

-- Every field stands under its own name, in any struct.
abbrev mutual
  pub IsNamed : TypeId → Type 0
  IsNamed (t_struct s fs) = AreNamed fs
  IsNamed _ = Unit

  pub AreNamed : Fields → Type 0
  AreNamed no_fields = Unit
  AreNamed (field k (name_and_type n (type_spec m d t) o) fs) = (n ≡ k) × IsNamed t × AreNamed fs

-- A specification whose structs have each field once, under its own name.
abbrev pub IsProper : TypeId → Type 0
IsProper t = IdWellFormed t × IsNamed t

abbrev pub AreProper : Fields → Type 0
AreProper fs = FieldsWellFormed fs × AreNamed fs

fields_of-IsProper : (t : TypeId) → IsProper t → AreProper (fields_of t)
fields_of-IsProper (t_struct n fs) p = p
fields_of-IsProper t p = (tt, tt)

lookup_field-IsProper :
    (fs : Fields) (k n m : String) (d : ℕ) (t : TypeId) (o : Bool)
    → AreProper fs
    → lookup_field k fs ≡ some (name_and_type n (type_spec m d t) o)
    → IsProper t
unfolding lookup_field
lookup_field-IsProper no_fields k n m d t o p q = absurd (ground (arith, q))
lookup_field-IsProper (field j (name_and_type n' (type_spec m' d' t') o') fs) k n m d t o p q =
    elim (Bool-cases (str_eq j k)) [
      | inl same ↦
          let found : t' ≡ t = ground (arith, q, same) in subst IsProper found ((p.0).1, p.1.1)
      | inr differ ↦
          lookup_field-IsProper fs k n m d t o ((p.0).2, p.1.2) (ground (arith, q, differ))
    ]

-- An entry of a converted map: of a field of the struct, and absent or of the field's type.
abbrev EntryTyped : Option NameAndTypeSpec → Value → Type 0
EntryTyped none v = ⊥
EntryTyped (some (name_and_type n (type_spec m d t) o)) v = (v ≡ nil) ⊎ HasType d t v

abbrev EntriesTyped : Fields → KeyValues → Type 0
EntriesTyped fs no_key_values = Unit
EntriesTyped fs (key_value k v m) = EntryTyped (lookup_field k fs) v × EntriesTyped fs m

value_at-typed :
    (fs : Fields) (k : String) (f : NameAndTypeSpec) (m : KeyValues)
    → lookup_field k fs ≡ some f
    → EntriesTyped fs m
    → EntryTyped (some f) (value_at k m)
unfolding value_at
value_at-typed fs k (name_and_type n (type_spec x d t) o) no_key_values q h = inl refl
value_at-typed fs k f (key_value j v m) q (e, h) = elim (Bool-cases (str_eq j k)) [
  | inl same ↦
      let at : lookup_field j fs ≡ some f = ap (λ x. lookup_field x fs) ((eq_iff j k).0 same) ∙ q in
      rw same (subst (λ x. EntryTyped x v) at e)
  | inr differ ↦ rw differ (value_at-typed fs k f m q h)
]

fields_from-typed :
    (fs gs : Fields) (m : KeyValues)
    → Within gs fs
    → AreNamed gs
    → EntriesTyped fs m
    → HaveFields gs (fields_from gs m)
unfolding fields_from
fields_from-typed fs no_fields m w nd h = no_members
fields_from-typed fs (field k (name_and_type n (type_spec x d t) o) gs) m (q, w) (e, nt, nd) h =
    let tail = fields_from-typed fs gs m w nd h in
    let here =
      value_at-typed fs n (name_and_type n (type_spec x d t) o) m
        (ap (λ y. lookup_field y fs) e ∙ q) h in
    elim here [
      | inl z ↦ rw z (absent k n (type_spec x d t) o gs (fields_from gs m) tail)
      | inr p ↦ member k n x d t o gs (value_at n m) (fields_from gs m) p tail
    ]

wrap-typed :
    {A : Type 0} (t : TypeId) (f : A → Value)
    → ((a : A) → HasType 0 t (f a))
    → (r : Result Failure A) (w : Value) → (r >>= λ a. ok (f a)) ≡ ok w
    → HasType 0 t w
wrap-typed t f h (ok a) w q =
    let same : f a ≡ w = ground (arith, q) in subst (HasType 0 t) same (h a)
wrap-typed t f h (err e) w q = absurd (ground (arith, q))

module _ (out : Outside) where
  primitive_of-typed : (t : TypeId) (v w : Value) → primitive_of out t v ≡ ok w → HasType 0 t w
  unfolding primitive_of
  primitive_of-typed t_integer v w q =
      wrap-typed t_integer integer is_integer (integer_of out v) w q
  primitive_of-typed t_string v w q = wrap-typed t_string string is_string (string_of v) w q
  primitive_of-typed t_address v w q = wrap-typed t_address address is_address (address_of v) w q
  primitive_of-typed t_bytes v w q = wrap-typed t_bytes bytes is_bytes (bytes_of out v) w q
  primitive_of-typed t_boolean v w q = wrap-typed t_boolean boolean is_boolean (boolean_of v) w q
  primitive_of-typed t_unknown v w q = absurd (ground (arith, q))
  primitive_of-typed t_void v w q = absurd (ground (arith, q))
  primitive_of-typed (t_struct n fs) v w q = absurd (ground (arith, q))

  pub primitive_param_of-typed :
      (t : TypeId) (v w : Value) → primitive_param_of out t v ≡ ok w → HasType 0 t w
  unfolding primitive_param_of
  primitive_param_of-typed t (reflected v) w q = primitive_of-typed t v w q
  primitive_param_of-typed t v w q = primitive_of-typed t v w q

  leaf_of-typed : (t : TypeId) (v w : Value) → leaf_of out t v ≡ ok w → HasType 0 t w
  unfolding leaf_of
  leaf_of-typed (t_struct n fs) nil w q = absurd (ground (arith, q))
  leaf_of-typed (t_struct n fs) v w q = absurd (ground (arith, q))
  leaf_of-typed t v w q = primitive_param_of-typed t v w q

  byte_elements-typed :
      (d : ℕ) (t : TypeId) (k r : ℕ) (bs : List ℕ) (vs : Values)
      → d ≡ r + k
      → byte_elements out d t k bs ≡ ok vs
      → HaveType r t vs
  unfolding byte_elements
  byte_elements-typed d t k r [] vs e q =
      let same : no_values ≡ vs = ground (arith, q) in subst (HaveType r t) same (no_elements r t)
  byte_elements-typed d t k zero (b ∷ bs) vs e q =
      elim (Result-cases (primitive_param_of out t (go_uint b))) [
        | inr (x, p) ↦ absurd (ground (arith, p, q))
        | inl (w, p) ↦ elim (Result-cases (byte_elements out d t k bs)) [
          | inr (x, pr) ↦ absurd (ground (arith, p, pr, q))
          | inl (ws, pr) ↦
              let same : value w ws ≡ vs = ground (arith, p, pr, q, e) in
              subst (HaveType 0 t) same (
                element 0 t w ws (primitive_param_of-typed t (go_uint b) w p)
                  (byte_elements-typed d t k 0 bs ws e pr))
        ]
      ]
  byte_elements-typed d t k (suc r) (b ∷ bs) vs e q = absurd (ground (arith, q, e))

branch-typed :
    (d : ℕ) (t : TypeId) (k r : ℕ) (deep leaf : Result Failure Value) (w : Value)
    → suc d ≡ r + k
    → (if leb k d then deep else leaf) ≡ ok w
    → ((n : ℕ) → d ≡ n + k → deep ≡ ok w → HasType (suc n) t w)
    → (leaf ≡ ok w → HasType 0 t w)
    → HasType r t w
branch-typed d t k zero deep leaf w e q h l = l (ground (arith, e, q))
branch-typed d t k (suc r) deep leaf w e q h l = h r (omega (arith, e)) (ground (arith, e, q))

array-typed :
    (n : ℕ) (t : TypeId) (c : Result Failure Values) (w : Value)
    → ((ws : Values) → c ≡ ok ws → HaveType n t ws)
    → as_slice c ≡ ok w
    → HasType (suc n) t w
array-typed n t (ok ws) w h q =
    let same : go_slice any_type ws ≡ w = ground (arith, q) in
    subst (HasType (suc n) t) same (is_array n t ws (h ws refl))
array-typed n t (err e) w h q = absurd (ground (arith, q))

abbrev refusal : Failure → Result Failure Value
refusal e = err e

refused-typed : (e : Failure) (w : Value) (P : Type 0) → refusal e ≡ ok w → P
refused-typed e w P q = absurd (ground (arith, q))

module _ (out : Outside) where
  struct_result-typed :
      (t : TypeId) (v : Value) (c : Result Failure KeyValues) (w : Value)
      → IsProper t
      → ((m : KeyValues) → c ≡ ok m → EntriesTyped (fields_of t) m)
      → struct_result out t v c ≡ ok w
      → HasType 0 t w
  unfolding struct_result
  struct_result-typed (t_struct n fs) v (ok m) w p h q =
      let same : struct n (fields_from fs m) ≡ w = ground (arith, q) in
      subst (HasType 0 (t_struct n fs)) same (
        is_struct n fs (fields_from fs m)
          (fields_from-typed fs fs m (Within-refl fs p.0) p.1 (h m refl)))
  struct_result-typed (t_struct n fs) v (err e) w p h q = absurd (ground (arith, q))
  struct_result-typed t v c w p h q = primitive_param_of-typed out t v w q

  mutual
    unfolding param_at array_elements entries_of

    param_at-typed :
        (d : ℕ) (t : TypeId) (k r : ℕ) (v w : Value)
        → IsProper t
        → suc d ≡ r + k
        → param_at out d t k v ≡ ok w
        → HasType r t w
    param_at-typed d t k r (go_slice g vs) w p e q =
        branch-typed d t k r _ _ w e q
          (λ n en a. array-typed n t _ w (λ ws c. array_elements-typed d t k n g vs ws p en c) a)
          (λ l. leaf_of-typed out t (go_slice g vs) w l)
    param_at-typed d t k r (bytes bs) w p e q =
        branch-typed d t k r _ _ w e q
          (λ n en a. array-typed n t _ w (λ ws c. byte_elements-typed out d t k n bs ws en c) a)
          (λ l. leaf_of-typed out t (bytes bs) w l)
    param_at-typed d t k r (go_bytes bs) w p e q =
        branch-typed d t k r _ _ w e q
          (λ n en a. array-typed n t _ w (λ ws c. byte_elements-typed out d t k n bs ws en c) a)
          (λ l. leaf_of-typed out t (go_bytes bs) w l)
    param_at-typed d t k r (struct x kvs) w p e q =
        branch-typed d t k r _ _ w e q (λ n en a. refused-typed _ w _ a)
          (λ l.
            struct_result-typed t (struct x kvs) _ w p
              (λ m c. entries_of-typed (fields_of t) kvs m (fields_of-IsProper t p) c) l)
    param_at-typed d t k r (go_struct x kvs) w p e q =
        branch-typed d t k r _ _ w e q (λ n en a. refused-typed _ w _ a)
          (λ l.
            struct_result-typed t (go_struct x kvs) _ w p
              (λ m c. entries_of-typed (fields_of t) kvs m (fields_of-IsProper t p) c) l)
    param_at-typed d t k r (params kvs) w p e q =
        branch-typed d t k r _ _ w e q (λ n en a. refused-typed _ w _ a)
          (λ l.
            struct_result-typed t (params kvs) _ w p
              (λ m c. entries_of-typed (fields_of t) kvs m (fields_of-IsProper t p) c) l)
    param_at-typed d t k r (go_map true kvs) w p e q =
        branch-typed d t k r _ _ w e q (λ n en a. refused-typed _ w _ a)
          (λ l.
            struct_result-typed t (go_map true kvs) _ w p
              (λ m c. entries_of-typed (fields_of t) kvs m (fields_of-IsProper t p) c) l)
    param_at-typed d t k r v w p e q =
        branch-typed d t k r _ _ w e q (λ n en a. refused-typed _ w _ a)
          (λ l. leaf_of-typed out t v w l)

    array_elements-typed :
        (d : ℕ) (t : TypeId) (k r : ℕ) (g : GoType) (vs ws : Values)
        → IsProper t
        → d ≡ r + k
        → array_elements out d t k g vs ≡ ok ws
        → HaveType r t ws
    array_elements-typed d t k r g no_values ws p e q =
        let same : no_values ≡ ws = ground (arith, q) in subst (HaveType r t) same (no_elements r t)
    array_elements-typed d t k r g (value v vs) ws p e q =
        elim (Bool-cases (ltb k d && not (is_slice g))) [
          | inl refused ↦ absurd (ground (arith, q, refused))
          | inr taken ↦ elim (Result-cases (param_at out d t (suc k) v)) [
            | inr (x, a) ↦ absurd (ground (arith, q, taken, a))
            | inl (u, a) ↦ elim (Result-cases (array_elements out d t k g vs)) [
              | inr (x, b) ↦ absurd (ground (arith, q, taken, a, b))
              | inl (us, b) ↦
                  let same : value u us ≡ ws = ground (arith, q, taken, a, b) in
                  subst (HaveType r t) same (
                    element r t u us (param_at-typed d t (suc k) r v u p (omega (arith, e)) a)
                      (array_elements-typed d t k r g vs us p e b))
            ]
          ]
        ]

    entries_of-typed :
        (fs : Fields) (kvs m : KeyValues)
        → AreProper fs
        → entries_of out fs kvs ≡ ok m
        → EntriesTyped fs m
    entries_of-typed fs no_key_values m p q =
        let same : no_key_values ≡ m = ground (arith, q) in subst (EntriesTyped fs) same tt
    entries_of-typed fs (key_value k v kvs) m p q = elim (Bool-cases (has_key k kvs)) [
      | inl later ↦ entries_of-typed fs kvs m p (ground (arith, q, later))
      | inr last ↦ elim (Option-cases (lookup_field k fs)) [
        | inl unknown ↦ absurd (ground (arith, q, last, unknown))
        | inr (name_and_type n (type_spec x d t) o, known) ↦
            elim (Result-cases (entries_of out fs kvs)) [
              | inr (x1, b) ↦ absurd (ground (arith, q, last, known, b))
              | inl (us, b) ↦ elim (Bool-cases (is_nil v)) [
                | inl z ↦
                    let same : key_value k nil us ≡ m = ground (arith, q, last, known, b, z) in
                    subst (EntriesTyped fs) same (
                      subst (λ f. EntryTyped f nil) (sym known) (inl refl),
                      entries_of-typed fs kvs us p b,
                    )
                | inr given ↦ elim (Result-cases (param_at out d t 1 v)) [
                  | inr (x1, a) ↦ absurd (ground (arith, q, last, known, b, given, a))
                  | inl (u, a) ↦
                      let same : key_value k u us ≡ m =
                        ground (arith, q, last, known, b, given, a) in
                      subst (EntriesTyped fs) same (
                        subst (λ f. EntryTyped f u) (sym known)
                            (inr (
                              param_at-typed d t 1 d v u
                                (lookup_field-IsProper fs k n x d t o p known) (omega arith) a)),
                        entries_of-typed fs kvs us p b,
                      )
                ]
              ]
            ]
      ]
    ]

  -- Every value that `ParamOfWithSpec` returns for a proper specification has the specification's
  -- type, at every nesting of arrays and structs.
  pub param_of_with_spec-HasType :
      (n : String) (d : ℕ) (t : TypeId) (v w : Value)
      → IsProper t
      → param_of_with_spec out (type_spec n d t) v ≡ ok w
      → HasType d t w
  unfolding param_of_with_spec
  param_of_with_spec-HasType n d t v w p q = param_at-typed d t 1 d v w p (omega arith) q
