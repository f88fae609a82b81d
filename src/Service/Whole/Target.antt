-- ===== src/Service/Whole/Target.antt =====
-- Spec.Merge: which methods a network type sees in the whole specification after a contract was merged for it.
use btp_sdk.Base.{
  ◌≡◌, refl, String, false, Option, none, some, List, [], ◌∷◌, lookup, str_eq, eq_iff, eq_refl,
  arith, inl, inr, Bool-cases, Option-cases, ap, All, ◌∙◌, sym,
}
use mathlib.Core.Path.{subst}
use btp_sdk.Spec.Reflexive.{
  WellFormed, FieldsWellFormed, equals_type_spec_refl, equals_name_and_types_refl,
}
use btp_sdk.Service.Method.{ContractMethod, MethodSpec, merge, new_method_spec, is_support}
use btp_sdk.Service.Method.Merge.{Signature, base, effective, Agrees, IsValid, contains-one}
use btp_sdk.Service.Method.Target.{Ready, merge_target}
use btp_sdk.Service.Whole.Total.{NamesGiven, merge_events_total}
use btp_sdk.Service.Whole.{ContractSpec, ServiceSpec, put, merge_method, merge_methods, merge_spec}

lookup-put_same :
    {V : Type 0} (k : String) (v : V) (m : List (String × V)) → lookup k (put k v m) ≡ some v
unfolding put
lookup-put_same k v [] = rw (eq_refl k) refl
lookup-put_same k v ((j, w) ∷ m) = elim (Bool-cases (str_eq j k)) [
  | inl same ↦ rw (same, same) refl
  | inr differ ↦ ground (arith, differ, lookup-put_same k v m)
]

lookup-put_other :
    {V : Type 0} (k n : String) (v : V) (m : List (String × V))
    → str_eq k n ≡ false
    → lookup n (put k v m) ≡ lookup n m
unfolding put
lookup-put_other k n v [] differ = ground (arith, differ)
lookup-put_other k n v ((j, w) ∷ m) differ = elim (Bool-cases (str_eq j k)) [
  | inl same ↦ ground (arith, differ, same, ap (λ x. str_eq x n) ((eq_iff j k).0 same))
  | inr other ↦ ground (arith, other, lookup-put_other k n v m differ)
]

-- A method of the specification shows the network type the contract's method.
abbrev pub Shows : String → ContractMethod → Option MethodSpec → Type 0
Shows nt cm none = ⊥
Shows nt cm (some sm) = (g : Signature) × (effective sm nt ≡ some g) × Agrees g cm

-- The contract's method is well-formed, and can be merged into the method that is there.
abbrev pub CanMerge : String → ContractMethod → Option MethodSpec → Type 0
CanMerge nt cm none = FieldsWellFormed cm.input_map × WellFormed cm.output
CanMerge nt cm (some sm) =
    IsValid sm × Ready sm cm nt × FieldsWellFormed cm.input_map × WellFormed cm.output

new_method-Shows :
    (nt : String) (cm : ContractMethod)
    → FieldsWellFormed cm.input_map
    → WellFormed cm.output
    → Shows nt cm (some (new_method_spec cm (nt ∷ [])))
unfolding new_method_spec effective is_support
new_method-Shows nt cm wi wo = (
  base (new_method_spec cm (nt ∷ [])),
  ground (arith, contains-one nt nt, eq_refl nt),
  record {
    inputs_agree = equals_name_and_types_refl cm.input_map wi;
    output_agrees = equals_type_spec_refl cm.output wo;
    payable_agrees = elim (Bool-cases cm.payable) [ inl t ↦ rw t refl | inr t ↦ rw t refl ];
    readonly_agrees = elim (Bool-cases cm.read_only) [ inl t ↦ rw t refl | inr t ↦ rw t refl ];
  },
)

-- what a round of the first loop stores
abbrev merged : ContractMethod → List String → Option MethodSpec → MethodSpec
merged cm nts none = new_method_spec cm nts
merged cm nts (some sm) = (merge sm cm nts).0

merge_method-methods :
    (n : String) (cm : ContractMethod) (nts : List String) (s : ServiceSpec)
    → (merge_method n cm nts s).methods ≡ put n (merged cm nts (lookup n s.methods)) s.methods
unfolding merge_method
merge_method-methods n cm nts s = elim (Option-cases (lookup n s.methods)) [
  | inl missing ↦ rw (missing, merge_method) refl
  | inr (sm, found) ↦ rw (found, merge_method) refl
]

merged-Shows :
    (nt : String) (cm : ContractMethod) (o : Option MethodSpec)
    → CanMerge nt cm o
    → Shows nt cm (some (merged cm (nt ∷ []) o))
merged-Shows nt cm none (wi, wo) = new_method-Shows nt cm wi wo
merged-Shows nt cm (some sm) (v, r, wi, wo) = merge_target sm cm nt v wi wo r

merge_method_other :
    (j n : String) (cm : ContractMethod) (nts : List String) (s : ServiceSpec)
    → str_eq j n ≡ false
    → lookup n (merge_method j cm nts s).methods ≡ lookup n s.methods
merge_method_other j n cm nts s differ =
    ap (lookup n) (merge_method-methods j cm nts s)
    ∙ lookup-put_other j n (merged cm nts (lookup j s.methods)) s.methods differ

-- The loop over the methods leaves a method alone that the contract does not have.
merge_methods_other :
    (ms : List (String × ContractMethod)) (nts : List String) (s : ServiceSpec) (n : String)
    → lookup n ms ≡ none
    → lookup n (merge_methods ms nts s).methods ≡ lookup n s.methods
unfolding merge_methods
merge_methods_other [] nts s n missing = refl
merge_methods_other ((j, cm) ∷ ms) nts s n missing = elim (Bool-cases (str_eq j n)) [
  | inl same ↦ absurd (ground (arith, missing, same))
  | inr differ ↦
      merge_methods_other ms nts (merge_method j cm nts s) n (ground (arith, missing, differ))
      ∙ merge_method_other j n cm nts s differ
]

abbrev pub KeysDistinct : List (String × ContractMethod) → Type 0
KeysDistinct [] = Unit
KeysDistinct ((j, cm) ∷ ms) = (lookup j ms ≡ none) × KeysDistinct ms

-- A method that is merged for a network type last, under its name, is seen by it.
merge_methods_head :
    (j : String) (cj : ContractMethod) (ms : List (String × ContractMethod)) (nt : String)
    (s : ServiceSpec)
    → lookup j ms ≡ none
    → CanMerge nt cj (lookup j s.methods)
    → Shows nt cj (lookup j (merge_methods ms (nt ∷ []) (merge_method j cj (nt ∷ []) s)).methods)
merge_methods_head j cj ms nt s fresh can =
    subst (Shows nt cj)
      (sym (
        merge_methods_other ms (nt ∷ []) (merge_method j cj (nt ∷ []) s) j fresh
        ∙ ap (lookup j) (merge_method-methods j cj (nt ∷ []) s)
        ∙ lookup-put_same j (merged cj (nt ∷ []) (lookup j s.methods)) s.methods))
      (merged-Shows nt cj (lookup j s.methods) can)

merge_methods-Shows :
    (ms : List (String × ContractMethod)) (nt : String) (s : ServiceSpec) (n : String)
    (cm : ContractMethod)
    → KeysDistinct ms
    → lookup n ms ≡ some cm
    → CanMerge nt cm (lookup n s.methods)
    → Shows nt cm (lookup n (merge_methods ms (nt ∷ []) s).methods)
unfolding merge_methods
merge_methods-Shows [] nt s n cm k has can = absurd (ground (arith, has))
merge_methods-Shows ((j, cj) ∷ ms) nt s n cm (fresh, k) has can = elim (Bool-cases (str_eq j n)) [
  | inl same ↦
      let e : cj ≡ cm = ground (arith, has, same) in
      let k : j ≡ n = (eq_iff j n).0 same in
      subst
        (λ x.
          Shows nt x
            (lookup n (merge_methods ms (nt ∷ []) (merge_method j cj (nt ∷ []) s)).methods))
        e
        (subst
          (λ x.
            Shows nt cj
              (lookup x (merge_methods ms (nt ∷ []) (merge_method j cj (nt ∷ []) s)).methods))
          k
          (merge_methods_head j cj ms nt s fresh (
            subst (λ x. CanMerge nt cj (lookup x s.methods)) (sym k)
              (subst (λ x. CanMerge nt x (lookup n s.methods)) (sym e) can))))
  | inr differ ↦
      merge_methods-Shows ms nt (merge_method j cj (nt ∷ []) s) n cm k (ground (arith, has, differ))
        (subst (CanMerge nt cm) (sym (merge_method_other j n cj (nt ∷ []) s differ)) can)
]

-- The contract's method of a name, if there is one, can be merged into the specification's.
abbrev pub Mergeable : String → Option ContractMethod → Option MethodSpec → Type 0
Mergeable nt none o = Unit
Mergeable nt (some cm) o = CanMerge nt cm o

-- The network type sees the contract's method, or the method is as it was.
abbrev pub Outcome : String → Option ContractMethod → Option MethodSpec → Option MethodSpec → Type 0
Outcome nt none before after = after ≡ before
Outcome nt (some cm) before after = Shows nt cm after

merge_methods-Outcome :
    (ms : List (String × ContractMethod)) (nt : String) (s : ServiceSpec) (n : String)
    → KeysDistinct ms
    → Mergeable nt (lookup n ms) (lookup n s.methods)
    → Outcome nt
        (lookup n ms)
        (lookup n s.methods)
        (lookup n (merge_methods ms (nt ∷ []) s).methods)
merge_methods-Outcome ms nt s n k can = elim (Option-cases (lookup n ms)) [
  | inl missing ↦ rw missing (merge_methods_other ms (nt ∷ []) s n missing)
  | inr (cm, has) ↦ rw has (
      merge_methods-Shows ms nt s n cm k has
        (subst (λ o. Mergeable nt o (lookup n s.methods)) has can))
]

-- Spec.Merge, for one network type and a contract whose methods have distinct names and whose events
-- name their indexed inputs, returns. A method that the contract does not have is as it was. If the
-- contract has a well-formed method of the name, then the specification has a method of that name
-- afterwards, and the network type sees in it inputs, an output and the flags that are those of the contract's
-- method. Where the specification had a method of that name already, this is for one whose lists of network
-- types are without repetitions, where no overload holds the network type yet and every overload that
-- the contract's method is compared equal to gives all the parts in which it differs from the base.
pub merge_spec-Outcome :
    (s : ServiceSpec) (cs : ContractSpec) (nt n : String)
    → KeysDistinct cs.methods
    → All NamesGiven cs.events
    → Mergeable nt (lookup n cs.methods) (lookup n s.methods)
    → (t : ServiceSpec) × (merge_spec s cs (nt ∷ []) ≡ some t)
      × Outcome nt (lookup n cs.methods) (lookup n s.methods) (lookup n t.methods)
unfolding merge_spec
merge_spec-Outcome s cs nt n k a can =
    let (t, eq, kept) =
      merge_events_total cs.events (nt ∷ []) (merge_methods cs.methods (nt ∷ []) s) a in
    (
      t,
      eq,
      subst (λ ms. Outcome nt (lookup n cs.methods) (lookup n s.methods) (lookup n ms)) (sym kept)
          (merge_methods-Outcome cs.methods nt s n k can),
    )
