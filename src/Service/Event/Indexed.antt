-- ===== src/Service/Event/Indexed.antt =====
-- EqualsEventIndexed (service/spec.go) compares sets.
use btp_sdk.Base.{
  suc, ◌≤◌, ◌≡◌, refl, sym, ◌∙◌, inl, inr, ◌↔◌, String, true, false, List, [], ◌∷◌, arith, str_eq,
  eq_iff, eq_refl, ==_iff, if◌then◌else◌, length, Bool-cases,
}
use btp_sdk.StringSet
use btp_sdk.StringSet.{has, contains-eq-has, IsDistinct}
use btp_sdk.Service.Event.{all_among, equals_event_indexed}

-- the list without the first occurrence of a name
abbrev less : List String → String → List String
less [] v = []
less (x ∷ l) v = if str_eq x v then l else x ∷ less l v

length-less : (l : List String) (v : String) → has l v ≡ true → length l ≡ suc (length (less l v))
length-less [] v h = cc
length-less (x ∷ l) v h = ground (arith, length-less l v)

has-less :
    (l : List String) (v w : String) → str_eq v w ≡ false → has l w ≡ true → has (less l v) w ≡ true
has-less [] v w ne h = cc
has-less (x ∷ l) v w ne h = ground (arith, has-less l v w, eq_iff x v, eq_iff v w, eq_iff x w)

-- A list without repetitions is no longer than one that holds all its names.
subset-length :
    (a b : List String)
    → IsDistinct a
    → ((w : String) → has a w ≡ true → has b w ≡ true)
    → length a ≤ length b
subset-length [] b d h = omega arith
subset-length (x ∷ a) b d h =
    let within = h x (ground (arith, eq_refl x)) in
    let rest = subset-length a (less b x) d.1 (λ w m.
      has-less b x w (ground (arith, d.0, contains-eq-has a x, eq_iff x w)) (h w (ground arith))) in
    omega (arith, rest, length-less b x within)

all_among_lem :
    (a b : List String) → (all_among a b ≡ true) ↔ ((w : String) → has a w ≡ true → has b w ≡ true)
unfolding all_among
all_among_lem [] b = (λ h w m. cc, λ h. refl)
all_among_lem (v ∷ a) b = (
  λ h w m.
      let rest : has a w ≡ true → has b w ≡ true = (all_among_lem a b).0 (ground (arith, h)) w in
      ground (arith, contains-eq-has b v, rest, eq_iff v w),
  λ h. ground (
    arith,
    contains-eq-has b v,
    h v (ground (arith, eq_refl v)),
    (all_among_lem a b).1 (λ w m. h w (ground arith)),
  ),
)

-- Names that all lie in a list of the same length fill it.
fills :
    (a b : List String)
    → IsDistinct a
    → length a ≡ length b
    → ((w : String) → has a w ≡ true → has b w ≡ true)
    → (w : String) → has b w ≡ true
    → has a w ≡ true
fills a b d e h w m = elim (Bool-cases (has a w)) [
  | inl there ↦ there
  | inr missing ↦
      let longer =
        subset-length (w ∷ a) b (ground (arith, contains-eq-has a w), d)
          (λ v k. ground (arith, h v, eq_iff w v)) in
      absurd (omega (arith, longer, e))
]

-- Two lists of indexed inputs, each without repetitions, compare equal exactly when they hold the
-- same names, in whatever order.
pub equals_event_indexed_iff :
    (a b : List String)
    → IsDistinct a
    → IsDistinct b
    → (equals_event_indexed a b ≡ true)
      ↔ ((w : String) → StringSet.contains a w ≡ StringSet.contains b w)
unfolding equals_event_indexed
equals_event_indexed_iff a b da db = (
  λ h w.
      let e : length a ≡ length b = ground (arith, ==_iff (length a) (length b)) in
      let within = (all_among_lem a b).0 (ground arith) in
      ground (arith, contains-eq-has a w, contains-eq-has b w, within w, fills a b da e within w),
  λ h.
      let there : (w : String) → has a w ≡ has b w =
        λ w. sym (contains-eq-has a w) ∙ h w ∙ contains-eq-has b w in
      let up = subset-length a b da (λ w m. ground (arith, there w)) in
      let down = subset-length b a db (λ w m. ground (arith, there w)) in
      ground (
        arith,
        up,
        down,
        ==_iff (length a) (length b),
        (all_among_lem a b).1 (λ w m. ground (arith, there w)),
      ),
)
