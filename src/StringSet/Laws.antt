-- ===== src/StringSet/Laws.antt =====
-- The string sets refine finite sets: each operation is described by which names it contains.
use btp_sdk.Base.{
  ℕ, suc, ◌+◌, ◌≡◌, refl, sym, ap, ◌∙◌, inl, inr, String, Bool, true, false, not, ◌&&◌, ◌||◌,
  Option, none, some, List, [], ◌∷◌, ◌++◌, arith, str_eq, eq_iff, eq_refl, if◌then◌else◌, take,
  drop, Bool-cases,
}
use btp_sdk.StringSet.Defs.{index_from, contains, add, remove, merge_into, merge, IsDistinct}

-- Which names a slice holds, by plain recursion.
abbrev pub has : List String → String → Bool
has [] v = false
has (x ∷ xs) v = str_eq x v || has xs v

contains_from-eq-has :
    (i : ℕ) (l : List String) (v : String)
    → (elim (index_from i l v) [ none ↦ false | some j ↦ true ]) ≡ has l v
unfolding index_from
contains_from-eq-has i [] v = refl
contains_from-eq-has i (x ∷ l) v = ground (arith, contains_from-eq-has (i + 1) l v)

pub contains-eq-has : (l : List String) (v : String) → contains l v ≡ has l v
unfolding contains
contains-eq-has l v = contains_from-eq-has 0 l v

pub has-append : (a b : List String) (v : String) → has (a ++ b) v ≡ (has a v || has b v)
has-append [] b v = refl
has-append (x ∷ a) b v = ground (arith, has-append a b v)

-- What `remove` leaves: the slice without the first occurrence.
without : List String → String → List String
without [] v = []
without (x ∷ l) v = if str_eq x v then l else x ∷ without l v

cut : Option ℕ → List String → List String
cut none l = l
cut (some i) l = take i l ++ drop (i + 1) l

shift : Option ℕ → Option ℕ
shift none = none
shift (some i) = some (suc i)

index_from-suc :
    (i : ℕ) (l : List String) (v : String) → index_from (suc i) l v ≡ shift (index_from i l v)
unfolding index_from shift
index_from-suc i [] v = refl
index_from-suc i (x ∷ l) v = ground (arith, index_from-suc (i + 1) l v)

cut-shift : (o : Option ℕ) (x : String) (l : List String) → cut (shift o) (x ∷ l) ≡ x ∷ cut o l
unfolding cut shift
cut-shift none x l = refl
cut-shift (some i) x l = ground arith

cut-index : (l : List String) (v : String) → cut (index_from 0 l v) l ≡ without l v
unfolding index_from cut without
cut-index [] v = refl
cut-index (x ∷ l) v = elim (Bool-cases (str_eq x v)) [
  | inl e ↦ rw e
  | inr e ↦
      rw (e, index_from-suc 0 l v) (cut-shift (index_from 0 l v) x l ∙ ap (◌∷◌ x) (cut-index l v))
]

remove-eq-without : (l : List String) (v : String) → (remove l v).0 ≡ without l v
unfolding remove cut
remove-eq-without l v = ground (arith, cut-index l v)

has-without :
    (l : List String) (v w : String)
    → IsDistinct l
    → has (without l v) w ≡ (has l w && not (str_eq v w))
unfolding without
has-without [] v w d = refl
has-without (x ∷ l) v w d =
    ground (arith, eq_iff x v, eq_iff v w, eq_iff x w, has-without l v w d.1, contains-eq-has l x)

without-IsDistinct : (l : List String) (v : String) → IsDistinct l → IsDistinct (without l v)
unfolding without
without-IsDistinct [] v d = d
without-IsDistinct (x ∷ l) v d = elim (Bool-cases (str_eq x v)) [
  | inl e ↦ rw e d.1
  | inr e ↦ rw e (
    ground (arith, contains-eq-has (without l v) x, contains-eq-has l x, has-without l v x d.1),
    without-IsDistinct l v d.1,
  )
]

-- Removing a name from a slice without repetitions is the difference of sets: the result holds a
-- name exactly when the slice held it and it is not the removed one, it has no repetitions, and
-- the flag says whether the name was there.
pub remove-IsDifference :
    (l : List String) (v : String)
    → IsDistinct l
    → ((w : String) → contains (remove l v).0 w ≡ (contains l w && not (str_eq v w)))
      × IsDistinct (remove l v).0
      × ((remove l v).1 ≡ contains l v)
unfolding remove contains
remove-IsDifference l v d = (
  λ w.
      contains-eq-has _ w
      ∙ ap (λ m. has m w) (remove-eq-without l v)
      ∙ has-without l v w d
      ∙ ap (λ b. b && not (str_eq v w)) (sym (contains-eq-has l w)),
  rw (remove-eq-without l v) (without-IsDistinct l v d),
  ground arith,
)

has-merge_into :
    (a r b : List String) (w : String)
    → (has a w ≡ true → has r w ≡ true)
    → has (merge_into a r b) w ≡ (has r w || has b w)
unfolding merge_into
has-merge_into a r [] w k = ground arith
has-merge_into a r (v ∷ b) w k = elim (Bool-cases (contains a v)) [
  | inl e ↦ rw e (ground (arith, has-merge_into a r b w k, contains-eq-has a v, eq_iff v w))
  | inr e ↦ rw e (
      ground (
        arith,
        has-merge_into a (r ++ v ∷ []) b w (ground (arith, has-append r (v ∷ []) w)),
        has-append r (v ∷ []) w,
      ))
]

pub contains-append :
    (a b : List String) (v : String) → contains (a ++ b) v ≡ (contains a v || contains b v)
contains-append a b v =
    rw (contains-eq-has (a ++ b) v, contains-eq-has a v, contains-eq-has b v) (has-append a b v)

pub snoc-IsDistinct :
    (r : List String) (v : String) → IsDistinct r → contains r v ≡ false → IsDistinct (r ++ v ∷ [])
snoc-IsDistinct [] v d h = (ground (arith, contains-eq-has [] v), tt)
snoc-IsDistinct (x ∷ r) v d h = (
  ground (
    arith,
    contains-append r (v ∷ []) x,
    contains-eq-has (v ∷ []) x,
    contains-eq-has (x ∷ r) v,
    eq_iff v x,
    eq_iff x v,
  ),
  snoc-IsDistinct r v d.1 (ground (arith, contains-eq-has (x ∷ r) v, contains-eq-has r v)),
)

-- Every name of `r` comes from `a`, or is none of those still to come.
merge_into-IsDistinct :
    (a r b : List String)
    → IsDistinct r
    → IsDistinct b
    → ((w : String) → contains b w ≡ true → contains r w ≡ contains a w)
    → IsDistinct (merge_into a r b)
unfolding merge_into
merge_into-IsDistinct a r [] dr db k = dr
merge_into-IsDistinct a r (v ∷ b) dr db k = elim (Bool-cases (contains a v)) [
  | inl e ↦ rw e (
      merge_into-IsDistinct a r b dr db.1
        (λ w h. k w (ground (arith, contains-eq-has (v ∷ b) w, contains-eq-has b w))))
  | inr e ↦ rw e (
      merge_into-IsDistinct a (r ++ v ∷ []) b
        (snoc-IsDistinct r v dr (ground (arith, k v, contains-eq-has (v ∷ b) v, eq_refl v))) db.1
        (λ w h. ground (
          arith,
          k w,
          contains-append r (v ∷ []) w,
          contains-eq-has (v ∷ []) w,
          contains-eq-has (v ∷ b) w,
          contains-eq-has b w,
          eq_iff v w,
        )))
]

add_cases :
    (l : List String) (v : String)
    → add l v ≡ (if contains l v then (l, false) else (l ++ v ∷ [], true))
unfolding add contains
add_cases l v = ground arith

-- Adding a name keeps a slice free of repetitions, adds that name and no other, and the flag says
-- whether the name is new.
pub add-IsInsertion :
    (l : List String) (v : String)
    → IsDistinct l
    → ((w : String) → contains (add l v).0 w ≡ (contains l w || str_eq v w))
      × IsDistinct (add l v).0
      × ((add l v).1 ≡ not (contains l v))
add-IsInsertion l v d = elim (Bool-cases (contains l v)) [
  | inl e ↦ rw (add_cases l v, e) (λ w. ground (arith, eq_iff v w), d, refl)
  | inr e ↦
      rw (add_cases l v, e)
        (
          λ w. ground (arith, contains-append l (v ∷ []) w, contains-eq-has (v ∷ []) w),
          snoc-IsDistinct l v d e,
          refl,
        )
]

-- Merging two slices without repetitions is the union of sets.
pub merge-IsUnion :
    (a b : List String)
    → IsDistinct a
    → IsDistinct b
    → ((w : String) → contains (merge a b) w ≡ (contains a w || contains b w))
      × IsDistinct (merge a b)
unfolding merge
merge-IsUnion a b da db = (
  λ w.
      rw (contains-eq-has (merge_into a a b) w, contains-eq-has a w, contains-eq-has b w)
        (has-merge_into a a b w (λ h. h)),
  merge_into-IsDistinct a a b da db (λ w h. refl),
)
