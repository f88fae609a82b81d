-- ===== src/StringSet/Defs.antt =====
-- service/spec.go: StringSetIndex, StringSetContains, StringSetAdd, StringSetRemove, StringSetMerge.
use btp_sdk.Base.{
  ℕ, ◌+◌, ◌≡◌, String, Bool, true, false, Option, none, some, List, [], ◌∷◌, ◌++◌, str_eq,
  if◌then◌else◌, take, drop,
}

-- the loop of `StringSetIndex`, with the counter `i`
unfoldable pub index_from : ℕ → List String → String → Option ℕ
index_from i [] v = none
index_from i (elem ∷ l) v = if str_eq elem v then some i else index_from (i + 1) l v

unfoldable pub index : List String → String → Option ℕ
unfolding index_from
index l v = index_from 0 l v

unfoldable pub contains : List String → String → Bool
unfolding index
contains l v = elim (index l v) [ none ↦ false | some i ↦ true ]

unfoldable pub add : List String → String → List String × Bool
unfolding index
add l v = elim (index l v) [ none ↦ (l ++ v ∷ [], true) | some i ↦ (l, false) ]

unfoldable pub remove : List String → String → List String × Bool
unfolding index
remove l v = elim (index l v) [ none ↦ (l, false) | some i ↦ (take i l ++ drop (i + 1) l, true) ]

-- the loop of `StringSetMerge`: the test is against `a`, not against the result so far
unfoldable pub merge_into : List String → List String → List String → List String
unfolding contains
merge_into a r [] = r
merge_into a r (bv ∷ b) = merge_into a (if contains a bv then r else r ++ bv ∷ []) b

unfoldable pub merge : List String → List String → List String
unfolding merge_into
merge a b = merge_into a a b

-- No name stands twice.
abbrev pub IsDistinct : List String → Type 0
IsDistinct [] = Unit
IsDistinct (x ∷ xs) = (contains xs x ≡ false) × IsDistinct xs
