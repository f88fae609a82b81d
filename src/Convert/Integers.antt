-- ===== src/Convert/Integers.antt =====
-- contract/spec.go: the text of a contract's integer read as a number, with the ranges of uint64 and int64.
use btp_sdk.Base.{
  ◌≡◌, refl, ◌↔◌, ℕ, ◌<◌, ◌≤◌, ◌^◌, String, Bool, false, none, some, ltb, if◌then◌else◌, arith, inl,
  inr, Option-cases,
}
use btp_sdk.Base.Int.{ℤ, pos, negsuc, pos_part, neg_part}
use btp_sdk.Base.Int.{ℤ, pos, negsuc, pos_part, neg_part}
use btp_sdk.Base.Results.{Result, ok, err, ◌>>=◌}
use btp_sdk.Convert.{go_uint, Outside}
use btp_sdk.Convert.Primitive.{integer_of}

pub data NumberError : Type 0 where
  not_a_number cannot_convert : NumberError

-- `IsUint64` and `IsInt64` of math/big
unfoldable pub is_uint64 : ℤ → Bool
is_uint64 (pos n) = ltb n (2 ^ 64)
is_uint64 (negsuc n) = false

unfoldable pub is_int64 : ℤ → Bool
is_int64 (pos n) = ltb n (2 ^ 63)
is_int64 (negsuc n) = ltb n (2 ^ 63)

abbrev pub natural_part : ℤ → ℕ
natural_part (pos n) = n
natural_part (negsuc n) = 0

module _ (out : Outside) where
  unfoldable pub as_big_int : String → Result NumberError ℤ
  as_big_int i = elim (out.parse_big_int i) [ some z ↦ ok z | none ↦ err not_a_number ]

  unfoldable pub as_uint64 : String → Result NumberError ℕ
  unfolding as_big_int is_uint64
  as_uint64 i =
      as_big_int i >>= λ z. if is_uint64 z then ok (natural_part z) else err cannot_convert

  unfoldable pub as_int64 : String → Result NumberError ℤ
  unfolding as_big_int is_int64
  as_int64 i = as_big_int i >>= λ z. if is_int64 z then ok z else err cannot_convert

module _ (out : Outside) where
  -- `AsUint64` gives `n` exactly when the text reads as the natural number `n` and `n` is below
  -- 2^64: it loses nothing and never wraps around.
  pub as_uint64_iff :
      (i : String) (n : ℕ)
      → (as_uint64 out i ≡ ok n) ↔ ((out.parse_big_int i ≡ some (pos n)) × (n < 2 ^ 64))
  unfolding as_uint64 as_big_int is_uint64
  as_uint64_iff i n = elim (Option-cases (out.parse_big_int i)) [
    | inl q ↦ ground (arith, q)
    | inr (pos m, q) ↦ rw q ground (arith, q)
    | inr (negsuc m, q) ↦ rw q ground (arith, q)
  ]

  -- `AsInt64` gives `z` exactly when the text reads as `z` and `z` is at least -2^63 and below 2^63.
  pub as_int64_iff :
      (i : String) (z : ℤ)
      → (as_int64 out i ≡ ok z)
        ↔ ((out.parse_big_int i ≡ some z) × (pos_part z < 2 ^ 63) × (neg_part z ≤ 2 ^ 63))
  unfolding as_int64 as_big_int is_int64
  as_int64_iff i z = elim (Option-cases (out.parse_big_int i)) [
    | inl q ↦ ground (arith, q)
    | inr (pos m, q) ↦ rw q ground (arith, q)
    | inr (negsuc m, q) ↦ rw q ground (arith, q)
  ]

  -- What a text is read as after it was printed from a number.
  abbrev pub ReadsBack : Type 0
  ReadsBack = (z : ℤ) → out.parse_big_int (out.format_big_int z) ≡ some z

  -- Where printed numbers are read back, `AsUint64` gives back a natural number below 2^64 from the text
  -- that `IntegerOf` gives for it.
  pub integer_of-as_uint64 :
      ReadsBack
      → (n : ℕ) → n < 2 ^ 64
      → (s : String) × (integer_of out (go_uint n) ≡ ok s) × (as_uint64 out s ≡ ok n)
  unfolding integer_of
  integer_of-as_uint64 back n up = (
    out.format_big_int (pos n),
    refl,
    (as_uint64_iff (out.format_big_int (pos n)) n).1 (back (pos n), up),
  )
