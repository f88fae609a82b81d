-- ===== src/Finality/Verdict.antt =====
-- Last and IsFinalized of contract/monitor.go. The supplier (Latest, HeightByID and the EqualID of its
-- blocks) is an interface of the source, so a record here; Finality/Supplier has those of the adaptors.
-- The source takes signed heights; a height below 1 is 0 here.
use btp_sdk.Base.{
  ℕ, ◌≡◌, refl, ◌⊎◌, String, Bool, true, false, Option, none, some, ◌≤◌, ◌<◌, ◌≢◌, Bool-cases, ltb,
  ◌==◌, ==_iff, inl, inr, if◌then◌else◌, arith, str_eq, eq_iff, sym,
}
use mathlib.Core.Path.{subst}
use btp_sdk.Base.Results.{Result, ok, err, ◌>>=◌}
use btp_sdk.Finality.{BlockInfo, Monitor}

pub data Error : Type 0 where
  invalid_height invalid_block_id not_found_block unavailable : Error

pub record Supplier : Type 0 where
  pub latest : Result Error BlockInfo
  pub height_by_id : String → Result Error ℕ
  pub equal_id : BlockInfo → String → Result Error Bool

unfoldable pub last_block : Supplier → Monitor → Result Error BlockInfo
last_block f s = if s.started then elim s.last [ some b ↦ ok b | none ↦ f.latest ] else f.latest

-- the end of `IsFinalized`: a block of a final height that was not confirmed does not exist
unfoldable pub confirm : Bool → Result Error Bool
confirm ret = if ret then ok true else err not_found_block

unfoldable pub is_finalized : Supplier → Monitor → ℕ → String → Result Error Bool
unfolding last_block confirm
is_finalized f s height id =
    if ltb height 1
    then err invalid_height
    else last_block f s >>= λ last.
        if ltb last.height height
        then ok false
        else if height == last.height
        then f.equal_id last id >>= confirm
        else f.height_by_id id >>= λ h. confirm (height == h)

-- Below, `decode` reads an identifier as the hash of a block, and `number_of` is the height of the
-- block of a hash, if the node's chain, or a branch of it that the node has kept, has that block.
abbrev pub compared : BlockInfo → Option String → Result Error Bool
compared b none = err invalid_block_id
compared b (some h) = ok (str_eq b.block_id h)

module _ (decode : String → Option String) (number_of : String → Option ℕ) where
  -- What an answer of HeightByID says of an identifier: the height of its block, that the node has
  -- no such block, or that it is no identifier. The node may also fail to answer.
  abbrev pub Answer : String → Result Error ℕ → Type 0
  Answer id (ok n) = (h : String) × (decode id ≡ some h) × (number_of h ≡ some n)
  Answer id (err not_found_block) = (h : String) × (decode id ≡ some h) × (number_of h ≡ none)
  Answer id (err invalid_block_id) = decode id ≡ none
  Answer id (err unavailable) = Unit
  Answer id (err invalid_height) = ⊥

  -- The contract of a supplier, which those of the adaptors keep (Finality/Supplier)
  pub record Serves (f : Supplier) : Type 0 where
    pub compares : (b : BlockInfo) (id : String) → f.equal_id b id ≡ compared b (decode id)
    pub answers : (id : String) → Answer id (f.height_by_id id)

  -- The identifier is that of a block at the height, which is not above the last final block, and
  -- which is this block if it is at its height.
  abbrev pub AtHeight : BlockInfo → ℕ → String → Type 0
  AtHeight last height id =
      (h : String) × (decode id ≡ some h)
      × (number_of h ≡ some height)
      × (height ≤ last.height)
      × (height ≡ last.height → h ≡ last.block_id)

  -- The identifier is that of no block at the height, or of another than the last final block at
  -- the height of this one.
  abbrev pub NotAtHeight : BlockInfo → ℕ → String → Type 0
  NotAtHeight last height id =
      (h : String) × (decode id ≡ some h)
      × ((number_of h ≢ some height) ⊎ ((height ≡ last.height) × (h ≢ last.block_id)))

  abbrev pub IsVerdict : Supplier → BlockInfo → ℕ → String → Result Error Bool → Type 0
  IsVerdict f last height id (ok true) = (1 ≤ height) × AtHeight last height id
  IsVerdict f last height id (ok false) = (1 ≤ height) × (last.height < height)
  IsVerdict f last height id (err invalid_height) = height < 1
  IsVerdict f last height id (err invalid_block_id) =
      (1 ≤ height) × (height ≤ last.height) × (decode id ≡ none)
  IsVerdict f last height id (err not_found_block) =
      (1 ≤ height) × (height ≤ last.height) × NotAtHeight last height id
  IsVerdict f last height id (err unavailable) =
      (1 ≤ height) × (height < last.height) × (f.height_by_id id ≡ err unavailable)

  module _ (f : Supplier) (s : Monitor) (last : BlockInfo) (height : ℕ) (id : String) where
    compared-IsVerdict :
        (o : Option String)
        → decode id ≡ o
        → number_of last.block_id ≡ some last.height
        → 1 ≤ height
        → height ≡ last.height
        → IsVerdict f last height id (compared last o >>= confirm)
    unfolding confirm
    compared-IsVerdict none d on le at = (le, omega arith, d)
    compared-IsVerdict (some h) d on le at = elim (Bool-cases (str_eq last.block_id h)) [
      | inl same ↦
          let e : last.block_id ≡ h = (eq_iff last.block_id h).0 same in
          let found : number_of h ≡ some height =
            subst (λ x. number_of x ≡ some height) e
              (subst (λ n. number_of last.block_id ≡ some n) (sym at) on) in
          rw same (le, (h, d, found, ground arith, λ _. sym e))
      | inr other ↦ rw other (
        le,
        ground arith,
        (h, d, inr (at, λ e. ground (arith, other, eq_iff last.block_id h, e))),
      )
    ]

    answered-IsVerdict :
        (r : Result Error ℕ)
        → f.height_by_id id ≡ r
        → Answer id r
        → 1 ≤ height
        → height < last.height
        → IsVerdict f last height id (r >>= λ h. confirm (height == h))
    unfolding confirm
    answered-IsVerdict (ok n) q (h, d, at) le below = elim (Bool-cases (height == n)) [
      | inl same ↦
          let e : height ≡ n = (==_iff height n).0 same in
          let found : number_of h ≡ some height = subst (λ x. number_of h ≡ some x) (sym e) at in
          rw same (le, (h, d, found, omega arith, λ e2. absurd (omega arith)))
      | inr other ↦
          rw other
            (le, omega arith, (h, d, inl (λ e. ground (arith, other, at, e, ==_iff height n))))
    ]
    answered-IsVerdict (err not_found_block) q (h, d, at) le below =
        (le, omega arith, (h, d, inl (λ e. ground (arith, at, e))))
    answered-IsVerdict (err invalid_block_id) q a le below = (le, omega arith, a)
    answered-IsVerdict (err unavailable) q a le below = (le, below, q)
    answered-IsVerdict (err invalid_height) q a le below = absurd a

    -- With a supplier that keeps its contract, and a last final block that its node has at its height,
    -- the result of IsFinalized says this of every height and every identifier. True: the height is
    -- at least 1, the identifier is that of a block which the node has at this height, not above the last final
    -- block, and is the last final block if at its height. False: the height is above that of the last final
    -- block. NotFoundBlock: the identifier is that of no block at this height, or of another than the last
    -- final block at its height. The other errors: a height below 1, no identifier, or no answer of the node.
    pub is_finalized-IsVerdict :
        Serves f
        → last_block f s ≡ ok last
        → number_of last.block_id ≡ some last.height
        → IsVerdict f last height id (is_finalized f s height id)
    unfolding is_finalized
    is_finalized-IsVerdict w known on = elim (Bool-cases (ltb height 1)) [
      | inl low ↦ rw low (ground (arith, low))
      | inr fine ↦
          rw (fine, known)
            (elim (Bool-cases (ltb last.height height)) [
              | inl above ↦ rw above (ground (arith, fine), ground (arith, above))
              | inr within ↦ rw within (elim (Bool-cases (height == last.height)) [
                | inl same ↦
                    rw (same, w.compares last id)
                      (compared-IsVerdict (decode id) refl on (ground (arith, fine))
                        (ground (arith, same)))
                | inr other ↦ rw other (
                    answered-IsVerdict (f.height_by_id id) refl (w.answers id)
                      (ground (arith, fine))
                      (ground (arith, within, other, ==_iff height last.height)))
              ])
            ])
    ]
