-- ===== src/Finality/Supplier.antt =====
-- contract/eth/monitor.go and contract/icon/monitor.go: EqualID, Latest and HeightByID, with CommonHashOf and
-- HexBytesOf of contract/eth/result.go and contract/icon/result.go for the texts that the callers of
-- IsFinalized give. The clients are parameters. A hash is the text of its bytes.
use btp_sdk.Base.{ℕ, ◌≡◌, refl, String, Bool, Option, none, some, List, ◌⊎◌, inl, inr, str_eq}
use btp_sdk.Base.Results.{Result, ok, err, ◌>>=◌, Result-cases}
use btp_sdk.Convert.{Outside, go_string}
use btp_sdk.Convert.Primitive.{bytes_of}
use btp_sdk.Finality.{BlockInfo}
use btp_sdk.Finality.Verdict.{
  Error, invalid_block_id, not_found_block, unavailable, Supplier, compared, Answer, Serves,
}

-- how a call of a node fails: it has no such block, or it gives another error
pub data NodeError : Type 0 where
  not_found failed : NodeError

pub record EthClient : Type 0 where
  pub bytes_to_hash : List ℕ → String
  pub finalized_header : Result NodeError BlockInfo
  pub header_by_hash : String → Result NodeError ℕ

-- The hash of the last block is still the text that the node gave.
pub record IconClient : Type 0 where
  pub bytes_text : List ℕ → String
  pub value_of : String → Option String
  pub get_last_block : Result NodeError BlockInfo
  pub get_block_by_hash : String → Result NodeError ℕ

-- the end of both HeightByID
unfoldable pub node_answer : Result NodeError ℕ → Result Error ℕ
node_answer (ok n) = ok n
node_answer (err not_found) = err not_found_block
node_answer (err failed) = err unavailable

-- `EqualID` of both
unfoldable pub equal_id : (String → Result Error String) → BlockInfo → String → Result Error Bool
equal_id read b id = read id >>= λ h. ok (str_eq b.block_id h)

unfoldable pub height_by_id :
    (String → Result Error String) → (String → Result NodeError ℕ) → String → Result Error ℕ
unfolding node_answer
height_by_id read node id = read id >>= λ h. node_answer (node h)

-- `CommonHashOf` and `HexBytesOf` of a text
unfoldable pub common_hash_of : Outside → EthClient → String → Result Error String
unfolding bytes_of
common_hash_of out c id = elim (bytes_of out (go_string id)) [
  | ok b ↦ ok (c.bytes_to_hash b)
  | err e ↦ err invalid_block_id
]

unfoldable pub hex_bytes_of : Outside → IconClient → String → Result Error String
unfolding bytes_of
hex_bytes_of out c id = elim (bytes_of out (go_string id)) [
  | ok b ↦ ok (c.bytes_text b)
  | err e ↦ err invalid_block_id
]

unfoldable pub eth_latest : EthClient → Result Error BlockInfo
eth_latest c = elim c.finalized_header [ ok b ↦ ok b | err e ↦ err unavailable ]

unfoldable pub icon_latest : IconClient → Result Error BlockInfo
icon_latest c = elim c.get_last_block [
  | err e ↦ err unavailable
  | ok blk ↦ elim (c.value_of blk.block_id) [
    | none ↦ err unavailable
    | some h ↦ ok (record blk { block_id = h })
  ]
]

unfoldable pub eth_supplier : Outside → EthClient → Supplier
unfolding eth_latest equal_id height_by_id common_hash_of
eth_supplier out c = record {
  latest = eth_latest c;
  height_by_id = height_by_id (common_hash_of out c) c.header_by_hash;
  equal_id = equal_id (common_hash_of out c);
}

unfoldable pub icon_supplier : Outside → IconClient → Supplier
unfolding icon_latest equal_id height_by_id hex_bytes_of
icon_supplier out c = record {
  latest = icon_latest c;
  height_by_id = height_by_id (hex_bytes_of out c) c.get_block_by_hash;
  equal_id = equal_id (hex_bytes_of out c);
}

-- A node answers for a hash with the height of its block, or that it has no such block, or fails.
abbrev pub IsAnswer : (String → Option ℕ) → String → Result NodeError ℕ → Type 0
IsAnswer number_of h (ok n) = number_of h ≡ some n
IsAnswer number_of h (err not_found) = number_of h ≡ none
IsAnswer number_of h (err failed) = Unit

-- the hash that a text is read as
abbrev pub read_by : (String → Result Error String) → String → Option String
read_by read id = elim (read id) [ ok h ↦ some h | err e ↦ none ]

-- A text that is not read is refused as an invalid identifier.
abbrev Refuses : (String → Result Error String) → Type 0
Refuses read = (id : String) → ((h : String) × (read id ≡ ok h)) ⊎ (read id ≡ err invalid_block_id)

module _ (read : String → Result Error String) (node : String → Result NodeError ℕ)
    (number_of : String → Option ℕ) (refuses : Refuses read) where
  equal_id-compares :
      (b : BlockInfo) (id : String) → equal_id read b id ≡ compared b (read_by read id)
  unfolding equal_id
  equal_id-compares b id = elim (refuses id) [
    | inl (h, q) ↦ rw (q, read_by) refl
    | inr q ↦ rw (q, read_by) refl
  ]

  node_answer-Answer :
      (id h : String) (r : Result NodeError ℕ)
      → read_by read id ≡ some h
      → IsAnswer number_of h r
      → Answer (read_by read) number_of id (node_answer r)
  unfolding node_answer
  node_answer-Answer id h (ok n) q a = (h, q, a)
  node_answer-Answer id h (err not_found) q a = (h, q, a)
  node_answer-Answer id h (err failed) q a = tt

  height_by_id-answers :
      ((h : String) → IsAnswer number_of h (node h))
      → (id : String) → Answer (read_by read) number_of id (height_by_id read node id)
  unfolding height_by_id
  height_by_id-answers answers id = elim (refuses id) [
    | inl (h, q) ↦ rw q (node_answer-Answer id h (node h) (rw (q, read_by) refl) (answers h))
    | inr q ↦ rw q (rw (q, read_by) refl)
  ]

common_hash_of-Refuses : (out : Outside) (c : EthClient) → Refuses (common_hash_of out c)
unfolding common_hash_of
common_hash_of-Refuses out c id = elim (Result-cases (bytes_of out (go_string id))) [
  | inl (b, q) ↦ inl (c.bytes_to_hash b, rw (q, common_hash_of) refl)
  | inr (e, q) ↦ inr (rw (q, common_hash_of) refl)
]

hex_bytes_of-Refuses : (out : Outside) (c : IconClient) → Refuses (hex_bytes_of out c)
unfolding hex_bytes_of
hex_bytes_of-Refuses out c id = elim (Result-cases (bytes_of out (go_string id))) [
  | inl (b, q) ↦ inl (c.bytes_text b, rw (q, hex_bytes_of) refl)
  | inr (e, q) ↦ inr (rw (q, hex_bytes_of) refl)
]

pub eth_supplier-Serves :
    (out : Outside) (c : EthClient) (number_of : String → Option ℕ)
    → ((h : String) → IsAnswer number_of h (c.header_by_hash h))
    → Serves (read_by (common_hash_of out c)) number_of (eth_supplier out c)
unfolding eth_supplier
eth_supplier-Serves out c number_of answers = record {
  compares =
      equal_id-compares (common_hash_of out c) c.header_by_hash number_of
        (common_hash_of-Refuses out c);
  answers =
      height_by_id-answers (common_hash_of out c) c.header_by_hash number_of
        (common_hash_of-Refuses out c) answers;
}

-- The same for the ICON supplier.
pub icon_supplier-Serves :
    (out : Outside) (c : IconClient) (number_of : String → Option ℕ)
    → ((h : String) → IsAnswer number_of h (c.get_block_by_hash h))
    → Serves (read_by (hex_bytes_of out c)) number_of (icon_supplier out c)
unfolding icon_supplier
icon_supplier-Serves out c number_of answers = record {
  compares =
      equal_id-compares (hex_bytes_of out c) c.get_block_by_hash number_of
        (hex_bytes_of-Refuses out c);
  answers =
      height_by_id-answers (hex_bytes_of out c) c.get_block_by_hash number_of
        (hex_bytes_of-Refuses out c) answers;
}
