-- ===== src/Tests/Verdict.antt =====
-- An Ethereum client whose chain has the blocks b, bb, and so on up to height 7, the last final one at
-- height 5. An identifier is the base64 text of a block's height, written with so many letters b.
use Prim.Native.Char.{Char}
use Prim.Native.String.{[] as []ₛ, ◌∷◌ as ◌∷ₛ◌}
use btp_sdk.Base.{
  ℕ, zero, suc, ◌≡◌, refl, String, Option, none, some, List, [], ◌∷◌, str_eq, leb, if◌then◌else◌,
}
use btp_sdk.Base.Int.{pos}
use btp_sdk.Base.Results.{Result, ok, err}
use btp_sdk.Convert.{Outside}
use btp_sdk.Finality.{BlockInfo, new_monitor}
use btp_sdk.Finality.Verdict.{
  Supplier, last_block, is_finalized, Serves, IsVerdict, is_finalized-IsVerdict,
}
use btp_sdk.Finality.Supplier.{
  EthClient, NodeError, not_found, common_hash_of, eth_supplier, eth_latest, IsAnswer, read_by,
  eth_supplier-Serves,
}

abbrev letter : Char
letter = "b"

abbrev pub block_at : ℕ → String
block_at zero = ""
block_at (suc h) = letter ∷ₛ block_at h

abbrev text_length : String → ℕ
text_length []ₛ = 0
text_length (c ∷ₛ s) = suc (text_length s)

abbrev height_of : String → Option ℕ
height_of s = if str_eq (block_at (text_length s)) s then some (text_length s) else none

abbrev pub number_of : String → Option ℕ
number_of s = if leb (text_length s) 7 then height_of s else none

abbrev outside : Outside
outside = record {
  parse_big_int = λ s. none;
  format_big_int = λ z. "";
  big_int_set_bytes = λ b. pos 0;
  decode_base64 = λ s. elim (height_of s) [ none ↦ none | some h ↦ some (h ∷ []) ];
  decode_hex = λ s. none;
}

abbrev hash_of : List ℕ → String
hash_of [] = ""
hash_of (h ∷ rest) = block_at h

abbrev pub last_final : BlockInfo
last_final = record { block_id = "bbbbb"; height = 5 }

abbrev answer_of : Option ℕ → Result NodeError ℕ
answer_of (some n) = ok n
answer_of none = err not_found

abbrev client : EthClient
client = record {
  bytes_to_hash = hash_of;
  finalized_header = ok last_final;
  header_by_hash = λ h. answer_of (number_of h);
}

answer_of-IsAnswer :
    (h : String) (o : Option ℕ) → number_of h ≡ o → IsAnswer number_of h (answer_of o)
answer_of-IsAnswer h none q = q
answer_of-IsAnswer h (some n) q = q

abbrev pub supplier : Supplier
supplier = eth_supplier outside client

abbrev pub decode : String → Option String
decode = read_by (common_hash_of outside client)

pub supplier-Serves : Serves decode number_of supplier
supplier-Serves =
    eth_supplier-Serves outside client number_of (λ h. answer_of-IsAnswer h (number_of h) refl)

is_finalized-IsVerdict_example :
    IsVerdict decode number_of supplier last_final 3 "bbb"
      (is_finalized supplier new_monitor 3 "bbb")
unfolding last_block new_monitor eth_supplier eth_latest
is_finalized-IsVerdict_example =
    is_finalized-IsVerdict decode number_of supplier new_monitor last_final 3 "bbb" supplier-Serves
      refl refl
