-- ===== src/Contract/Commitments.antt =====
-- packages/negotiation-contract/src/commitments.ts: the commitments that the runtimes compute, and
-- their agreement with the circuits' own.
use midnight_private_negotia.Common.{
  ℕ, ◌+◌, ◌-◌, ◌*◌, ◌%◌, ◌≤◌, ◌≡◌, Bool, ◌&&◌, ◌||◌, [], ◌∷◌, leb, ◌==◌, le→leb, length, all, Text,
  codes, is_digit, if◌then◌else◌, Result, ok, guard, ◌>>=◌, ◌>>◌,
}
use midnight_private_negotia.Contract.Circuits.{
  Bytes, ContractError, not_32_bytes, not_uint64, separator_too_long, not_hex, pad32, Crypto,
  public_key, limit_commitment, price_commitment_for, buyer_domain, seller_domain,
}

abbrev pub uint64_max : ℕ
uint64_max = 18_446_744_073_709_551_615

-- `pad32`
unfoldable pub pad_separator : Text → Result ContractError Bytes
unfolding pad32
pad_separator value = do guard (leb (length value) 32) separator_too_long; ok (pad32 value)

-- `assertBytes32`
abbrev pub assert_bytes32 : Bytes → Result ContractError (Unit {0})
assert_bytes32 value = guard (length value == 32) not_32_bytes

-- `publicKeyForSecret`
unfoldable pub public_key_for_secret : Crypto → Bytes → Result ContractError Bytes
unfolding pad_separator
public_key_for_secret crypto secret = do
  assert_bytes32 secret
  domain ← pad_separator (codes "negotiation:public-key:")
  ok (crypto.persistent_hash (domain ∷ secret ∷ []))

-- `asFieldBytes`, which asserts a Uint<64>; a `bigint` price of the callers is not negative.
abbrev pub as_field_bytes : Crypto → ℕ → Result ContractError Bytes
as_field_bytes crypto value = do
  guard (leb value uint64_max) not_uint64
  ok (crypto.field_bytes value)

-- `limitCommitment`
unfoldable pub limit_commitment_of :
    Crypto → Bytes → Text → Bytes → ℕ → Bytes → Result ContractError Bytes
unfolding pad_separator
limit_commitment_of crypto deal_id role key limit randomness = do
  assert_bytes32 deal_id
  assert_bytes32 key
  assert_bytes32 randomness
  domain ← pad_separator role
  field ← as_field_bytes crypto limit
  ok (crypto.persistent_hash (deal_id ∷ domain ∷ key ∷ field ∷ randomness ∷ []))

-- `priceCommitment`
unfoldable pub price_commitment_of : Crypto → Bytes → ℕ → Bytes → Result ContractError Bytes
unfolding pad_separator
price_commitment_of crypto deal_id price randomness = do
  assert_bytes32 deal_id
  assert_bytes32 randomness
  domain ← pad_separator (codes "negotiation:price:")
  field ← as_field_bytes crypto price
  ok (crypto.persistent_hash (deal_id ∷ domain ∷ field ∷ randomness ∷ []))

-- The value of a hexadecimal digit, of either case.
abbrev hex_value : ℕ → ℕ
hex_value c = if is_digit c then c - b'0' else if leb b'a' c then c - b'a' + 10 else c - b'A' + 10

abbrev is_hex : ℕ → Bool
is_hex c = is_digit c || (leb b'a' c && leb c b'f') || (leb b'A' c && leb c b'F')

abbrev hex_pairs : Text → Bytes
hex_pairs [] = []
hex_pairs (a ∷ []) = []
hex_pairs (a ∷ b ∷ rest) = (hex_value a * 16 + hex_value b) ∷ hex_pairs rest

-- `hexToBytes`
unfoldable pub hex_to_bytes : Text → Result ContractError Bytes
hex_to_bytes hex = do guard (length hex % 2 == 0 && all is_hex hex) not_hex; ok (hex_pairs hex)

-- The commitments that the runtimes compute for 32-byte values and a 64-bit limit or price are those
-- that the circuits compute, for the buyer's and the seller's domain, and for the price.
pub commitments_agree :
    (crypto : Crypto) (deal_id key : Bytes) (amount : ℕ) (randomness : Bytes)
    → length deal_id ≡ 32
    → length key ≡ 32
    → length randomness ≡ 32
    → amount ≤ uint64_max
    → (limit_commitment_of crypto deal_id buyer_domain key amount randomness
        ≡ ok (limit_commitment crypto deal_id (pad32 buyer_domain) key amount randomness))
      × (limit_commitment_of crypto deal_id seller_domain key amount randomness
          ≡ ok (limit_commitment crypto deal_id (pad32 seller_domain) key amount randomness))
      × (price_commitment_of crypto deal_id amount randomness
          ≡ ok (price_commitment_for crypto deal_id amount randomness))
      × (public_key_for_secret crypto key ≡ ok (public_key crypto key))
unfolding limit_commitment_of price_commitment_of public_key_for_secret limit_commitment
    price_commitment_for public_key
commitments_agree crypto deal_id key amount randomness d k r a = (
  rw (d, k, r, le→leb amount uint64_max a),
  rw (d, k, r, le→leb amount uint64_max a),
  rw (d, r, le→leb amount uint64_max a),
  rw k,
)
