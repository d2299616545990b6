-- ===== src/Evidence/Envelope.antt =====
-- packages/evidence/src/evidence.ts: parsing, encrypting and decrypting settlement evidence. Node's
-- JSON, cipher, dates and randomness are the parameters of Platform.
use midnight_private_negotia.Common.{
  ℕ, Bool, false, ◌&&◌, ◌||◌, Option, none, some, List, [], ◌∷◌, leb, ◌==◌, length, all, Text,
  codes, text_eq, is_digit, is_numeral, Result, ok, err, guard, ◌>>=◌, ◌>>◌, if◌then◌else◌, Value,
  null, string, integer, object, array, no_items, item, Fields, no_fields, field, lookup, as_text,
  includes, keys,
}
use midnight_private_negotia.Agent.Types.{PartyRole, buyer, seller}
use midnight_private_negotia.Contract.Circuits.{Bytes, Crypto, DealStatus}

abbrev pub contract_version : Text
contract_version = codes "negotiation-v2.1-private-settlement"

abbrev evidence_format : Text
evidence_format = codes "midnight-negotiation-settlement-evidence"

pub record SettlementEvidence : Type 0 where
  pub role : PartyRole
  pub network : Text
  pub contract_version_of : Text
  pub contract_address : Text
  pub deal_id : Text
  pub agreed_price : Text
  pub price_randomness : Text
  pub price_commitment : Text
  pub settled_at : Text

pub data EvidenceError : Type 0 where
  invalid_evidence invalid_envelope not_decrypted header_mismatch : EvidenceError
  not_read_back invalid_session_id not_json bad_commitment io_failed : EvidenceError

pub data KeyStoreMode : Type 0 where
  macos_keychain file : KeyStoreMode

pub record PublicDealState : Type 0 where
  pub deal_id : Bytes
  pub price_commitment : Bytes
  pub status : DealStatus

-- What the code calls outside of it. Each call has its number, so that the chain's and the disk's
-- answers may change between any two calls.
pub record Platform : Type 0 where
  pub crypto : Crypto
  pub read_deal_state : ℕ → Text → Option PublicDealState
  pub fails : ℕ → Bool
  pub now : ℕ → Text
  pub nonce : ℕ → Text
  pub parse_json : Text → Option Value
  pub print_json : Value → Text
  pub is_date : Text → Bool
  pub seal : Bytes → Text → Text → Text → Text × Text
  pub unseal : Bytes → Text → Text → Text → Text → Option Text

abbrev pub role_text : PartyRole → Text
role_text buyer = codes "buyer"
role_text seller = codes "seller"

abbrev pub as_role : Option Value → Option PartyRole
as_role (some (string s)) =
    if text_eq s (codes "buyer")
    then some buyer
    else if text_eq s (codes "seller")
    then some seller
    else none
as_role _ = none

abbrev pub required : {A : Type 0} → Option A → EvidenceError → Result EvidenceError A
required none e = err e
required (some a) e = ok a

abbrev lower_or_digit : ℕ → Bool
lower_or_digit c = is_digit c || (leb b'a' c && leb c b'z') || c == b'_'

abbrev is_lower_hex : ℕ → Bool
is_lower_hex c = is_digit c || (leb b'a' c && leb c b'f')

-- `/^[a-z0-9_]{16,256}$/u`
abbrev pub is_address : Text → Bool
is_address s = all lower_or_digit s && leb 16 (length s) && leb (length s) 256

-- `HEX_32`
abbrev pub is_hex_32 : Text → Bool
is_hex_32 s = all is_lower_hex s && length s == 64

abbrev evidence_keys : List Text
evidence_keys =
    codes "role"
    ∷ codes "network"
    ∷ codes "contractVersion"
    ∷ codes "contractAddress"
    ∷ codes "dealId"
    ∷ codes "agreedPrice"
    ∷ codes "priceRandomness"
    ∷ codes "priceCommitment"
    ∷ codes "settledAt"
    ∷ []

-- `hasExactKeys` of this file
abbrev has_evidence_keys : Fields → Bool
has_evidence_keys value =
    all (includes (keys value)) evidence_keys && all (includes evidence_keys) (keys value)

abbrev evidence_of_fields : Platform → Fields → Result EvidenceError SettlementEvidence
evidence_of_fields platform v = do
  guard (has_evidence_keys v) invalid_evidence
  role ← required (as_role (lookup v (codes "role"))) invalid_evidence
  network ← required (as_text (lookup v (codes "network"))) invalid_evidence
  version ← required (as_text (lookup v (codes "contractVersion"))) invalid_evidence
  address ← required (as_text (lookup v (codes "contractAddress"))) invalid_evidence
  guard (is_address address) invalid_evidence
  deal_id ← required (as_text (lookup v (codes "dealId"))) invalid_evidence
  guard (is_hex_32 deal_id) invalid_evidence
  price ← required (as_text (lookup v (codes "agreedPrice"))) invalid_evidence
  guard (is_numeral 19 price) invalid_evidence
  randomness ← required (as_text (lookup v (codes "priceRandomness"))) invalid_evidence
  guard (is_hex_32 randomness) invalid_evidence
  commitment ← required (as_text (lookup v (codes "priceCommitment"))) invalid_evidence
  guard (is_hex_32 commitment) invalid_evidence
  settled_at ← required (as_text (lookup v (codes "settledAt"))) invalid_evidence
  guard (platform.is_date settled_at) invalid_evidence
  ok (record {
    role = role;
    network = network;
    contract_version_of = version;
    contract_address = address;
    deal_id = deal_id;
    agreed_price = price;
    price_randomness = randomness;
    price_commitment = commitment;
    settled_at = settled_at;
  })

-- `parseSettlementEvidence`
unfoldable pub parse_settlement_evidence :
    Platform → Value → Result EvidenceError SettlementEvidence
unfolding lookup keys
parse_settlement_evidence platform (object v) = evidence_of_fields platform v
parse_settlement_evidence platform _ = err invalid_evidence

-- The object that the evidence is.
unfoldable pub evidence_value : SettlementEvidence → Value
evidence_value e = object (
    field (codes "role") (string (role_text e.role)) (
      field (codes "network") (string e.network) (
        field (codes "contractVersion") (string e.contract_version_of) (
          field (codes "contractAddress") (string e.contract_address) (
            field (codes "dealId") (string e.deal_id) (
              field (codes "agreedPrice") (string e.agreed_price) (
                field (codes "priceRandomness") (string e.price_randomness) (
                  field (codes "priceCommitment") (string e.price_commitment)
                    (field (codes "settledAt") (string e.settled_at) no_fields)))))))))

-- The authenticated header of an envelope.
pub record EnvelopeHeader : Type 0 where
  pub role : Option Value
  pub network : Option Value
  pub contract_address : Option Value
  pub key_store : Option Value
  pub nonce : Option Value

abbrev value_or_null : Option Value → Value
value_or_null none = null
value_or_null (some v) = v

-- `envelopeHeader`
unfoldable pub envelope_header : Platform → EnvelopeHeader → Text
envelope_header platform h = platform.print_json (
    array (
      item (string evidence_format) (
        item (integer 1) (
          item (value_or_null h.role) (
            item (value_or_null h.network) (
              item (value_or_null h.contract_address) (
                item (value_or_null h.key_store) (
                  item (string (codes "aes-256-gcm"))
                    (item (value_or_null h.nonce) no_items)))))))))

abbrev mode_text : KeyStoreMode → Text
mode_text macos_keychain = codes "macos-keychain"
mode_text file = codes "file"

-- `encryptEvidence`, at the number of the call that draws the nonce.
unfoldable pub encrypt_evidence :
    Platform → ℕ → SettlementEvidence → Bytes → KeyStoreMode → Result EvidenceError Value
unfolding parse_settlement_evidence evidence_value envelope_header
encrypt_evidence platform t evidence key mode = do
  parsed ← parse_settlement_evidence platform (evidence_value evidence)
  let nonce = platform.nonce t
  let header : EnvelopeHeader = record {
    role = some (string (role_text parsed.role));
    network = some (string parsed.network);
    contract_address = some (string parsed.contract_address);
    key_store = some (string (mode_text mode));
    nonce = some (string nonce);
  }
  let (ciphertext, tag) =
      platform.seal key nonce (envelope_header platform header)
        (platform.print_json (evidence_value parsed))
  ok (
      object (
        field (codes "format") (string evidence_format) (
          field (codes "formatVersion") (integer 1) (
            field (codes "role") (string (role_text parsed.role)) (
              field (codes "network") (string parsed.network) (
                field (codes "contractAddress") (string parsed.contract_address) (
                  field (codes "keyStore") (string (mode_text mode)) (
                    field (codes "algorithm") (string (codes "aes-256-gcm")) (
                      field (codes "nonce") (string nonce) (
                        field (codes "tag") (string tag)
                          (field (codes "ciphertext") (string ciphertext) no_fields)))))))))))

abbrev is_string_at : Fields → Text → Text → Bool
is_string_at v key expected = elim (as_text (lookup v key)) [
  | none ↦ false
  | some s ↦ text_eq s expected
]

abbrev is_integer_at : Fields → Text → ℕ → Bool
is_integer_at v key n = elim (lookup v key) [ some (integer m) ↦ m == n | _ ↦ false ]

abbrev decrypt_fields : Platform → Fields → Bytes → Result EvidenceError SettlementEvidence
decrypt_fields platform v key = do
  guard (is_string_at v (codes "format") evidence_format) invalid_envelope
  guard (is_integer_at v (codes "formatVersion") 1) invalid_envelope
  guard (is_string_at v (codes "algorithm") (codes "aes-256-gcm")) invalid_envelope
  nonce ← required (as_text (lookup v (codes "nonce"))) invalid_envelope
  tag ← required (as_text (lookup v (codes "tag"))) invalid_envelope
  ciphertext ← required (as_text (lookup v (codes "ciphertext"))) invalid_envelope
  let header : EnvelopeHeader = record {
    role = lookup v (codes "role");
    network = lookup v (codes "network");
    contract_address = lookup v (codes "contractAddress");
    key_store = lookup v (codes "keyStore");
    nonce = some (string nonce);
  }
  plaintext ←
      required (platform.unseal key nonce (envelope_header platform header) tag ciphertext)
        not_decrypted
  json ← required (platform.parse_json plaintext) not_json
  evidence ← parse_settlement_evidence platform json
  guard (is_string_at v (codes "role") (role_text evidence.role)) header_mismatch
  guard (is_string_at v (codes "network") evidence.network) header_mismatch
  guard (is_string_at v (codes "contractAddress") evidence.contract_address) header_mismatch
  ok evidence

-- `decryptEvidence`
unfoldable pub decrypt_evidence : Platform → Value → Bytes → Result EvidenceError SettlementEvidence
unfolding lookup envelope_header parse_settlement_evidence
decrypt_evidence platform (object v) key = decrypt_fields platform v key
decrypt_evidence platform _ key = err invalid_envelope
