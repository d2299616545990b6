-- ===== src/Relay/Messages.antt =====
-- packages/room-relay/src/index.ts: the messages that the relay's clients send, parsed from JSON.
-- `JSON.parse` and the length of decoded base64 are parameters.
use midnight_private_negotia.Common.{
  ℕ, ◌≡◌, refl, Bool, true, false, not, ◌&&◌, ◌||◌, Option, none, some, List, [], ◌∷◌, leb, ◌==◌,
  length, all, Text, codes, text_eq, is_digit, is_product_code, is_identifier_up_to, Result, ok,
  err, guard, ◌>>=◌, ◌>>◌, if◌then◌else◌, Value, string, integer, object, Fields, no_fields, field,
  lookup, keys, as_text, as_integer, has_exact_keys, Bool-cases, inl, inr, ◌≤◌, ◌↔◌, le→leb, arith,
}
use midnight_private_negotia.Agent.Types.{PartyRole, buyer, seller, role_eq}
use midnight_private_negotia.Relay.Server.{RelayRegistration, RelayPacket, peer_of}
use midnight_private_negotia.Relay.Frames.{RelayClientMessage, registers, packet, FrameParser}

pub data ParseError : Type 0 where
  invalid_registration invalid_packet invalid_client_message unknown_client_message : ParseError

abbrev pub required : {A : Type 0} → Option A → ParseError → Result ParseError A
required none e = err e
required (some a) e = ok a

-- `isPartyRole`
abbrev pub as_role : Option Value → Option PartyRole
as_role (some (string s)) =
    if text_eq s (codes "buyer")
    then some buyer
    else if text_eq s (codes "seller")
    then some seller
    else none
as_role _ = none

-- `isIdentifier`
abbrev pub is_identifier : Text → Bool
is_identifier s = is_identifier_up_to 64 s

abbrev is_base64_char : ℕ → Bool
is_base64_char c =
    is_digit c || (leb b'A' c && leb c b'Z') || (leb b'a' c && leb c b'z') || c == b'+' || c == b'/'

abbrev is_padding : Text → Bool
is_padding [] = true
is_padding (c ∷ []) = c == b'='
is_padding (c ∷ d ∷ []) = c == b'=' && d == b'='
is_padding _ = false

-- What may follow the first character of `/^[A-Za-z0-9+/]+={0,2}$/`.
unfoldable pub is_base64_rest : Text → Bool
is_base64_rest [] = true
is_base64_rest (c ∷ s) =
    let rest = is_base64_rest s in if is_base64_char c then rest else is_padding (c ∷ s)

abbrev is_base64_text : Text → Bool
is_base64_text [] = false
is_base64_text (c ∷ s) = is_base64_char c && is_base64_rest s

-- `isBase64`
abbrev pub is_base64 : ℕ → Text → Bool
is_base64 max_length s = is_base64_text s && leb (length s) max_length

abbrev is_lower_hex : ℕ → Bool
is_lower_hex c = is_digit c || (leb b'a' c && leb c b'f')

-- `isAuthToken`
abbrev pub is_auth_token : Text → Bool
is_auth_token s = all is_lower_hex s && length s == 64

-- `isSequence`, of a safe integer
abbrev pub is_sequence : ℕ → Bool
is_sequence n = leb 1 n

abbrev pub is_integer_at : Option Value → ℕ → Bool
is_integer_at (some (integer m)) n = m == n
is_integer_at _ n = false

abbrev pub is_string_at : Option Value → Text → Bool
is_string_at (some (string s)) t = text_eq s t
is_string_at _ t = false

abbrev registration_keys : List Text
registration_keys =
    codes "relayProtocolVersion"
    ∷ codes "type"
    ∷ codes "role"
    ∷ codes "authToken"
    ∷ codes "sessionId"
    ∷ codes "productCode"
    ∷ codes "publicKey"
    ∷ []

-- The conditions of a registration's fields.
abbrev pub is_registration : RelayRegistration → Bool
is_registration r =
    is_auth_token r.auth_token
    && is_identifier r.session_id
    && is_product_code r.product_code
    && is_base64 1024 r.public_key

-- `parseRelayRegistration`, of a record
unfoldable pub parse_relay_registration : Fields → Result ParseError RelayRegistration
unfolding lookup has_exact_keys keys is_base64_rest
parse_relay_registration v = do
  guard (has_exact_keys v registration_keys) invalid_registration
  guard (is_integer_at (lookup v (codes "relayProtocolVersion")) 1) invalid_registration
  guard (is_string_at (lookup v (codes "type")) (codes "REGISTER")) invalid_registration
  role ← required (as_role (lookup v (codes "role"))) invalid_registration
  auth_token ← required (as_text (lookup v (codes "authToken"))) invalid_registration
  session_id ← required (as_text (lookup v (codes "sessionId"))) invalid_registration
  product_code ← required (as_text (lookup v (codes "productCode"))) invalid_registration
  public_key ← required (as_text (lookup v (codes "publicKey"))) invalid_registration
  let r : RelayRegistration = record {
    role = role;
    auth_token = auth_token;
    session_id = session_id;
    product_code = product_code;
    public_key = public_key;
  }
  guard (is_registration r) invalid_registration
  ok r

abbrev packet_keys : List Text
packet_keys =
    codes "relayProtocolVersion"
    ∷ codes "type"
    ∷ codes "sessionId"
    ∷ codes "productCode"
    ∷ codes "sender"
    ∷ codes "target"
    ∷ codes "sequence"
    ∷ codes "nonce"
    ∷ codes "ciphertext"
    ∷ codes "authTag"
    ∷ []

-- The conditions of a packet's fields; `decoded` is the length of decoded base64.
abbrev pub is_packet : (Text → ℕ) → RelayPacket → Bool
is_packet decoded p =
    is_identifier p.session_id
    && is_product_code p.product_code
    && not (role_eq p.sender p.target)
    && is_sequence p.sequence
    && is_base64 128 p.nonce
    && decoded p.nonce == 12
    && is_base64 16_384 p.ciphertext
    && is_base64 128 p.auth_tag
    && decoded p.auth_tag == 16

-- `parseRelayPacket`, of a record
unfoldable pub parse_relay_packet : (Text → ℕ) → Fields → Result ParseError RelayPacket
unfolding lookup has_exact_keys keys is_base64_rest
parse_relay_packet decoded v = do
  guard (has_exact_keys v packet_keys) invalid_packet
  guard (is_integer_at (lookup v (codes "relayProtocolVersion")) 1) invalid_packet
  guard (is_string_at (lookup v (codes "type")) (codes "PACKET")) invalid_packet
  session_id ← required (as_text (lookup v (codes "sessionId"))) invalid_packet
  product_code ← required (as_text (lookup v (codes "productCode"))) invalid_packet
  sender ← required (as_role (lookup v (codes "sender"))) invalid_packet
  target ← required (as_role (lookup v (codes "target"))) invalid_packet
  sequence ← required (as_integer (lookup v (codes "sequence"))) invalid_packet
  nonce ← required (as_text (lookup v (codes "nonce"))) invalid_packet
  ciphertext ← required (as_text (lookup v (codes "ciphertext"))) invalid_packet
  auth_tag ← required (as_text (lookup v (codes "authTag"))) invalid_packet
  let p : RelayPacket = record {
    session_id = session_id;
    product_code = product_code;
    sender = sender;
    target = target;
    sequence = sequence;
    nonce = nonce;
    ciphertext = ciphertext;
    auth_tag = auth_tag;
  }
  guard (is_packet decoded p) invalid_packet
  ok p

abbrev parse_fields : (Text → ℕ) → Fields → Result ParseError RelayClientMessage
parse_fields decoded v =
    if is_string_at (lookup v (codes "type")) (codes "REGISTER")
    then (do r ← parse_relay_registration v; ok (registers r))
    else if is_string_at (lookup v (codes "type")) (codes "PACKET")
    then (do p ← parse_relay_packet decoded v; ok (packet p))
    else err unknown_client_message

-- `parseRelayClientMessage`
unfoldable pub parse_relay_client_message :
    (Text → ℕ) → Value → Result ParseError RelayClientMessage
unfolding parse_relay_registration parse_relay_packet lookup
parse_relay_client_message decoded (object v) = parse_fields decoded v
parse_relay_client_message decoded _ = err invalid_client_message

-- `parseRelayClientMessage(JSON.parse(frame))`
abbrev pub parse_frame : (Text → Option Value) → (Text → ℕ) → FrameParser
parse_frame parse_json decoded frame = elim (parse_json frame) [
  | none ↦ none
  | some v ↦ elim (parse_relay_client_message decoded v) [ err e ↦ none | ok m ↦ some m ]
]

abbrev pub role_text : PartyRole → Text
role_text buyer = codes "buyer"
role_text seller = codes "seller"

-- The object that a packet is.
unfoldable pub packet_fields : RelayPacket → Fields
packet_fields p = field (codes "relayProtocolVersion") (integer 1) (
    field (codes "type") (string (codes "PACKET")) (
      field (codes "sessionId") (string p.session_id) (
        field (codes "productCode") (string p.product_code) (
          field (codes "sender") (string (role_text p.sender)) (
            field (codes "target") (string (role_text p.target)) (
              field (codes "sequence") (integer p.sequence) (
                field (codes "nonce") (string p.nonce) (
                  field (codes "ciphertext") (string p.ciphertext)
                    (field (codes "authTag") (string p.auth_tag) no_fields)))))))))

unfoldable pub packet_value : RelayPacket → Value
unfolding packet_fields
packet_value p = object (packet_fields p)

pub read_back : (role : PartyRole) → as_role (some (string (role_text role))) ≡ some role
read_back buyer = refl
read_back seller = refl

pub parse_relay_packet-packet_fields :
    (decoded : Text → ℕ) (p : RelayPacket)
    → parse_relay_packet decoded (packet_fields p)
      ≡ (if is_packet decoded p then ok p else err invalid_packet)
unfolding parse_relay_packet packet_fields
parse_relay_packet-packet_fields decoded p =
    rw (read_back p.sender, read_back p.target)
      (elim (Bool-cases (is_packet decoded p)) [ inl valid ↦ rw valid | inr invalid ↦ rw invalid ])

-- A packet whose fields have the forms and the lengths that the protocol allows: between different
-- roles, with a positive number, a nonce of 12 bytes and a tag of 16, in base64.
pub record IsSendable (decoded : Text → ℕ) (p : RelayPacket) : Type 0 where
  pub session : (is_identifier p.session_id ≡ true) × (length p.session_id ≤ 64)
  pub product : length p.product_code ≡ 4
  pub digits : all is_digit p.product_code ≡ true
  pub between : p.target ≡ peer_of p.sender
  pub numbered : 1 ≤ p.sequence
  pub nonce_form : (is_base64_text p.nonce ≡ true) × (length p.nonce ≤ 128)
  pub nonce_bytes : decoded p.nonce ≡ 12
  pub ciphertext_form : (is_base64_text p.ciphertext ≡ true) × (length p.ciphertext ≤ 16_384)
  pub tag_form : (is_base64_text p.auth_tag ≡ true) × (length p.auth_tag ≤ 128)
  pub tag_bytes : decoded p.auth_tag ≡ 16

different_roles :
    (sender target : PartyRole) → (not (role_eq sender target) ≡ true) ↔ (target ≡ peer_of sender)
different_roles buyer buyer = (λ h. cc, λ h. cc)
different_roles buyer seller = (λ h. refl, λ h. refl)
different_roles seller buyer = (λ h. refl, λ h. refl)
different_roles seller seller = (λ h. cc, λ h. cc)

is_packet→IsSendable :
    (decoded : Text → ℕ) (p : RelayPacket) → is_packet decoded p ≡ true → IsSendable decoded p
is_packet→IsSendable decoded p h = record {
  session = (ground arith, ground arith);
  product = ground arith;
  digits = ground arith;
  between = (different_roles p.sender p.target).0 (ground arith);
  numbered = ground arith;
  nonce_form = (ground arith, ground arith);
  nonce_bytes = ground arith;
  ciphertext_form = (ground arith, ground arith);
  tag_form = (ground arith, ground arith);
  tag_bytes = ground arith;
}

IsSendable→is_packet :
    (decoded : Text → ℕ) (p : RelayPacket) → IsSendable decoded p → is_packet decoded p ≡ true
IsSendable→is_packet decoded p v =
    let apart = (different_roles p.sender p.target).1 v.between in
    let (named, _) = v.session in
    let (nonce_text, nonce_length) = v.nonce_form in
    let (cipher_text, cipher_length) = v.ciphertext_form in
    let (tag_text, tag_length) = v.tag_form in
    rw
      (
        named,
        v.digits,
        v.product,
        apart,
        le→leb 1 _ v.numbered,
        nonce_text,
        le→leb _ 128 nonce_length,
        v.nonce_bytes,
        cipher_text,
        le→leb _ 16_384 cipher_length,
        tag_text,
        le→leb _ 128 tag_length,
        v.tag_bytes,
      )
      refl

pub parsed_packet :
    (decoded : Text → ℕ) (p : RelayPacket)
    → parse_relay_client_message decoded (packet_value p)
      ≡ (if is_packet decoded p then ok (packet p) else err invalid_packet)
unfolding parse_relay_client_message packet_value
parsed_packet decoded p =
    rw (read_back p.sender, read_back p.target)
      (elim (Bool-cases (is_packet decoded p)) [ inl valid ↦ rw valid | inr invalid ↦ rw invalid ])

-- The object that a client sends for a packet is parsed to that very packet exactly when the packet
-- is between different roles, has a positive number, and its texts have their forms and lengths.
pub packet_roundtrip :
    (decoded : Text → ℕ) (p : RelayPacket)
    → (parse_relay_client_message decoded (packet_value p) ≡ ok (packet p)) ↔ IsSendable decoded p
packet_roundtrip decoded p = elim (Bool-cases (is_packet decoded p)) [
  | inl valid ↦
      (λ h. is_packet→IsSendable decoded p valid, λ v. rw (parsed_packet decoded p, valid) refl)
  | inr invalid ↦ (
    λ h. absurd (refused (rw (parsed_packet decoded p, invalid) at h)),
    λ v. absurd (not_both (IsSendable→is_packet decoded p v) invalid),
  )
]
  where
    refused :
        {m : RelayClientMessage}
        → ◌≡◌ {A = Result ParseError RelayClientMessage} (err invalid_packet) (ok m)
        → ⊥
    refused h = cc

    not_both : {b : Bool} → b ≡ true → b ≡ false → ⊥
    not_both h k = cc
