-- ===== src/Relay/Payload.antt =====
-- packages/room-relay/src/index.ts: the encryption of a packet's payload between the two parties.
-- AES-GCM, JSON and randomness are the parameters of Cipher.
use midnight_private_negotia.Common.{
  ℕ, ◌≡◌, sym, ap, ◌∙◌, true, Option, none, some, List, ◌==◌, length, Text, Result, ok, err, guard,
  ◌>>=◌, ◌>>◌, Value, string, integer, array, no_items, item, guard-eq-ok, ok-injective, Bool-cases,
  inl, inr, if◌then◌else◌, subst,
}
use midnight_private_negotia.Agent.Types.{PartyRole}
use midnight_private_negotia.Relay.Server.{RelayPacket}
use midnight_private_negotia.Relay.Messages.{
  ParseError, parse_relay_packet, packet_fields, role_text, is_packet, invalid_packet,
  parse_relay_packet-packet_fields,
}

pub record Cipher : Type 0 where
  pub seal : List ℕ → Text → Text → Text → Text × Text
  pub unseal : List ℕ → Text → Text → Text → Text → Option Text
  pub print_json : Value → Text
  pub parse_json : Text → Option Value
  pub decoded : Text → ℕ

-- What is sealed opens under the same key, nonce and associated data.
pub record IsCipher (cipher : Cipher) : Type 0 where
  pub opens :
      (key : List ℕ) (nonce data_text plaintext : Text)
      → cipher.unseal key nonce data_text
          (cipher.seal key nonce data_text plaintext).1
          (cipher.seal key nonce data_text plaintext).0
        ≡ some plaintext

pub data PayloadError : Type 0 where
  wrong_key_length not_authentic not_json : PayloadError
  malformed : ParseError → PayloadError

-- `RelayMetadata`
pub record RelayMetadata : Type 0 where
  pub session_id : Text
  pub product_code : Text
  pub sender : PartyRole
  pub target : PartyRole
  pub sequence : ℕ

abbrev pub metadata_of : RelayPacket → RelayMetadata
metadata_of p = record {
  session_id = p.session_id;
  product_code = p.product_code;
  sender = p.sender;
  target = p.target;
  sequence = p.sequence;
}

-- `relayAssociatedData`
unfoldable pub relay_associated_data : Cipher → RelayMetadata → Text
relay_associated_data cipher m = cipher.print_json (
    array (
      item (integer 1) (
        item (string m.session_id) (
          item (string m.product_code) (
            item (string (role_text m.sender))
              (item (string (role_text m.target)) (item (integer m.sequence) no_items)))))))

abbrev pub payload_result : {A : Type 0} → Result ParseError A → Result PayloadError A
payload_result (ok a) = ok a
payload_result (err e) = err (malformed e)

abbrev pub parsed_packet : Cipher → RelayPacket → Result PayloadError RelayPacket
parsed_packet cipher p = payload_result (parse_relay_packet cipher.decoded (packet_fields p))

abbrev pub packet_for : RelayMetadata → Text → Text × Text → RelayPacket
packet_for m nonce (ciphertext, auth_tag) = record {
  session_id = m.session_id;
  product_code = m.product_code;
  sender = m.sender;
  target = m.target;
  sequence = m.sequence;
  nonce = nonce;
  ciphertext = ciphertext;
  auth_tag = auth_tag;
}

abbrev pub made_packet : Cipher → List ℕ → Text → RelayMetadata → Value → RelayPacket
made_packet cipher shared_key nonce m payload =
    packet_for m nonce
      (cipher.seal shared_key nonce (relay_associated_data cipher m) (cipher.print_json payload))

-- `encryptRelayPayload`, with the nonce that it draws.
unfoldable pub encrypt_relay_payload :
    Cipher → List ℕ → Text → RelayMetadata → Value → Result PayloadError RelayPacket
unfolding parse_relay_packet packet_fields relay_associated_data
encrypt_relay_payload cipher shared_key nonce m payload = do
  guard (length shared_key == 32) wrong_key_length
  parsed_packet cipher (made_packet cipher shared_key nonce m payload)

abbrev pub opened_text : Option Text → Result PayloadError Text
opened_text none = err not_authentic
opened_text (some text) = ok text

abbrev pub parsed_text : Option Value → Result PayloadError Value
parsed_text none = err not_json
parsed_text (some v) = ok v

-- `decryptRelayPayload`
unfoldable pub decrypt_relay_payload : Cipher → List ℕ → RelayPacket → Result PayloadError Value
unfolding parse_relay_packet packet_fields
decrypt_relay_payload cipher shared_key input = do
  guard (length shared_key == 32) wrong_key_length
  p ← parsed_packet cipher input
  plaintext ← opened_text (
      cipher.unseal shared_key p.nonce (relay_associated_data cipher (metadata_of p)) p.auth_tag
        p.ciphertext)
  parsed_text (cipher.parse_json plaintext)

parsed_packet-ok :
    (cipher : Cipher) (p q : RelayPacket)
    → parsed_packet cipher p ≡ ok q
    → (p ≡ q) × (parsed_packet cipher p ≡ ok p)
parsed_packet-ok cipher p q h = elim (Bool-cases (is_packet cipher.decoded p)) [
  | inl valid ↦
      let accepted =
        parsed ∙ ap (λ b. payload_result (if b then ok p else err invalid_packet)) valid in
      (ok-injective (sym accepted ∙ h), accepted)
  | inr invalid ↦ absurd (
      refused (
        sym (parsed ∙ ap (λ b. payload_result (if b then ok p else err invalid_packet)) invalid)
        ∙ h))
]
  where
    parsed :
        parsed_packet cipher p
        ≡ payload_result (if is_packet cipher.decoded p then ok p else err invalid_packet)
    parsed = ap payload_result (parse_relay_packet-packet_fields cipher.decoded p)

    refused : ¬ (◌≡◌ {A = Result PayloadError RelayPacket} (err (malformed invalid_packet)) (ok q))
    refused h = cc

-- Decryption of a packet as it was made.
decrypt-made :
    (cipher : Cipher) (shared_key : List ℕ) (nonce : Text) (m : RelayMetadata) (payload : Value)
    → IsCipher cipher
    → cipher.parse_json (cipher.print_json payload) ≡ some payload
    → (length shared_key == 32) ≡ true
    → parsed_packet cipher (made_packet cipher shared_key nonce m payload)
      ≡ ok (made_packet cipher shared_key nonce m payload)
    → decrypt_relay_payload cipher shared_key (made_packet cipher shared_key nonce m payload)
      ≡ ok payload
unfolding decrypt_relay_payload
decrypt-made cipher shared_key nonce m payload laws parses sized parsed = rw (
  sized,
  parsed,
  laws.opens shared_key nonce (relay_associated_data cipher m) (cipher.print_json payload),
  parses,
)

-- Decryption returns the payload that was encrypted: with a cipher that opens what it seals, and a
-- payload that is parsed back from its JSON, a packet that encryption makes decrypts under the same
-- key to the payload.
pub payload_roundtrip :
    (cipher : Cipher) (shared_key : List ℕ) (nonce : Text) (m : RelayMetadata) (payload : Value)
    (p : RelayPacket)
    → IsCipher cipher
    → cipher.parse_json (cipher.print_json payload) ≡ some payload
    → encrypt_relay_payload cipher shared_key nonce m payload ≡ ok p
    → decrypt_relay_payload cipher shared_key p ≡ ok payload
unfolding encrypt_relay_payload
payload_roundtrip cipher shared_key nonce m payload p laws parses h =
    let (sized, made) = guard-eq-ok (length shared_key == 32) wrong_key_length _ h in
    let (same, parsed) =
      parsed_packet-ok cipher (made_packet cipher shared_key nonce m payload) p made in
    subst (λ q. decrypt_relay_payload cipher shared_key q ≡ ok payload) same
      (decrypt-made cipher shared_key nonce m payload laws parses sized parsed)
