-- ===== src/Relay/Client.antt =====
-- packages/room-relay/src/index.ts: the messages that the relay sends, and the relay client.
use midnight_private_negotia.Common.{
  ℕ, Bool, true, false, not, ◌&&◌, Option, none, some, List, [], ◌∷◌, ◌++◌, ltb, Text, codes,
  text_eq, is_product_code, Result, ok, err, guard, ◌>>◌, Value, object, Fields, lookup, as_text,
  has_exact_keys, if◌then◌else◌,
}
use midnight_private_negotia.Agent.Types.{PartyRole, role_eq}
use midnight_private_negotia.Relay.Server.{
  RelayRegistration, RelayPacket, ErrorCode, auth_failed, invalid_frame, room_mismatch,
  role_conflict, peer_unavailable, replay_rejected, nonce_reused, ServerMessage, peer_key,
  forwarded, error,
}
use midnight_private_negotia.Relay.Frames.{byte_length, max_frame_bytes, split_frames}
use midnight_private_negotia.Relay.Messages.{
  ParseError, as_role, is_identifier, is_base64, is_integer_at, is_string_at, is_registration,
  parse_relay_packet, packet_value, packet_fields,
}

pub data ServerParseError : Type 0 where
  invalid_peer_key invalid_error unknown_server_message not_a_record : ServerParseError
  invalid_forwarded : ParseError → ServerParseError

abbrev forwarded_result : Result ParseError RelayPacket → Result ServerParseError ServerMessage
forwarded_result (ok p) = ok (forwarded p)
forwarded_result (err e) = err (invalid_forwarded e)

abbrev peer_key_result :
    Option PartyRole
    → Option Text
    → Option Text
    → Option Text
    → Result ServerParseError ServerMessage
peer_key_result (some role) (some session_id) (some product_code) (some public_key) = do
  guard (is_identifier session_id && is_product_code product_code && is_base64 1024 public_key)
      invalid_peer_key
  ok (peer_key session_id product_code role public_key)
peer_key_result _ _ _ _ = err invalid_peer_key

abbrev peer_key_names : List Text
peer_key_names =
    codes "relayProtocolVersion"
    ∷ codes "type"
    ∷ codes "sessionId"
    ∷ codes "productCode"
    ∷ codes "role"
    ∷ codes "publicKey"
    ∷ []

abbrev parse_peer_key : Fields → Result ServerParseError ServerMessage
parse_peer_key v = do
  guard (has_exact_keys v peer_key_names) invalid_peer_key
  guard (is_integer_at (lookup v (codes "relayProtocolVersion")) 1) invalid_peer_key
  peer_key_result (as_role (lookup v (codes "role"))) (as_text (lookup v (codes "sessionId")))
      (as_text (lookup v (codes "productCode"))) (as_text (lookup v (codes "publicKey")))

abbrev pub code_text : ErrorCode → Text
code_text auth_failed = codes "AUTH_FAILED"
code_text invalid_frame = codes "INVALID_FRAME"
code_text room_mismatch = codes "ROOM_MISMATCH"
code_text role_conflict = codes "ROLE_CONFLICT"
code_text peer_unavailable = codes "PEER_UNAVAILABLE"
code_text replay_rejected = codes "REPLAY_REJECTED"
code_text nonce_reused = codes "NONCE_REUSED"

abbrev all_codes : List ErrorCode
all_codes =
    auth_failed ∷ invalid_frame ∷ room_mismatch ∷ role_conflict ∷ peer_unavailable ∷ replay_rejected
    ∷ nonce_reused ∷ []

abbrev code_among : List ErrorCode → Text → Option ErrorCode
code_among [] s = none
code_among (c ∷ rest) s = if text_eq (code_text c) s then some c else code_among rest s

abbrev pub code_of : Option Text → Option ErrorCode
code_of none = none
code_of (some s) = code_among all_codes s

abbrev error_result : Option ErrorCode → Result ServerParseError ServerMessage
error_result none = err invalid_error
error_result (some code) = ok (error code)

abbrev parse_error_message : Fields → Result ServerParseError ServerMessage
parse_error_message v = do
  guard (has_exact_keys v (codes "relayProtocolVersion" ∷ codes "type" ∷ codes "code" ∷ []))
      invalid_error
  guard (is_integer_at (lookup v (codes "relayProtocolVersion")) 1) invalid_error
  error_result (code_of (as_text (lookup v (codes "code"))))

-- `parseRelayServerMessage`
unfoldable pub parse_relay_server_message :
    (Text → ℕ) → Value → Result ServerParseError ServerMessage
unfolding parse_relay_packet lookup has_exact_keys
parse_relay_server_message decoded (object v) =
    if is_string_at (lookup v (codes "type")) (codes "PACKET")
    then forwarded_result (parse_relay_packet decoded v)
    else if is_string_at (lookup v (codes "type")) (codes "PEER_KEY")
    then parse_peer_key v
    else if is_string_at (lookup v (codes "type")) (codes "ERROR")
    then parse_error_message v
    else err unknown_server_message
parse_relay_server_message decoded _ = err not_a_record

-- The state of a `RoomRelayClient`.
pub record RoomRelayClient : Type 0 where
  pub role : PartyRole
  pub auth_token : Text
  pub buffer : Text
  pub registration : Option RelayRegistration
  pub connected : Bool

pub data ClientError : Type 0 where
  already_connected invalid_client_registration foreign_packet not_connected malformed_packet :
      ClientError

-- What the client tells its owner.
pub data ClientEvent : Type 0 where
  peer_key_received packet_received : ServerMessage → ClientEvent
  relay_rejected : ErrorCode → ClientEvent
  frame_too_long invalid_message : ClientEvent

abbrev pub registration_of : Text → Text → Text → RoomRelayClient → RelayRegistration
registration_of session_id product_code public_key client = record {
  role = client.role;
  auth_token = client.auth_token;
  session_id = session_id;
  product_code = product_code;
  public_key = public_key;
}

-- `register`: what is sent is the registration.
unfoldable pub register_client :
    Text → Text → Text → RoomRelayClient → Result ClientError RoomRelayClient
register_client session_id product_code public_key client = do
  guard (not client.connected) already_connected
  let r = registration_of session_id product_code public_key client
  guard (is_registration r) invalid_client_registration
  ok (record client { registration = some r; connected = true })

abbrev pub is_own : PartyRole → Option RelayRegistration → RelayPacket → Bool
is_own role none p = false
is_own role (some r) p =
    role_eq p.sender role
    && text_eq p.session_id r.session_id
    && text_eq p.product_code r.product_code

abbrev pub written : Result ParseError RelayPacket → Result ClientError Value
written (ok q) = ok (packet_value q)
written (err e) = err malformed_packet

-- `sendPacket`: the object that is written.
unfoldable pub send_packet : (Text → ℕ) → RoomRelayClient → RelayPacket → Result ClientError Value
unfolding parse_relay_packet packet_value
send_packet decoded client p = do
  guard (is_own client.role client.registration p) foreign_packet
  guard client.connected not_connected
  written (parse_relay_packet decoded (packet_fields p))

-- `close`
abbrev pub closed_client : RoomRelayClient → RoomRelayClient
closed_client client = record client { buffer = []; registration = none; connected = false }

abbrev message_event : Result ServerParseError ServerMessage → ClientEvent
message_event (ok (error code)) = relay_rejected code
message_event (ok (peer_key session_id product_code role key)) =
    peer_key_received (peer_key session_id product_code role key)
message_event (ok (forwarded p)) = packet_received (forwarded p)
message_event (err e) = invalid_message

abbrev frame_event : (Text → ℕ) → Option Value → ClientEvent
frame_event decoded none = invalid_message
frame_event decoded (some v) = message_event (parse_relay_server_message decoded v)

-- An empty frame is skipped.
unfoldable pub frame_events : (Text → Option Value) → (Text → ℕ) → List Text → List ClientEvent
unfolding parse_relay_server_message
frame_events parse_json decoded [] = []
frame_events parse_json decoded ([] ∷ frames) = frame_events parse_json decoded frames
frame_events parse_json decoded ((c ∷ f) ∷ frames) =
    frame_event decoded (parse_json (c ∷ f)) ∷ frame_events parse_json decoded frames

-- `#acceptChunk`: the client, and what it tells its owner in order, where no handler of the owner
-- closes the client.
unfoldable pub accept_chunk :
    (Text → Option Value) → (Text → ℕ) → Text → RoomRelayClient → RoomRelayClient × List ClientEvent
unfolding frame_events split_frames byte_length
accept_chunk parse_json decoded chunk client =
    let buffer = client.buffer ++ chunk in
    let (frames, rest) = split_frames buffer in
    if ltb max_frame_bytes (byte_length buffer)
    then (closed_client client, frame_too_long ∷ [])
    else (record client { buffer = rest }, frame_events parse_json decoded frames)
