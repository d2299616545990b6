-- ===== src/Relay/Tests.antt =====
-- A room of packages/room-relay/src/server.ts with a buyer on socket 1 and a seller on socket 2, and
-- the theorems there.
use midnight_private_negotia.Common.{
  ◌↔◌, ℕ, ◌≡◌, refl, true, none, some, List, [], ◌∷◌, arith, Text, codes, inr, ok, length, ◌*◌, ◌/◌,
  if◌then◌else◌, ◌==◌, null, false,
}
use midnight_private_negotia.Agent.Types.{PartyRole, buyer, seller}
use midnight_private_negotia.Relay.Server.{
  RelayRegistration, RelayPacket, ErrorCode, error, Socket, ClientState, Server, send, admit,
  register, route_packet, connect, empty_server, is_own_packet,
}
use midnight_private_negotia.Relay.Frames.{packet, FrameParser, split_frames}
use midnight_private_negotia.Relay.Messages.{
  IsSendable, parse_relay_client_message, packet_value, packet_roundtrip, is_base64_rest,
}
use midnight_private_negotia.Relay.Payload.{
  Cipher, IsCipher, metadata_of, encrypt_relay_payload, decrypt_relay_payload, payload_roundtrip,
}
use midnight_private_negotia.Relay.Client.{RoomRelayClient, register_client, send_packet}
use midnight_private_negotia.Relay.Sending.{sent_packet_accepted}
use midnight_private_negotia.Relay.Delivery.{Deliverable}
use midnight_private_negotia.Relay.Routing.{IsDelivery, Forwards, route_packet_iff}
use midnight_private_negotia.Relay.Replay.{
  Event, connects, receives, run, stays_open, replays_refused,
}

abbrev tokens : PartyRole → Text
tokens role = codes "token"

abbrev registration : PartyRole → RelayRegistration
registration role = record {
  role = role;
  auth_token = codes "token";
  session_id = codes "s1";
  product_code = codes "4821";
  public_key = codes "key";
}

abbrev room : Server
room =
    register tokens 2 (registration seller)
      (connect 2 (register tokens 1 (registration buyer) (connect 1 empty_server)))

abbrev buyer_client : ClientState
buyer_client = record { registration = registration buyer; last_sequence = 0; seen_nonces = [] }

abbrev packet_at : ℕ → RelayPacket
packet_at sequence = record {
  session_id = codes "s1";
  product_code = codes "4821";
  sender = buyer;
  target = seller;
  sequence = sequence;
  nonce = codes "bm9uY2Vub25jZTE=";
  ciphertext = codes "AAAA";
  auth_tag = codes "dGFndGFndGFndGFndGFnMQ==";
}

room_joined : (room.clients 1 ≡ some buyer_client) × Deliverable room (packet_at 3) buyer_client 2
unfolding register admit connect empty_server
room_joined = (refl, record { own = refl; newer = omega arith; unused = refl; placed = refl })

open_socket : room.destroyed 2 ≡ false
unfolding register admit connect empty_server
open_socket = refl

abbrev parse_none : FrameParser
parse_none frame = none

abbrev noise : List (Socket × Event)
noise = (3, connects) ∷ (1, receives (codes "x")) ∷ []

noise_keeps_open : stays_open 1 noise ≡ true
unfolding stays_open
noise_keeps_open = refl

replays_refused_example :
    (code : ErrorCode) × (route_packet 1
        (packet_at 3)
        (run tokens parse_none noise (route_packet 1 (packet_at 3) room))
      ≡ send 1 (error code) (run tokens parse_none noise (route_packet 1 (packet_at 3) room)))
replays_refused_example =
    replays_refused tokens parse_none 1 2 (packet_at 3) (packet_at 3) buyer_client room noise
      room_joined.0 room_joined.1 noise_keeps_open (inr refl)

route_packet_iff_example :
    Forwards room 1 (packet_at 3) buyer_client 2 (route_packet 1 (packet_at 3) room)
    ↔ IsDelivery room (packet_at 3) buyer_client 2
route_packet_iff_example =
    route_packet_iff room 1 (packet_at 3) buyer_client 2 room_joined.0 open_socket

abbrev whole : Text
whole = 97 ∷ 10 ∷ 98 ∷ 10 ∷ 99 ∷ []

frames_run : split_frames (97 ∷ 10 ∷ 98 ∷ []) ≡ ((97 ∷ []) ∷ [], 98 ∷ [])
unfolding split_frames
frames_run = refl

-- The length of these base64 texts decoded.
abbrev decoded_length : Text → ℕ
decoded_length s = length s * 3 / 4

packet_roundtrip_example :
    (parse_relay_client_message decoded_length (packet_value (packet_at 3))
      ≡ ok (packet (packet_at 3)))
    ↔ IsSendable decoded_length (packet_at 3)
packet_roundtrip_example = packet_roundtrip decoded_length (packet_at 3)

abbrev plain_cipher : Cipher
plain_cipher = record {
  seal = λ key nonce associated plaintext. (plaintext, codes "dGFndGFndGFndGFndGFnMQ==");
  unseal = λ key nonce associated tag ciphertext. some ciphertext;
  print_json = λ v. codes "AAAA";
  parse_json = λ s. some null;
  decoded = λ s. if length s == 16 then 12 else 16;
}

plain_cipher-IsCipher : IsCipher plain_cipher
plain_cipher-IsCipher = record { opens = λ key nonce associated plaintext. refl }

abbrev shared_key : List ℕ
shared_key =
    1 ∷ 2 ∷ 3 ∷ 4 ∷ 5 ∷ 6 ∷ 7 ∷ 8 ∷ 9 ∷ 10 ∷ 11 ∷ 12 ∷ 13 ∷ 14 ∷ 15 ∷ 16 ∷ 17 ∷ 18 ∷ 19 ∷ 20 ∷ 21
    ∷ 22 ∷ 23 ∷ 24 ∷ 25 ∷ 26 ∷ 27 ∷ 28 ∷ 29 ∷ 30 ∷ 31 ∷ 32 ∷ []

payload_encrypted :
    encrypt_relay_payload plain_cipher shared_key
      (packet_at 3).nonce
      (metadata_of (packet_at 3))
      null
    ≡ ok (packet_at 3)
unfolding encrypt_relay_payload
payload_encrypted = refl

payload_roundtrip_example : decrypt_relay_payload plain_cipher shared_key (packet_at 3) ≡ ok null
payload_roundtrip_example =
    payload_roundtrip plain_cipher shared_key (packet_at 3).nonce (metadata_of (packet_at 3)) null
      (packet_at 3) plain_cipher-IsCipher refl payload_encrypted

abbrev new_client : RoomRelayClient
new_client = record {
  role = buyer;
  auth_token = codes "0123456789abcdef0123456789abcdef0123456789abcdef0123456789abcdef";
  buffer = [];
  registration = none;
  connected = false;
}

abbrev client_registration : RelayRegistration
client_registration = record {
  role = buyer;
  auth_token = new_client.auth_token;
  session_id = codes "s1";
  product_code = codes "4821";
  public_key = codes "AAAA";
}

abbrev registered_client : RoomRelayClient
registered_client = record new_client { registration = some client_registration; connected = true }

client_runs :
    (register_client (codes "s1") (codes "4821") (codes "AAAA") new_client ≡ ok registered_client)
    × (send_packet plain_cipher.decoded registered_client (packet_at 3)
        ≡ ok (packet_value (packet_at 3)))
unfolding register_client send_packet is_base64_rest
client_runs = (refl, refl)

abbrev held_client : ClientState
held_client = record { registration = client_registration; last_sequence = 0; seen_nonces = [] }

sent_packet_accepted_example :
    (parse_relay_client_message plain_cipher.decoded (packet_value (packet_at 3))
      ≡ ok (packet (packet_at 3)))
    × (is_own_packet held_client (packet_at 3) ≡ true)
sent_packet_accepted_example =
    sent_packet_accepted plain_cipher.decoded (codes "s1") (codes "4821") (codes "AAAA") new_client
      registered_client held_client (packet_at 3) (packet_value (packet_at 3)) client_runs.0 refl
      client_runs.1
