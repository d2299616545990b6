-- ===== src/Runtime/Channel.antt =====
-- packages/buyer-runtime/src/index.ts and packages/seller-runtime/src/index.ts: what both processes
-- do alike, with their role as a parameter: events to the controller, and the encrypted channel to
-- the peer over the relay.
use midnight_private_negotia.Common.{
  ℕ, suc, ◌+◌, Bool, false, ◌&&◌, Option, none, some, List, [], ◌∷◌, ◌++◌, ltb, Text, codes,
  text_eq, Result, ok, err, Value, if◌then◌else◌,
}
use midnight_private_negotia.Agent.Types.{PartyRole, role_eq}
use midnight_private_negotia.Agent.Offset.{Hkdf}
use midnight_private_negotia.Contract.Circuits.{Bytes}
use midnight_private_negotia.Relay.Server.{RelayPacket, peer_of}
use midnight_private_negotia.Relay.Payload.{
  Cipher, RelayMetadata, PayloadError, encrypt_relay_payload, decrypt_relay_payload,
}
use midnight_private_negotia.Relay.Client.{
  RoomRelayClient, ClientError, register_client, send_packet, closed_client,
}
use midnight_private_negotia.Protocol.Types.{
  party, DemoState, error_state, role_local, DemoEvent, RuntimeMessage, demo_event,
  relay_channel_ready,
}
use midnight_private_negotia.Protocol.Events.{EventError, create_demo_event, is_room_joined}
use midnight_private_negotia.Runtime.Action.{
  RuntimeError, not_configured, no_channel, wrong_room, replayed, invalid_payload, relay_failed,
  invalid_event, Action, ◌>>=◌, ◌>>◌, done, lifted, modify, get, required, ensure,
}
use midnight_private_negotia.Runtime.Payload.{NegotiationPayload, payload_value}

-- What the processes call: Node's crypto and JSON, their configuration, and random draws by number.
pub record Environment : Type 0 where
  pub chain_mode : Bool
  pub reference_price : Text
  pub relay_token : Option Text
  pub cipher : Cipher
  pub is_date : Text → Bool
  pub event_id : ℕ → Text
  pub now : ℕ → Text
  pub nonce : ℕ → Text
  pub random_bytes : ℕ → Bytes
  pub key_pair : ℕ → Text × Text
  pub deal_hash : ℕ → Text → Bytes
  pub public_key_hex : Bytes → Text
  pub derive_key : Text → Text → Text → Option (List ℕ)
  pub hkdf : Hkdf
  pub fuel : ℕ

-- The variables of a process that its room and its messages use. What it sends to the controller and
-- writes to the relay is kept, newest first.
pub record Channel : Type 0 where
  pub session_id : Option Text
  pub product_code : Option Text
  pub private_key : Option Text
  pub shared_key : Option (List ℕ)
  pub relay_client : Option RoomRelayClient
  pub sent_sequence : ℕ
  pub received_sequence : ℕ
  pub draws : ℕ
  pub outbox : List RuntimeMessage
  pub written : List RelayPacket

unfoldable pub new_channel : Channel
new_channel = record {
  session_id = none;
  product_code = none;
  private_key = none;
  shared_key = none;
  relay_client = none;
  sent_sequence = 0;
  received_sequence = 0;
  draws = 0;
  outbox = [];
  written = [];
}

-- `send`
unfoldable pub post : RuntimeMessage → Action Channel (Unit {0})
post message = modify (λ c. record c { outbox = message ∷ c.outbox })

unfoldable pub draw : Action Channel ℕ
draw c = (ok c.draws, record c { draws = suc c.draws })

abbrev pub same_text : Option Text → Text → Bool
same_text none t = false
same_text (some s) t = text_eq s t

abbrev pub event_of : Result EventError DemoEvent → Result RuntimeError DemoEvent
event_of (ok e) = ok e
event_of (err e) = err invalid_event

abbrev pub packet_of : Result PayloadError RelayPacket → Result RuntimeError RelayPacket
packet_of (ok p) = ok p
packet_of (err e) = err relay_failed

abbrev pub value_of : Result PayloadError Value → Result RuntimeError Value
value_of (ok v) = ok v
value_of (err e) = err invalid_payload

abbrev pub sent_of : Result ClientError Value → Result RuntimeError (Unit {0})
sent_of (ok v) = ok tt
sent_of (err e) = err relay_failed

abbrev pub registered_of : RoomRelayClient → Result ClientError RoomRelayClient → RoomRelayClient
registered_of client (ok registered) = registered
registered_of client (err e) = client

abbrev pub closed : Option RoomRelayClient → Option RoomRelayClient
closed none = none
closed (some client) = some (closed_client client)

module _ (env : Environment) (role : PartyRole) where
  abbrev event_for : Text → Option Text → DemoState → Text → Option Text → ℕ → DemoEvent
  event_for session product state code replace_key n = record {
    event_id = env.event_id n;
    occurred_at = env.now n;
    panel = party role;
    session_id = session;
    state = state;
    message_code = code;
    audience = role_local;
    product_code = if is_room_joined state then product else none;
    correlation_id = none;
    replace_key = replace_key;
    agreed_amount = none;
  }

  -- `emit`; every event of the processes is for its own party.
  unfoldable pub emit : DemoState → Text → Option Text → Action Channel (Unit {0})
  unfolding create_demo_event
  emit state code replace_key = do
    c ← get
    session ← required c.session_id not_configured
    n ← draw
    event ← lifted (
        event_of (
          create_demo_event env.is_date
            (event_for session c.product_code state code replace_key n)))
    post (demo_event event)

  abbrev pub report_in : Option Text → Text → Action Channel (Unit {0})
  report_in none code = done
  report_in (some session) code = emit error_state code none

  -- `if (sessionId !== undefined) emit("ERROR", code, "ROLE_LOCAL")`
  unfoldable pub report : Text → Action Channel (Unit {0})
  unfolding emit
  report code = do c ← get; report_in c.session_id code

  -- `relay`
  unfoldable pub relay : NegotiationPayload → Action Channel (Unit {0})
  unfolding encrypt_relay_payload send_packet payload_value
  relay payload = do
    c ← get
    session ← required c.session_id no_channel
    product ← required c.product_code no_channel
    shared ← required c.shared_key no_channel
    client ← required c.relay_client no_channel
    modify (λ d. record d { sent_sequence = d.sent_sequence + 1 })
    n ← draw
    let metadata : RelayMetadata = record {
      session_id = session;
      product_code = product;
      sender = role;
      target = peer_of role;
      sequence = c.sent_sequence + 1;
    }
    packet ← lifted (
        packet_of
          (encrypt_relay_payload env.cipher shared (env.nonce n) metadata (payload_value payload)))
    lifted (sent_of (send_packet env.cipher.decoded client packet))
    modify (λ d. record d { written = packet ∷ d.written })

  -- `acceptPeerKey` up to what follows it: its tests, and the key that the two processes then share,
  -- which `deriveSharedKey` binds to the session and the product.
  unfoldable pub agree_key : Text → Text → PartyRole → Text → Action Channel (Unit {0})
  agree_key session product sender peer_key = do
    c ← get
    ensure
        (same_text c.session_id session
          && same_text c.product_code product
          && role_eq sender (peer_of role))
        wrong_room
    private ← required c.private_key not_configured
    shared ←
        required
          (env.derive_key private peer_key
            (session ++ codes ":" ++ product ++ codes ":buyer-seller"))
          not_configured
    modify (λ d. record d { shared_key = some shared })
    post (relay_channel_ready role session)

  -- The tests of `acceptRelayPacket` on a packet, and its decrypted payload.
  unfoldable pub opened_packet : RelayPacket → Action Channel Value
  unfolding decrypt_relay_payload
  opened_packet p = do
    c ← get
    shared ← required c.shared_key replayed
    ensure
        (same_text c.session_id p.session_id
          && same_text c.product_code p.product_code
          && role_eq p.sender (peer_of role)
          && role_eq p.target role
          && ltb c.received_sequence p.sequence)
        replayed
    lifted (value_of (decrypt_relay_payload env.cipher shared p))

  -- The part of `JOIN_ROOM` that resets the channel and makes a key pair.
  abbrev pub enter_room : Text → Text → ℕ → Channel → Channel
  enter_room session product n c = record c {
    session_id = some session;
    product_code = some product;
    shared_key = none;
    sent_sequence = 0;
    received_sequence = 0;
    relay_client = closed c.relay_client;
    private_key = some (env.key_pair n).0;
  }

  abbrev pub new_client : Text → RoomRelayClient
  new_client token = record {
    role = role;
    auth_token = token;
    buffer = [];
    registration = none;
    connected = false;
  }

  abbrev pub registration_told : Result ClientError RoomRelayClient → Action Channel (Unit {0})
  registration_told (ok registered) = done
  registration_told (err e) = report (codes "RELAY_CHANNEL_ERROR")

  -- The part of `JOIN_ROOM` that connects to the relay.
  unfoldable pub connect_relay : Text → Text → ℕ → Action Channel (Unit {0})
  connect_relay session product n = do
    token ← required env.relay_token not_configured
    let client = new_client token
    let registered = register_client session product (env.key_pair n).1 client
    modify (λ d. record d { relay_client = some (registered_of client registered) })
    registration_told registered

  -- The part of `SHUTDOWN_RUNTIME` that clears the channel.
  abbrev pub leave_room : Channel → Channel
  leave_room c = record c {
    session_id = none;
    product_code = none;
    private_key = none;
    shared_key = none;
    relay_client = none;
    sent_sequence = 0;
    received_sequence = 0;
  }
