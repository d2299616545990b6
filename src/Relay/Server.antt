-- ===== src/Relay/Server.antt =====
-- packages/room-relay/src/server.ts: rooms, registered clients, registration, routing and closing.
-- A client state is one object that its room and the table of clients share: a room's slot holds the
-- socket, and the table of clients, by socket, holds the state.
use midnight_private_negotia.Common.{
  ℕ, Bool, true, false, not, ◌&&◌, ◌||◌, Option, none, some, List, [], ◌∷◌, leb, ◌==◌,
  if◌then◌else◌, Text, text_eq,
}
use midnight_private_negotia.Agent.Types.{PartyRole, buyer, seller, role_eq}

pub record RelayRegistration : Type 0 where
  pub role : PartyRole
  pub auth_token : Text
  pub session_id : Text
  pub product_code : Text
  pub public_key : Text

pub record RelayPacket : Type 0 where
  pub session_id : Text
  pub product_code : Text
  pub sender : PartyRole
  pub target : PartyRole
  pub sequence : ℕ
  pub nonce : Text
  pub ciphertext : Text
  pub auth_tag : Text

pub data ErrorCode : Type 0 where
  auth_failed invalid_frame room_mismatch role_conflict : ErrorCode
  peer_unavailable replay_rejected nonce_reused : ErrorCode

pub data ServerMessage : Type 0 where
  peer_key : (session_id product_code : Text) → PartyRole → (public_key : Text) → ServerMessage
  forwarded : RelayPacket → ServerMessage
  error : ErrorCode → ServerMessage

abbrev pub Socket : Type 0
Socket = ℕ

pub record ClientState : Type 0 where
  pub registration : RelayRegistration
  pub last_sequence : ℕ
  pub seen_nonces : List Text

-- The slots of `clients: Partial<Record<PartyRole, ClientState>>`, by reference.
pub record RoomState : Type 0 where
  pub product_code : Text
  pub buyer_slot : Option Socket
  pub seller_slot : Option Socket

pub record Server : Type 0 where
  pub rooms : Text → Option RoomState
  pub clients : Socket → Option ClientState
  pub buffers : Socket → Option Text
  pub destroyed : Socket → Bool
  pub sent : List (Socket × ServerMessage)

-- `Map.set` and `Map.delete`
abbrev pub update_room :
    (Text → Option RoomState) → Text → Option RoomState → Text → Option RoomState
update_room rooms key value k = if text_eq k key then value else rooms k

abbrev pub update {ℓ} : {A : Type ℓ} → (Socket → A) → Socket → A → Socket → A
update m key value k = if k == key then value else m k

abbrev pub slot : RoomState → PartyRole → Option Socket
slot room buyer = room.buyer_slot
slot room seller = room.seller_slot

abbrev pub set_slot : RoomState → PartyRole → Option Socket → RoomState
set_slot room buyer value = record room { buyer_slot = value }
set_slot room seller value = record room { seller_slot = value }

abbrev pub peer_of : PartyRole → PartyRole
peer_of buyer = seller
peer_of seller = buyer

-- `send`: a message to a destroyed socket is dropped.
abbrev pub send : Socket → ServerMessage → Server → Server
send socket message s =
    if s.destroyed socket then s else record s { sent = (socket, message) ∷ s.sent }

-- `reject`
abbrev pub reject : Socket → ErrorCode → Server → Server
reject socket code s = send socket (error code) s

-- `socket.destroy()`
abbrev pub destroy : Socket → Server → Server
destroy socket s = record s { destroyed = update s.destroyed socket true }

abbrev pub is_some {ℓ} : {A : Type ℓ} → Option A → Bool
is_some none = false
is_some (some a) = true

abbrev pub same_product : Option RoomState → Text → Bool
same_product none code = true
same_product (some room) code = text_eq room.product_code code

abbrev pub room_or_new : Option RoomState → Text → RoomState
room_or_new none code = record { product_code = code; buyer_slot = none; seller_slot = none }
room_or_new (some room) code = room

-- The keys that the two clients of a full room are told.
abbrev pub exchange_keys :
    Socket → RelayRegistration → Socket → Option ClientState → Server → Server
exchange_keys socket r peer none s = s
exchange_keys socket r peer (some p) s =
    send peer (peer_key r.session_id r.product_code r.role r.public_key) (
      send socket (peer_key r.session_id r.product_code (peer_of r.role) p.registration.public_key)
        s)

abbrev pub introduce : Socket → RelayRegistration → Option Socket → Server → Server
introduce socket r none s = s
introduce socket r (some peer) s = exchange_keys socket r peer (s.clients peer) s

-- The registration after its guards.
unfoldable pub admit : Socket → RelayRegistration → Server → Server
admit socket r s =
    let room = set_slot (room_or_new (s.rooms r.session_id) r.product_code) r.role (some socket) in
    let admitted : Server = record s {
      rooms = update_room s.rooms r.session_id (some room);
      clients =
          update s.clients socket
            (some (record { registration = r; last_sequence = 0; seen_nonces = [] }));
    } in
    introduce socket r (slot room (peer_of r.role)) admitted

-- `register`, with the expected token of each role.
unfoldable pub register : (PartyRole → Text) → Socket → RelayRegistration → Server → Server
unfolding admit
register expected_tokens socket r s =
    if is_some (s.clients socket) || not (text_eq (expected_tokens r.role) r.auth_token)
    then destroy socket (reject socket auth_failed s)
    else if not (same_product (s.rooms r.session_id) r.product_code)
    then destroy socket (reject socket room_mismatch s)
    else if is_some (slot (room_or_new (s.rooms r.session_id) r.product_code) r.role)
    then destroy socket (reject socket role_conflict s)
    else admit socket r s

abbrev pub has_nonce : List Text → Text → Bool
has_nonce [] nonce = false
has_nonce (n ∷ nonces) nonce = text_eq n nonce || has_nonce nonces nonce

abbrev pub target_of : Option RoomState → PartyRole → Option Socket
target_of none role = none
target_of (some room) role = slot room role

abbrev pub is_own_packet : ClientState → RelayPacket → Bool
is_own_packet c p =
    role_eq c.registration.role p.sender
    && text_eq c.registration.session_id p.session_id
    && text_eq c.registration.product_code p.product_code

abbrev pub counted : ClientState → RelayPacket → ClientState
counted c p = record c { last_sequence = p.sequence; seen_nonces = p.nonce ∷ c.seen_nonces }

abbrev pub deliver : Socket → ClientState → RelayPacket → Option Socket → Server → Server
deliver socket c p none s = reject socket peer_unavailable s
deliver socket c p (some target) s =
    send target (forwarded p) (record s { clients = update s.clients socket (some (counted c p)) })

abbrev pub route_from : Socket → Option ClientState → RelayPacket → Server → Server
route_from socket none p s = reject socket room_mismatch s
route_from socket (some c) p s =
    if not (is_own_packet c p)
    then reject socket room_mismatch s
    else if leb p.sequence c.last_sequence
    then reject socket replay_rejected s
    else if has_nonce c.seen_nonces p.nonce
    then reject socket nonce_reused s
    else deliver socket c p (target_of (s.rooms p.session_id) p.target) s

-- `routePacket`
unfoldable pub route_packet : Socket → RelayPacket → Server → Server
route_packet socket p s = route_from socket (s.clients socket) p s

abbrev pub leave_room : PartyRole → RoomState → Option RoomState
leave_room role room =
    let left = set_slot room role none in
    if is_some left.buyer_slot || is_some left.seller_slot then some left else none

abbrev pub leave :
    RelayRegistration → Option RoomState → (Text → Option RoomState) → Text → Option RoomState
leave r none rooms = rooms
leave r (some room) rooms = update_room rooms r.session_id (leave_room r.role room)

abbrev pub close_client : Socket → Option ClientState → Server → Server
close_client socket none s = s
close_client socket (some c) s = record s {
  clients = update s.clients socket none;
  rooms = leave c.registration (s.rooms c.registration.session_id) s.rooms;
}

-- The handler of the `close` event.
unfoldable pub close : Socket → Server → Server
close socket s = close_client socket (s.clients socket) (record s {
  buffers = update s.buffers socket none;
  destroyed = update s.destroyed socket true;
})

-- The handler of a new connection.
unfoldable pub connect : Socket → Server → Server
connect socket s = record s {
  buffers = update s.buffers socket (some []);
  destroyed = update s.destroyed socket false;
}

unfoldable pub empty_server : Server
empty_server = record {
  rooms = λ k. none;
  clients = λ k. none;
  buffers = λ k. none;
  destroyed = λ k. false;
  sent = [];
}
