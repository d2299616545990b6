-- ===== src/Relay/Replay.antt =====
-- The replay protection of packages/room-relay/src/server.ts over whole runs of the server.
use midnight_private_negotia.Common.{
  ◌≤◌, ◌≡◌, refl, sym, ◌∙◌, ◌⊎◌, inl, inr, Bool, true, false, not, ◌&&◌, Option, none, some, List,
  [], ◌∷◌, arith, ltb, ◌==◌, Bool-cases, Text, ◌++◌,
}
use midnight_private_negotia.Agent.Types.{PartyRole}
use midnight_private_negotia.Relay.Server.{
  RelayPacket, error, ErrorCode, Socket, ClientState, Server, send, route_packet, connect, close,
  invalid_frame,
}
use midnight_private_negotia.Relay.Frames.{
  FrameParser, RelayClientMessage, registers, packet, handle_message, handle_frames, receive,
  split_frames, byte_length, buffered, max_frame_bytes,
}
use midnight_private_negotia.Relay.Delivery.{Deliverable, route_packet-Routed}
use midnight_private_negotia.Relay.Memory.{
  Remembers, Remembers-send, route-Remembers, register-clients, close-Remembers,
  remembered-not-Deliverable, routed-Remembers,
}

-- The events of the server, each of one socket.
pub data Event : Type 0 where
  connects closes : Event
  receives : Text → Event

abbrev pub step : (PartyRole → Text) → FrameParser → Socket → Event → Server → Server
step expected_tokens parse socket connects s = connect socket s
step expected_tokens parse socket closes s = close socket s
step expected_tokens parse socket (receives chunk) s = receive expected_tokens parse socket chunk s

unfoldable pub run : (PartyRole → Text) → FrameParser → List (Socket × Event) → Server → Server
run expected_tokens parse [] s = s
run expected_tokens parse ((socket, e) ∷ events) s =
    run expected_tokens parse events (step expected_tokens parse socket e s)

abbrev is_close : Event → Bool
is_close connects = false
is_close closes = true
is_close (receives chunk) = false

-- Whether no event of a run closes a socket.
unfoldable pub stays_open : Socket → List (Socket × Event) → Bool
stays_open socket [] = true
stays_open socket ((other, e) ∷ events) =
    not ((socket == other) && is_close e) && stays_open socket events

module _ (expected_tokens : PartyRole → Text) (parse : FrameParser) (socket : Socket)
    (p : RelayPacket) where
  message-Remembers :
      (other : Socket) (m : Option RelayClientMessage) (s : Server)
      → Remembers socket p s
      → Remembers socket p (handle_message expected_tokens other m s)
  message-Remembers other none s v = Remembers-send socket other p (error invalid_frame) s v
  message-Remembers other (some (registers r)) s v = record {
    client = v.client;
    known = register-clients expected_tokens other socket r s v.client v.known;
    counted_in = v.counted_in;
    nonce_in = v.nonce_in;
  }
  message-Remembers other (some (packet q)) s v = route-Remembers other socket p q s v

  frames-Remembers :
      (other : Socket) (frames : List Text) (s : Server)
      → Remembers socket p s
      → Remembers socket p (handle_frames expected_tokens parse other frames s)
  unfolding handle_frames
  frames-Remembers other [] s v = v
  frames-Remembers other ([] ∷ frames) s v = frames-Remembers other frames s v
  frames-Remembers other ((c ∷ f) ∷ frames) s v =
      frames-Remembers other frames _ (message-Remembers other (parse (c ∷ f)) s v)

  receive-Remembers :
      (other : Socket) (chunk : Text) (s : Server)
      → Remembers socket p s
      → Remembers socket p (receive expected_tokens parse other chunk s)
  unfolding receive
  receive-Remembers other chunk s v =
      let buffer = buffered (s.buffers other) ++ chunk in
      elim (Bool-cases (ltb max_frame_bytes (byte_length buffer))) [
        | inl long ↦
            rw long (elsewhere (Remembers-send socket other p (error invalid_frame) s v) refl)
        | inr fits ↦ rw fits (elsewhere (frames-Remembers other (split_frames buffer).0 s v) refl)
      ]
    where
      elsewhere :
          {t u : Server}
          → Remembers socket p t
          → (t.clients socket ≡ u.clients socket)
          → Remembers socket p u
      elsewhere v same = record {
        client = v.client;
        known = sym same ∙ v.known;
        counted_in = v.counted_in;
        nonce_in = v.nonce_in;
      }

  step-Remembers :
      (other : Socket) (e : Event) (s : Server)
      → (socket == other) && is_close e ≡ false
      → Remembers socket p s
      → Remembers socket p (step expected_tokens parse other e s)
  unfolding connect
  step-Remembers other connects s open_still v = record {
    client = v.client;
    known = v.known;
    counted_in = v.counted_in;
    nonce_in = v.nonce_in;
  }
  step-Remembers other closes s open_still v =
      close-Remembers other socket p s (foreign (socket == other) open_still) v
    where
      foreign : (b : Bool) → b && true ≡ false → b ≡ false
      foreign b h = ground arith
  step-Remembers other (receives chunk) s open_still v = receive-Remembers other chunk s v

  run-Remembers :
      (events : List (Socket × Event)) (s : Server)
      → stays_open socket events ≡ true
      → Remembers socket p s
      → Remembers socket p (run expected_tokens parse events s)
  unfolding run stays_open
  run-Remembers [] s open_still v = v
  run-Remembers ((other, e) ∷ events) s open_still v =
      run-Remembers events _ (later _ _ open_still)
        (step-Remembers other e s (now _ _ open_still) v)
    where
      now : (a b : Bool) → not a && b ≡ true → a ≡ false
      now a b h = ground arith

      later : (a b : Bool) → not a && b ≡ true → b ≡ true
      later a b h = ground arith

-- A packet of a client that has sent one with the same nonce or an equal or newer sequence number.
pub remembered-refused :
    (socket : Socket) (p q : RelayPacket) (s : Server)
    → Remembers socket p s
    → (q.sequence ≤ p.sequence) ⊎ (p.nonce ≡ q.nonce)
    → (code : ErrorCode) × (route_packet socket q s ≡ send socket (error code) s)
remembered-refused socket p q s v again = elim (route_packet-Routed s socket q) [
  | inr refused ↦ refused
  | inl (c, target, known, d, same) ↦
      absurd (remembered-not-Deliverable socket target p q c s v known d again)
]

-- A packet p that the relay forwarded from a socket is not forwarded from it again: after any further
-- events of all sockets, as long as none closes this socket, a packet q with p's nonce, or with a
-- sequence number that is not above p's, is answered with an error and the state stays.
pub replays_refused :
    (expected_tokens : PartyRole → Text) (parse : FrameParser) (socket target : Socket)
    (p q : RelayPacket) (c : ClientState) (s : Server) (events : List (Socket × Event))
    → s.clients socket ≡ some c
    → Deliverable s p c target
    → stays_open socket events ≡ true
    → (q.sequence ≤ p.sequence) ⊎ (p.nonce ≡ q.nonce)
    → (code : ErrorCode) × (route_packet socket q
          (run expected_tokens parse events (route_packet socket p s))
        ≡ send socket (error code) (run expected_tokens parse events (route_packet socket p s)))
replays_refused expected_tokens parse socket target p q c s events known d open_still again =
    remembered-refused socket p q _
      (run-Remembers expected_tokens parse socket p events _ open_still
        (routed-Remembers socket target p c s known d))
      again
