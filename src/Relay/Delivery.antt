-- ===== src/Relay/Delivery.antt =====
-- What the relay of packages/room-relay/src/server.ts forwards, and to whom.
use midnight_private_negotia.Common.{
  ◌<◌, ◌≡◌, refl, sym, ◌⊎◌, inl, inr, true, false, some, arith, leb, Bool-cases, Option-cases,
  subst,
}
use midnight_private_negotia.Relay.Server.{
  RelayPacket, forwarded, error, ErrorCode, Socket, ClientState, Server, update, send,
  is_own_packet, has_nonce, target_of, counted, route_from, route_packet, room_mismatch,
  replay_rejected, nonce_reused, peer_unavailable,
}

-- Where a packet of a client may be forwarded to.
pub record Deliverable (s : Server) (p : RelayPacket) (c : ClientState) (target : Socket)
    : Type 0 where
  pub own : is_own_packet c p ≡ true
  pub newer : c.last_sequence < p.sequence
  pub unused : has_nonce c.seen_nonces p.nonce ≡ false
  pub placed : target_of (s.rooms p.session_id) p.target ≡ some target

-- Routing either forwards the packet to one socket, and then the client remembers its sequence number
-- and nonce, or it changes nothing but that the sender is told an error.
abbrev pub Routed : Server → Socket → RelayPacket → Server → Type 0
Routed s socket p t =
    ((c : ClientState) × (target : Socket) × (s.clients socket ≡ some c)
      × Deliverable s p c target
      × (t
          ≡ send target (forwarded p)
              (record s { clients = update s.clients socket (some (counted c p)) })))
    ⊎ ((code : ErrorCode) × (t ≡ send socket (error code) s))

-- A packet is forwarded only for a registered client whose role, session and product it names, with a
-- sequence number above the client's last and a nonce that the client has not used, and only to the
-- socket in the target's slot of that room; the client then remembers both. Otherwise the server's
-- state stays and at most an error goes to the sender.
pub route_packet-Routed :
    (s : Server) (socket : Socket) (p : RelayPacket) → Routed s socket p (route_packet socket p s)
unfolding route_packet
route_packet-Routed s socket p = elim (Option-cases (s.clients socket)) [
  | inl missing ↦
      subst (λ o. Routed s socket p (route_from socket o p s)) (sym missing)
        (inr (room_mismatch, refl))
  | inr (c, known) ↦
      subst (λ o. Routed s socket p (route_from socket o p s)) (sym known) (routed c known)
]
  where
    routed :
        (c : ClientState)
        → s.clients socket ≡ some c
        → Routed s socket p (route_from socket (some c) p s)
    routed c known = elim (Bool-cases (is_own_packet c p)) [
      | inr foreign ↦ rw foreign (inr (room_mismatch, refl))
      | inl own ↦ elim (Bool-cases (leb p.sequence c.last_sequence)) [
        | inl old ↦ rw (own, old) (inr (replay_rejected, refl))
        | inr newer ↦ elim (Bool-cases (has_nonce c.seen_nonces p.nonce)) [
          | inl used ↦ rw (own, newer, used) (inr (nonce_reused, refl))
          | inr unused ↦ elim (Option-cases (target_of (s.rooms p.session_id) p.target)) [
            | inl away ↦ rw (own, newer, unused, away) (inr (peer_unavailable, refl))
            | inr (target, placed) ↦
                rw (own, newer, unused, placed)
                  (inl (
                    c,
                    target,
                    known,
                    record { own = own; newer = ground arith; unused = unused; placed = placed },
                    refl,
                  ))
          ]
        ]
      ]
    ]
