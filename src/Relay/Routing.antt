-- ===== src/Relay/Routing.antt =====
-- packages/room-relay/src/server.ts: exactly which packets `routePacket` forwards.
use midnight_private_negotia.Common.{
  ℕ, ◌||◌, ◌<◌, ◌≡◌, ◌≢◌, ◌↔◌, refl, sym, ap, subst, Bool, inl, inr, true, false, Option, none,
  some, List, [], ◌∷◌, arith, leb, Bool-cases, All, length, Text, text_eq, text_eq_iff, ◌∙◌,
}
use midnight_private_negotia.Agent.Types.{PartyRole, buyer, seller, role_eq}
use midnight_private_negotia.Relay.Server.{
  RelayPacket, ServerMessage, forwarded, error, ErrorCode, Socket, ClientState, RoomState, Server,
  update, send, slot, has_nonce, target_of, counted, route_packet,
}
use midnight_private_negotia.Relay.Delivery.{Deliverable, Routed, route_packet-Routed}

-- A packet of a client that the relay forwards to a socket.
pub record IsDelivery (s : Server) (p : RelayPacket) (c : ClientState) (target : Socket)
    : Type 0 where
  pub role : c.registration.role ≡ p.sender
  pub session : c.registration.session_id ≡ p.session_id
  pub product : c.registration.product_code ≡ p.product_code
  pub newer : c.last_sequence < p.sequence
  pub unused : All (λ nonce. nonce ≢ p.nonce) c.seen_nonces
  pub placed :
      (room : RoomState) × (s.rooms p.session_id ≡ some room) × (slot room p.target ≡ some target)

role_eq_iff : (a b : PartyRole) → (role_eq a b ≡ true) ↔ (a ≡ b)
role_eq_iff buyer buyer = (λ h. refl, λ h. refl)
role_eq_iff buyer seller = (λ h. cc, λ h. cc)
role_eq_iff seller buyer = (λ h. cc, λ h. cc)
role_eq_iff seller seller = (λ h. refl, λ h. refl)

fresh_iff :
    (nonces : List Text) (nonce : Text)
    → (has_nonce nonces nonce ≡ false) ↔ All (λ n. n ≢ nonce) nonces
fresh_iff [] nonce = (λ h. tt, λ h. refl)
fresh_iff (n ∷ nonces) nonce =
    let (to, from) = fresh_iff nonces nonce in
    (
      λ h. (
        λ same. absurd (clash (text_eq n nonce) ((text_eq_iff n nonce).1 same) (ground arith)),
        to (ground arith),
      ),
      λ (other, rest).
          differs (text_eq n nonce) (λ e. other ((text_eq_iff n nonce).0 e)) (from rest),
    )
  where
    clash : (b : Bool) → b ≡ true → b ≡ false → ⊥
    clash b h k = cc

    differs : (b : Bool) {t : Bool} → (b ≡ true → ⊥) → t ≡ false → (b || t) ≡ false
    differs true other h = absurd (other refl)
    differs false other h = h

placed_in :
    (o : Option RoomState) (role : PartyRole) (target : Socket)
    → target_of o role ≡ some target
    → (room : RoomState) × (o ≡ some room) × (slot room role ≡ some target)
placed_in none role target h = cc
placed_in (some room) role target h = (room, refl, h)

Deliverable→IsDelivery :
    (s : Server) (p : RelayPacket) (c : ClientState) (target : Socket)
    → Deliverable s p c target
    → IsDelivery s p c target
Deliverable→IsDelivery s p c target d =
    let own = d.own in
    record {
      role = (role_eq_iff c.registration.role p.sender).0 (ground arith);
      session = (text_eq_iff c.registration.session_id p.session_id).0 (ground arith);
      product = (text_eq_iff c.registration.product_code p.product_code).0 (ground arith);
      newer = d.newer;
      unused = (fresh_iff c.seen_nonces p.nonce).0 d.unused;
      placed = placed_in (s.rooms p.session_id) p.target target d.placed;
    }

IsDelivery→Deliverable :
    (s : Server) (p : RelayPacket) (c : ClientState) (target : Socket)
    → IsDelivery s p c target
    → Deliverable s p c target
IsDelivery→Deliverable s p c target d =
    let (room, there, placed) = d.placed in
    record {
      own =
          rw
            (
              (role_eq_iff c.registration.role p.sender).1 d.role,
              (text_eq_iff c.registration.session_id p.session_id).1 d.session,
              (text_eq_iff c.registration.product_code p.product_code).1 d.product,
            )
            refl;
      newer = d.newer;
      unused = (fresh_iff c.seen_nonces p.nonce).1 d.unused;
      placed = rw there placed;
    }

-- The packet is the newest message, and the client remembers its number and its nonce.
abbrev pub Forwards : Server → Socket → RelayPacket → ClientState → Socket → Server → Type 0
Forwards s socket p c target t =
    (t.sent ≡ (target, forwarded p) ∷ s.sent)
    × (t.clients socket
        ≡ some (record c { last_sequence = p.sequence; seen_nonces = p.nonce ∷ c.seen_nonces }))

some-injective : {A : Type 0} {a b : A} → some a ≡ some b → a ≡ b
some-injective h = cc

not_longer : {A : Type 0} (x : A) (xs : List A) → xs ≡ x ∷ xs → ⊥
not_longer x xs h = absurd (omega (arith, ap length h))

-- A message that was sent is the one that stands first.
sent_by :
    (socket : Socket) (m : ServerMessage) (s : Server) (x : Socket × ServerMessage)
    → (send socket m s).sent ≡ x ∷ s.sent
    → (socket, m) ≡ x
sent_by socket m s x h = elim (Bool-cases (s.destroyed socket)) [
  | inl gone ↦ absurd (not_longer x s.sent (rw gone at h))
  | inr live ↦ first (rw live at h)
]
  where
    first :
        {a : Socket × ServerMessage}
        → ◌≡◌ {A = List (Socket × ServerMessage)} (a ∷ s.sent) (x ∷ s.sent)
        → a ≡ x
    first e = cc

module _ (s : Server) (socket : Socket) (p : RelayPacket) (c : ClientState) (target : Socket)
    (known : s.clients socket ≡ some c) (live : s.destroyed target ≡ false) where
  forwards : Deliverable s p c target → Forwards s socket p c target (route_packet socket p s)
  unfolding route_packet
  forwards d =
      let newer : leb p.sequence c.last_sequence ≡ false = newer_leb _ _ d.newer in
      rw (known, d.own, newer, d.unused, d.placed, live) (refl, own_entry _)
    where
      newer_leb : (a b : ℕ) → a < b → leb b a ≡ false
      newer_leb a b h = ground arith

      own_entry : (e : Option ClientState) → update s.clients socket e socket ≡ e
      own_entry e = ground arith

  forwarded_from :
      Routed s socket p (route_packet socket p s)
      → (route_packet socket p s).sent ≡ (target, forwarded p) ∷ s.sent
      → Deliverable s p c target
  forwarded_from (inl (c', target', held, d, same)) h =
      let message =
        sent_by target' (forwarded p)
          (record s { clients = update s.clients socket (some (counted c' p)) })
          (target, forwarded p) (ap (λ t. t.sent) (sym same) ∙ h) in
      let client : c' ≡ c = some-injective (sym held ∙ known) in
      subst (λ x. Deliverable s p x target) client
        (subst (λ t. Deliverable s p c' t) (ap (λ m. m.0) message) d)
  forwarded_from (inr (code, same)) h = absurd (
      not_error code (
        ap (λ m. m.1)
          (sent_by socket (error code) s (target, forwarded p) (ap (λ t. t.sent) (sym same) ∙ h))))
    where
      not_error : (code : ErrorCode) → error code ≡ forwarded p → ⊥
      not_error code e = cc

  -- For a registered client and a socket that is not destroyed, the relay forwards a packet to that
  -- socket, and remembers its number and its nonce for the client, exactly when the packet names the
  -- client's role, session and product, its number is over the client's last one, the client has not
  -- used its nonce, and the socket is in the slot of the packet's target in the session's room.
  pub route_packet_iff :
      Forwards s socket p c target (route_packet socket p s) ↔ IsDelivery s p c target
  route_packet_iff = (
    λ (sent, _).
        Deliverable→IsDelivery s p c target (forwarded_from (route_packet-Routed s socket p) sent),
    λ d. forwards (IsDelivery→Deliverable s p c target d),
  )
