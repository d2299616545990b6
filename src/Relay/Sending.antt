-- ===== src/Relay/Sending.antt =====
-- What a client of packages/room-relay/src/index.ts sends, and how server.ts takes it.
use midnight_private_negotia.Common.{
  ℕ, ◌≡◌, sym, ap, ◌∙◌, Bool, true, not, ◌&&◌, Option, none, some, arith, Text, text_eq,
  text_eq_iff, text_eq_refl, Result, ok, err, Value, guard-eq-ok, ok-injective, Bool-cases, inl,
  inr, if◌then◌else◌, subst,
}
use midnight_private_negotia.Agent.Types.{PartyRole, role_eq}
use midnight_private_negotia.Relay.Server.{
  RelayRegistration, RelayPacket, ClientState, is_own_packet,
}
use midnight_private_negotia.Relay.Frames.{packet}
use midnight_private_negotia.Relay.Messages.{
  is_packet, is_registration, parse_relay_packet, parse_relay_client_message, packet_fields,
  parsed_packet, invalid_packet, parse_relay_packet-packet_fields,
}
use midnight_private_negotia.Relay.Client.{
  RoomRelayClient, ClientError, registration_of, register_client, is_own, written, send_packet,
  already_connected, invalid_client_registration, foreign_packet, not_connected, malformed_packet,
}

role_eq-sym : (a b : PartyRole) → role_eq a b ≡ true → role_eq b a ≡ true
role_eq-sym a b h = ground arith

text_eq-sym : (s t : Text) → text_eq s t ≡ true → text_eq t s ≡ true
text_eq-sym s t h = subst (λ u. text_eq u s ≡ true) ((text_eq_iff s t).0 h) (text_eq_refl s)

and_then : (a b c : Bool) → a && b && c ≡ true → (a ≡ true) × (b ≡ true) × (c ≡ true)
and_then a b c h = ground arith

-- A packet that is written is the one that was sent, and the relay's parser reads it so.
written-packet :
    (decoded : Text → ℕ) (p : RelayPacket) (v : Value)
    → written (parse_relay_packet decoded (packet_fields p)) ≡ ok v
    → parse_relay_client_message decoded v ≡ ok (packet p)
written-packet decoded p v h = elim (Bool-cases (is_packet decoded p)) [
  | inl valid ↦
      let out = ap written (
        parse_relay_packet-packet_fields decoded p
        ∙ ap (λ b. if b then ok p else err invalid_packet) valid) in
      subst (λ u. parse_relay_client_message decoded u ≡ ok (packet p)) (ok-injective (sym out ∙ h))
        (parsed_packet decoded p ∙ ap (λ b. if b then ok (packet p) else err invalid_packet) valid)
  | inr invalid ↦ absurd (
      refused (
        sym (
          ap written (
            parse_relay_packet-packet_fields decoded p
            ∙ ap (λ b. if b then ok p else err invalid_packet) invalid))
        ∙ h))
]
  where
    refused : ¬ (◌≡◌ {A = Result ClientError Value} (err malformed_packet) (ok v))
    refused h = cc

own-registered :
    (role : PartyRole) (o : Option RelayRegistration) (p : RelayPacket) (c : ClientState)
    → is_own role o p ≡ true
    → o ≡ some c.registration
    → role ≡ c.registration.role
    → is_own_packet c p ≡ true
own-registered role o p c own known same =
    let (sender, session, product) =
      and_then _ _ _ (subst (λ q. is_own role q p ≡ true) known own) in
    rw (
      role_eq-sym p.sender c.registration.role (subst (λ r. role_eq p.sender r ≡ true) same sender),
      text_eq-sym _ _ session,
      text_eq-sym _ _ product,
    )

abbrev role_in : PartyRole → Option RelayRegistration → PartyRole
role_in role none = role
role_in role (some r) = r.role

-- What a registered client sends is what the relay takes for its own: if the relay holds the client's
-- registration and the client sends a packet, then the relay's parser reads the written object as
-- that packet, and the packet's sender, session and product are those of the registration.
pub sent_packet_accepted :
    (decoded : Text → ℕ) (session_id product_code public_key : Text)
    (before client : RoomRelayClient) (c : ClientState) (p : RelayPacket) (v : Value)
    → register_client session_id product_code public_key before ≡ ok client
    → client.registration ≡ some c.registration
    → send_packet decoded client p ≡ ok v
    → (parse_relay_client_message decoded v ≡ ok (packet p)) × (is_own_packet c p ≡ true)
unfolding register_client send_packet
sent_packet_accepted decoded session_id product_code public_key before client c p v registered known
      sent =
    let (own, h₁) = guard-eq-ok (is_own client.role client.registration p) foreign_packet _ sent in
    let (connected, h₂) = guard-eq-ok client.connected not_connected _ h₁ in
    let (fresh, r₁) = guard-eq-ok (not before.connected) already_connected _ registered in
    let (valid, done) =
      guard-eq-ok (is_registration (registration_of session_id product_code public_key before))
        invalid_client_registration _ r₁ in
    let same = ok-injective done in
    (
      written-packet decoded p v h₂,
      own-registered client.role client.registration p c own known (
          sym (ap (λ k. k.role) same)
          ∙ ap (role_in before.role) (ap (λ k. k.registration) same ∙ known)),
    )
