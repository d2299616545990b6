-- ===== src/Relay/Memory.antt =====
-- What the relay of packages/room-relay/src/server.ts remembers of a client's packets.
use midnight_private_negotia.Common.{
  ℕ, ◌≤◌, ◌<◌, ◌≡◌, refl, sym, ap, ◌∙◌, ◌⊎◌, inl, inr, Bool, true, false, not, ◌||◌, Option, none,
  some, [], arith, leb, ◌==◌, Bool-cases, Text, text_eq, text_eq_refl, subst,
}
use midnight_private_negotia.Agent.Types.{PartyRole}
use midnight_private_negotia.Relay.Server.{
  RelayRegistration, RelayPacket, ServerMessage, forwarded, error, Socket, ClientState, Server,
  update, slot, send, has_nonce, counted, route_from, route_packet, register, admit, introduce,
  close, close_client, exchange_keys, is_some, same_product, room_or_new, peer_key, set_slot,
  peer_of,
}
use midnight_private_negotia.Relay.Delivery.{Deliverable, route_packet-Routed}

-- The server holds that a socket's client has sent a packet.
pub record Remembers (socket : Socket) (p : RelayPacket) (s : Server) : Type 0 where
  pub client : ClientState
  pub known : s.clients socket ≡ some client
  pub counted_in : p.sequence ≤ client.last_sequence
  pub nonce_in : has_nonce client.seen_nonces p.nonce ≡ true

clients-send :
    (socket : Socket) (m : ServerMessage) (s : Server) → (send socket m s).clients ≡ s.clients
clients-send socket m s = elim (Bool-cases (s.destroyed socket)) [
  | inl gone ↦ rw gone
  | inr live ↦ rw live
]

clients-exchange_keys :
    (socket : Socket) (r : RelayRegistration) (peer : Socket) (o : Option ClientState) (s : Server)
    → (exchange_keys socket r peer o s).clients ≡ s.clients
clients-exchange_keys socket r peer none s = refl
clients-exchange_keys socket r peer (some p) s =
    let told = peer_key r.session_id r.product_code (peer_of r.role) p.registration.public_key in
    clients-send peer (peer_key r.session_id r.product_code r.role r.public_key)
      (send socket told s)
    ∙ clients-send socket told s

clients-introduce :
    (socket : Socket) (r : RelayRegistration) (peer : Option Socket) (s : Server)
    → (introduce socket r peer s).clients ≡ s.clients
clients-introduce socket r none s = refl
clients-introduce socket r (some peer) s = clients-exchange_keys socket r peer (s.clients peer) s

update_other :
    {A : Type 0} (m : Socket → A) (other socket : Socket) (a : A)
    → (socket == other) ≡ false
    → update m other a socket ≡ m socket
update_other m other socket a h = rw h

not_left : (a b : Bool) → a || b ≡ false → a ≡ false
not_left true b h = ground arith
not_left false b h = refl

or_right : (a b : Bool) → b ≡ true → a || b ≡ true
or_right true b h = refl
or_right false b h = h

fresh_client : RelayRegistration → ClientState
fresh_client r = record { registration = r; last_sequence = 0; seen_nonces = [] }

clients-admit :
    (other : Socket) (r : RelayRegistration) (s : Server)
    → (admit other r s).clients ≡ update s.clients other (some (fresh_client r))
unfolding admit fresh_client
clients-admit other r s =
    let room = set_slot (room_or_new (s.rooms r.session_id) r.product_code) r.role (some other) in
    clients-introduce other r (slot room (peer_of r.role)) _

not_client :
    (other socket : Socket) (m : Socket → Option ClientState) (c : ClientState)
    → m socket ≡ some c
    → is_some (m other) ≡ false
    → (socket == other) ≡ false
not_client other socket m c known free = elim (Bool-cases (socket == other)) [
  | inl same ↦ absurd (is_client (same_socket socket other same))
  | inr differs ↦ differs
]
  where
    same_socket : (a b : ℕ) → (a == b) ≡ true → a ≡ b
    same_socket a b h = ground arith

    clash : true ≡ false → ⊥
    clash h = ground arith

    is_client : socket ≡ other → ⊥
    is_client e = clash (sym (ap is_some known) ∙ ap (λ k. is_some (m k)) e ∙ free)

admit-keeps :
    (other socket : Socket) (r : RelayRegistration) (s : Server) (c : ClientState)
    → s.clients socket ≡ some c
    → is_some (s.clients other) ≡ false
    → (admit other r s).clients socket ≡ some c
admit-keeps other socket r s c known free =
    ap (λ m. m socket) (clients-admit other r s)
    ∙ update_other s.clients other socket (some (fresh_client r))
        (not_client other socket s.clients c known free)
    ∙ known

-- Registration leaves the state of every client in the table as it is.
pub register-clients :
    (expected_tokens : PartyRole → Text) (other socket : Socket) (r : RelayRegistration)
    (s : Server) (c : ClientState)
    → s.clients socket ≡ some c
    → (register expected_tokens other r s).clients socket ≡ some c
unfolding register admit
register-clients expected_tokens other socket r s c known =
    elim (Bool-cases
      (is_some (s.clients other) || not (text_eq (expected_tokens r.role) r.auth_token))) [
        | inl refused ↦ rw refused (ap (λ m. m socket) (clients-send other _ s) ∙ known)
        | inr accepted ↦
            elim (Bool-cases (not (same_product (s.rooms r.session_id) r.product_code))) [
              | inl differs ↦
                  rw (accepted, differs) (ap (λ m. m socket) (clients-send other _ s) ∙ known)
              | inr agrees ↦
                  elim (Bool-cases
                    (is_some (slot (room_or_new (s.rooms r.session_id) r.product_code) r.role))) [
                      | inl taken ↦
                          rw (accepted, agrees, taken)
                            (ap (λ m. m socket) (clients-send other _ s) ∙ known)
                      | inr free ↦
                          rw (accepted, agrees, free)
                            (admit-keeps other socket r s c known (not_left _ _ accepted))
                    ]
            ]
      ]

pub Remembers-send :
    (socket other : Socket) (p : RelayPacket) (m : ServerMessage) (s : Server)
    → Remembers socket p s
    → Remembers socket p (send other m s)
Remembers-send socket other p m s v = record {
  client = v.client;
  known = ap (λ k. k socket) (clients-send other m s) ∙ v.known;
  counted_in = v.counted_in;
  nonce_in = v.nonce_in;
}

-- A client that has sent a newer packet holds its former ones too.
abbrev held_or : ClientState → Option ClientState → ClientState
held_or c none = c
held_or c (some d) = d

client_at :
    (socket other : Socket) (m : Socket → Option ClientState) (c d : ClientState)
    → (socket == other) ≡ true
    → m other ≡ some c
    → m socket ≡ some d
    → c ≡ d
client_at socket other m c d own known held =
    ap (held_or c) (sym known ∙ ap m (sym (same_socket socket other own)) ∙ held)
  where
    same_socket : (a b : ℕ) → (a == b) ≡ true → a ≡ b
    same_socket a b h = ground arith

counted-Remembers :
    (other socket : Socket) (p q : RelayPacket) (s : Server) (c : ClientState)
    → (socket == other) ≡ true
    → s.clients other ≡ some c
    → c.last_sequence < q.sequence
    → Remembers socket p s
    → Remembers socket p (record s { clients = update s.clients other (some (counted c q)) })
counted-Remembers other socket p q s c own known newer v =
    let same = client_at socket other s.clients c v.client own known v.known in
    record {
      client = counted c q;
      known = rw own;
      counted_in = old same v.counted_in;
      nonce_in = or_right _ _ (ap (λ k. has_nonce k.seen_nonces p.nonce) same ∙ v.nonce_in);
    }
  where
    below : {a b d n : ℕ} → a ≡ b → n ≤ b → a < d → n ≤ d
    below e h l = omega arith

    old : c ≡ v.client → p.sequence ≤ v.client.last_sequence → p.sequence ≤ q.sequence
    old same counted_in = below (ap (λ k. k.last_sequence) same) counted_in newer

pub route-Remembers :
    (other socket : Socket) (p q : RelayPacket) (s : Server)
    → Remembers socket p s
    → Remembers socket p (route_packet other q s)
route-Remembers other socket p q s v = elim (route_packet-Routed s other q) [
  | inl (c, target, known, d, same) ↦
      subst (λ t. Remembers socket p t) (sym same)
        (Remembers-send socket target p (forwarded q) _ (elim (Bool-cases (socket == other)) [
          | inl own ↦ counted-Remembers other socket p q s c own known d.newer v
          | inr foreign ↦ record {
            client = v.client;
            known = update_other s.clients other socket (some (counted c q)) foreign ∙ v.known;
            counted_in = v.counted_in;
            nonce_in = v.nonce_in;
          }
        ]))
  | inr (code, same) ↦
      subst (λ t. Remembers socket p t) (sym same) (Remembers-send socket other p (error code) s v)
]

close_client-Remembers :
    (other socket : Socket) (p : RelayPacket) (o : Option ClientState) (s : Server)
    → (socket == other) ≡ false
    → Remembers socket p s
    → Remembers socket p (close_client other o s)
close_client-Remembers other socket p none s foreign v = v
close_client-Remembers other socket p (some c) s foreign v = record {
  client = v.client;
  known = update_other s.clients other socket none foreign ∙ v.known;
  counted_in = v.counted_in;
  nonce_in = v.nonce_in;
}

pub close-Remembers :
    (other socket : Socket) (p : RelayPacket) (s : Server)
    → (socket == other) ≡ false
    → Remembers socket p s
    → Remembers socket p (close other s)
unfolding close
close-Remembers other socket p s foreign v =
    close_client-Remembers other socket p (s.clients other) _ foreign (record {
      client = v.client;
      known = v.known;
      counted_in = v.counted_in;
      nonce_in = v.nonce_in;
    })

pub routed-Remembers :
    (socket target : Socket) (p : RelayPacket) (c : ClientState) (s : Server)
    → s.clients socket ≡ some c
    → Deliverable s p c target
    → Remembers socket p (route_packet socket p s)
unfolding route_packet
routed-Remembers socket target p c s known d =
    let t : Server = record s { clients = update s.clients socket (some (counted c p)) } in
    let sent : Remembers socket p t = record {
      client = counted c p;
      known = rw (self socket);
      counted_in = omega arith;
      nonce_in = rw (text_eq_refl p.nonce);
    } in
    subst (λ o. Remembers socket p (route_from socket o p s)) (sym known)
      (rw (d.own, older d.newer, d.unused, d.placed)
        (Remembers-send socket target p (forwarded p) t sent))
  where
    older : {m n : ℕ} → m < n → leb n m ≡ false
    older h = ground arith

    self : (n : ℕ) → (n == n) ≡ true
    self n = ground arith

pub remembered-not-Deliverable :
    (socket target : Socket) (p q : RelayPacket) (c : ClientState) (s : Server)
    → Remembers socket p s
    → s.clients socket ≡ some c
    → Deliverable s q c target
    → ¬ ((q.sequence ≤ p.sequence) ⊎ (p.nonce ≡ q.nonce))
remembered-not-Deliverable socket target p q c s v known d again =
    let same = client_at socket socket s.clients c v.client (self socket) known v.known in
    elim again [
      | inl old ↦ stale (ap (λ k. k.last_sequence) same) old v.counted_in d.newer
      | inr used ↦ clash (
          sym v.nonce_in
          ∙ ap (λ k. has_nonce k.seen_nonces p.nonce) (sym same)
          ∙ ap (has_nonce c.seen_nonces) used
          ∙ d.unused)
    ]
  where
    self : (n : ℕ) → (n == n) ≡ true
    self n = ground arith

    stale : {a b m n : ℕ} → a ≡ b → n ≤ m → m ≤ b → a < n → ⊥
    stale e h k l = omega arith

    clash : true ≡ false → ⊥
    clash h = ground arith
