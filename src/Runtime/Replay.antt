-- ===== src/Runtime/Replay.antt =====
-- packages/buyer-runtime/src/index.ts: the packets that are refused before they are opened.
use midnight_private_negotia.Common.{
  ℕ, ◌≡◌, refl, Bool, true, false, ◌&&◌, Option, none, some, List, ltb, err,
}
use midnight_private_negotia.Agent.Types.{PartyRole, buyer, role_eq}
use midnight_private_negotia.Relay.Server.{RelayPacket, peer_of}
use midnight_private_negotia.Runtime.Action.{
  Action, ◌>>=◌, ◌>>◌, get, required, ensure, throw, done, replayed,
}
use midnight_private_negotia.Runtime.Channel.{Environment, Channel, opened_packet, same_text}
use midnight_private_negotia.Runtime.Buyer.{BuyerState, on_channel}
use midnight_private_negotia.Runtime.Buyer.Handlers.{accept_relay_packet}

-- What a packet must pass before it is opened.
abbrev pub is_current : PartyRole → Channel → RelayPacket → Bool
is_current role c p =
    same_text c.session_id p.session_id
    && same_text c.product_code p.product_code
    && role_eq p.sender (peer_of role)
    && role_eq p.target role
    && ltb c.received_sequence p.sequence

refused_with :
    {A : Type 0} (shared : Option (List ℕ)) (b : Bool) (rest : List ℕ → Action Channel A)
    (c : Channel)
    → b ≡ false
    → (required shared replayed >>= λ k. ensure b replayed >> rest k) c ≡ (err replayed, c)
unfolding ◌>>=◌ ◌>>◌ required ensure throw done
refused_with none b rest c old = refl
refused_with (some k) true rest c old = cc
refused_with (some k) false rest c old = refl

opened_packet-replayed :
    (env : Environment) (role : PartyRole) (p : RelayPacket) (c : Channel)
    → is_current role c p ≡ false
    → opened_packet env role p c ≡ (err replayed, c)
unfolding opened_packet ◌>>=◌ get
opened_packet-replayed env role p c old = refused_with c.shared_key (is_current role c p) _ c old

-- Such a packet is refused by the buyer's process and changes nothing.
pub not_current-refused :
    (env : Environment) (p : RelayPacket) (s : BuyerState)
    → is_current buyer s.channel p ≡ false
    → accept_relay_packet env p s ≡ (err replayed, s)
unfolding accept_relay_packet ◌>>=◌ on_channel
not_current-refused env p s old = rw (opened_packet-replayed env buyer p s.channel old) refl
