-- ===== src/Runtime/Buyer/Handlers.antt =====
-- packages/buyer-runtime/src/index.ts: the buyer's handlers of a peer key, a packet, a command and
-- the answer that a task waits for, and its runs.
use midnight_private_negotia.Runtime.Alike.{same_offer, is_given}
use midnight_private_negotia.Common.{
  ℕ, ◌+◌, Bool, true, false, not, ◌&&◌, Option, none, some, leb, Text, codes, text_eq, value,
}
use midnight_private_negotia.Agent.Types.{PartyRole, buyer}
use midnight_private_negotia.Contract.Witnesses.{BuyerPrivateState}
use midnight_private_negotia.Relay.Server.{RelayPacket}
use midnight_private_negotia.Protocol.Types.{
  room_joined, limit_locked, waiting_peer, commitment_created, stopped, settled_at, cancelled_deal,
}
use midnight_private_negotia.Runtime.Action.{
  not_configured, forbidden_payload, conflicting_key, invalid_payload, unknown_offer,
  limit_locked_already, cannot_start, Action, ◌>>=◌, ◌>>◌, done, throw, modify, get, required,
  ensure, attempt,
}
use midnight_private_negotia.Runtime.Payload.{
  NegotiationPayload, proposal, accepts, declines, contract_ready, price_opening, seller_key,
  max_rounds, buyer_payload,
}
use midnight_private_negotia.Runtime.Channel.{
  Environment, draw, same_text, emit, report, agree_key, opened_packet, enter_room, connect_relay,
  leave_room,
}
use midnight_private_negotia.Runtime.Buyer.{begins, BuyerState, on_channel, await, same_round}
use midnight_private_negotia.Runtime.Buyer.Chain.{
  flush_contract_ready, deploy_on_chain, publish_outcome,
}
use midnight_private_negotia.Runtime.Buyer.Negotiation.{generate_and_execute}

module _ (env : Environment) where
  abbrev pub reporting : Text → Action BuyerState (Unit {0}) → Action BuyerState (Unit {0})
  reporting code m = attempt m (on_channel (report env buyer code))

  -- `acceptPeerKey`
  unfoldable pub accept_peer_key : Text → Text → PartyRole → Text → Action BuyerState (Unit {0})
  accept_peer_key session product sender key = do
    on_channel (agree_key env buyer session product sender key)
    flush_contract_ready env

  abbrev pub key_for_deploy : Option Text → Text → Action BuyerState (Unit {0})
  key_for_deploy (some known) key = done
  key_for_deploy none key = do
    modify (λ s. record s { peer_seller_key = some key })
    reporting (codes "CHAIN_OPERATION_FAILED") (deploy_on_chain env)

  abbrev pub next_or_cancel : Bool → ℕ → Action BuyerState (Unit {0})
  next_or_cancel true round = publish_outcome env cancelled_deal
  next_or_cancel false round =
      reporting (codes "INVALID_RUNTIME_COMMAND") (generate_and_execute env (round + 1) none)

  -- `acceptRelayPacket` on the payload, after the packet's number was stored.
  unfoldable pub accept_payload : NegotiationPayload → Action BuyerState (Unit {0})
  accept_payload (seller_key key) = do s ← get; key_for_deploy s.peer_seller_key key
  accept_payload (accepts round price) = do
    s ← get
    ensure (same_offer s.last_sent_offer round price) unknown_offer
    publish_outcome env (settled_at price)
  accept_payload (declines round) = do
    s ← get
    ensure (same_round s.last_sent_offer round) unknown_offer
    next_or_cancel (leb max_rounds round) round
  accept_payload (proposal round price) =
      reporting (codes "INVALID_RUNTIME_COMMAND") (generate_and_execute env round (some price))
  accept_payload (contract_ready address) = throw forbidden_payload
  accept_payload (price_opening price randomness) = throw forbidden_payload

  -- The tests of `acceptRelayPacket` on the payload alone and on a known seller key.
  abbrev pub is_forbidden : NegotiationPayload → Bool
  is_forbidden (contract_ready address) = true
  is_forbidden (price_opening price randomness) = true
  is_forbidden _ = false

  abbrev pub is_conflicting : Option Text → NegotiationPayload → Bool
  is_conflicting (some known) (seller_key key) = not (text_eq known key)
  is_conflicting _ _ = false

  -- `acceptRelayPacket`
  unfoldable pub accept_relay_packet : RelayPacket → Action BuyerState (Unit {0})
  unfolding buyer_payload
  accept_relay_packet p = do
    v ← on_channel (opened_packet env buyer p)
    payload ← required (buyer_payload v) invalid_payload
    ensure (not (is_forbidden payload)) forbidden_payload
    s ← get
    ensure (not (is_conflicting s.peer_seller_key payload)) conflicting_key
    modify (λ t. record t { channel = record (t.channel) { received_sequence = p.sequence } })
    accept_payload payload

  abbrev join_as : Text → Text → ℕ → BuyerState → BuyerState
  join_as session product n s = record s {
    channel = enter_room env buyer session product n s.channel;
    buyer_max_price = none;
    peer_ready = false;
    negotiation_started = false;
    negotiation_finished = false;
    last_sent_offer = none;
    chain_contract_ready_pending = false;
    chain_deal_id = some (env.deal_hash n product);
    chain_state = none;
    chain_contract_address = none;
    chain_deploy_started = false;
    peer_seller_key = none;
    session_record = none;
  }

  -- The end of the `JOIN_ROOM` case
  unfoldable pub greet : Text → Text → ℕ → Action BuyerState (Unit {0})
  greet session product n = do
    on_channel (emit env buyer room_joined (codes "ROOM_JOINED") none)
    on_channel (connect_relay env buyer session product n)

  -- The `JOIN_ROOM` case
  unfoldable pub join : Text → Text → Action BuyerState (Unit {0})
  join session product = do
    n ← on_channel draw
    modify (join_as session product n)
    greet session product n

  abbrev private_state_of : ℕ → ℕ → ℕ → ℕ → BuyerPrivateState
  private_state_of limit n m k = record {
    buyer_secret_key = env.random_bytes m;
    buyer_max_price = limit;
    buyer_limit_randomness = env.random_bytes n;
    agreed_price = 0;
    price_randomness = env.random_bytes k;
  }

  abbrev pub deploy_in : Bool → Action BuyerState (Unit {0})
  deploy_in false = done
  deploy_in true = reporting (codes "CHAIN_OPERATION_FAILED") (deploy_on_chain env)

  -- The `SET_LIMIT` case
  unfoldable pub lock_limit : Text → Text → Action BuyerState (Unit {0})
  lock_limit session limit_krw = do
    s ← get
    ensure (same_text s.channel.session_id session && is_given s.channel.product_code)
        not_configured
    ensure (not (is_given s.chain_state)) limit_locked_already
    n ← on_channel draw
    m ← on_channel draw
    k ← on_channel draw
    modify (λ t. record t {
      buyer_max_price = some (value limit_krw);
      chain_state = some (private_state_of (value limit_krw) n m k);
    })
    on_channel (emit env buyer limit_locked (codes "BUYER_LIMIT_LOCKED") none)
    on_channel (emit env buyer commitment_created (codes "BUYER_COMMITMENT_CREATED") none)
    on_channel (emit env buyer commitment_created (codes "DEAL_CREATED") none)
    on_channel (
        emit env buyer waiting_peer (codes "WAITING_SELLER_COMMITMENT")
          (some (codes "buyer-peer-commitment")))
    deploy_in env.chain_mode

  -- The `START_RUNTIME` case; the timer is a task.
  unfoldable pub start : Action BuyerState (Unit {0})
  start = do
    s ← get
    ensure
        (is_given s.buyer_max_price
          && is_given s.channel.shared_key
          && s.peer_ready
          && not s.negotiation_started)
        cannot_start
    modify (λ t. record t { negotiation_started = true })
    await begins

  abbrev left_state : BuyerState → BuyerState
  left_state s = record s {
    channel = leave_room env buyer s.channel;
    buyer_max_price = none;
    peer_ready = false;
    negotiation_started = false;
    negotiation_finished = false;
    last_sent_offer = none;
    chain_contract_ready_pending = false;
    chain_deal_id = none;
    chain_state = none;
    chain_contract_address = none;
    chain_deploy_started = false;
    peer_seller_key = none;
  }

  abbrev pub say_stopped : Option Text → Action BuyerState (Unit {0})
  say_stopped none = done
  say_stopped (some session) = on_channel (emit env buyer stopped (codes "RUNTIME_STOPPED") none)

  -- The `SHUTDOWN_RUNTIME` case, without the end of the process.
  unfoldable pub shut_down : Action BuyerState (Unit {0})
  shut_down = do s ← get; say_stopped s.channel.session_id; modify left_state
