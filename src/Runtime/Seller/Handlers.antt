-- ===== src/Runtime/Seller/Handlers.antt =====
-- packages/seller-runtime/src/index.ts: the seller's handlers of a peer key, a packet and a command.
use midnight_private_negotia.Runtime.Alike.{same_offer, is_given}
use midnight_private_negotia.Common.{
  ℕ, Bool, true, false, not, ◌&&◌, Option, none, some, Text, codes, text_eq, value,
}
use midnight_private_negotia.Agent.Types.{PartyRole, seller}
use midnight_private_negotia.Contract.Witnesses.{SellerPrivateState}
use midnight_private_negotia.Relay.Server.{RelayPacket}
use midnight_private_negotia.Protocol.Types.{
  room_joined, limit_locked, waiting_peer, commitment_created, error_state, stopped,
}
use midnight_private_negotia.Runtime.Action.{
  not_configured, forbidden_payload, invalid_payload, unknown_offer, limit_locked_already, no_limit,
  cannot_start, already_agreed, Action, ◌>>=◌, ◌>>◌, done, throw, modify, get, required, ensure,
  attempt,
}
use midnight_private_negotia.Runtime.Payload.{
  NegotiationPayload, proposal, accepts, declines, contract_ready, price_opening, seller_key,
  seller_payload,
}
use midnight_private_negotia.Runtime.Channel.{
  Environment, draw, same_text, emit, report, agree_key, opened_packet, enter_room, connect_relay,
  leave_room,
}
use midnight_private_negotia.Runtime.Seller.{cancels, SellerState, on_channel}
use midnight_private_negotia.Runtime.Seller.Chain.{
  flush_seller_key, try_join_on_chain, settle_on_chain, cancel_on_chain,
}
use midnight_private_negotia.Runtime.Seller.Negotiation.{respond_to_proposal}

abbrev pub same_price : Option Text → Text → Bool
same_price none price = false
same_price (some agreed) price = text_eq price agreed

module _ (env : Environment) where
  abbrev pub reporting : Text → Action SellerState (Unit {0}) → Action SellerState (Unit {0})
  reporting code m = attempt m (on_channel (report env seller code))

  -- `acceptPeerKey`
  unfoldable pub accept_peer_key : Text → Text → PartyRole → Text → Action SellerState (Unit {0})
  accept_peer_key session product from_role key = do
    on_channel (agree_key env seller session product from_role key)
    modify (λ s. record s { seller_key_sent = false })
    reporting (codes "CHAIN_OPERATION_FAILED") (flush_seller_key env)

  -- `acceptRelayPacket` on an opening, with whether its price is the agreed one
  abbrev pub open_price : Bool → Text → Text → Action SellerState (Unit {0})
  open_price false price randomness = do
    on_channel (emit env seller error_state (codes "CHAIN_OPERATION_FAILED") none)
    reporting (codes "CHAIN_OPERATION_FAILED") (cancel_on_chain env cancels)
  open_price true price randomness =
      reporting (codes "CHAIN_OPERATION_FAILED") (settle_on_chain env price randomness)

  -- `acceptRelayPacket` on the payload, after the packet's number was stored; a negotiation payload
  -- needs a limit and no agreed price.
  unfoldable pub accept_payload : NegotiationPayload → Action SellerState (Unit {0})
  accept_payload (contract_ready address) = do
    modify (λ s. record s { pending_contract_address = some address })
    reporting (codes "CHAIN_OPERATION_FAILED") (try_join_on_chain env)
  accept_payload (price_opening price randomness) = do
    s ← get
    open_price (same_price s.agreed_price price) price randomness
  accept_payload (accepts round price) = do
    s ← get
    ensure (is_given s.seller_min_price) no_limit
    ensure (not (is_given s.agreed_price)) already_agreed
    ensure (same_offer s.last_sent_offer round price) unknown_offer
    modify (λ t. record t { agreed_price = some price })
  accept_payload (declines round) = throw forbidden_payload
  accept_payload (proposal round price) = do
    s ← get
    ensure (is_given s.seller_min_price) no_limit
    ensure (not (is_given s.agreed_price)) already_agreed
    reporting (codes "INVALID_RUNTIME_COMMAND") (respond_to_proposal env round price)
  accept_payload (seller_key key) = throw invalid_payload

  -- `acceptRelayPacket`
  unfoldable pub accept_relay_packet : RelayPacket → Action SellerState (Unit {0})
  accept_relay_packet p = do
    v ← on_channel (opened_packet env seller p)
    payload ← required (seller_payload v) invalid_payload
    modify (λ t. record t { channel = record (t.channel) { received_sequence = p.sequence } })
    accept_payload payload

  -- The end of the `JOIN_ROOM` case
  unfoldable pub greet : Text → Text → ℕ → Action SellerState (Unit {0})
  greet session product n = do
    on_channel (emit env seller room_joined (codes "ROOM_JOINED") none)
    on_channel (connect_relay env seller session product n)

  -- The `JOIN_ROOM` case
  unfoldable pub join : Text → Text → Action SellerState (Unit {0})
  join session product = do
    n ← on_channel draw
    modify (λ s. record s {
      channel = enter_room env seller session product n s.channel;
      seller_min_price = none;
      peer_ready = false;
      last_sent_offer = none;
      chain_contract_address = none;
      pending_contract_address = none;
      chain_state = none;
      chain_join_started = false;
      seller_key_sent = false;
      agreed_price = none;
      session_record = none;
    })
    greet session product n

  abbrev private_state_of : ℕ → ℕ → ℕ → SellerPrivateState
  private_state_of limit n m = record {
    seller_secret_key = env.random_bytes m;
    seller_min_price = limit;
    seller_limit_randomness = env.random_bytes n;
    price_opening = none;
  }

  abbrev pub join_in : Bool → Action SellerState (Unit {0})
  join_in false = done
  join_in true = reporting (codes "CHAIN_OPERATION_FAILED") (try_join_on_chain env)

  -- The `SET_LIMIT` case
  unfoldable pub lock_limit : Text → Text → Action SellerState (Unit {0})
  lock_limit session limit_krw = do
    s ← get
    ensure (same_text s.channel.session_id session && is_given s.channel.product_code)
        not_configured
    ensure (not (is_given s.chain_state)) limit_locked_already
    n ← on_channel draw
    m ← on_channel draw
    modify (λ t. record t {
      seller_min_price = some (value limit_krw);
      chain_state = some (private_state_of (value limit_krw) n m);
    })
    reporting (codes "CHAIN_OPERATION_FAILED") (flush_seller_key env)
    on_channel (emit env seller limit_locked (codes "SELLER_LIMIT_LOCKED") none)
    on_channel (emit env seller commitment_created (codes "SELLER_COMMITMENT_CREATED") none)
    on_channel (emit env seller commitment_created (codes "DEAL_JOINED") none)
    on_channel (
        emit env seller waiting_peer (codes "WAITING_BUYER_COMMITMENT")
          (some (codes "seller-peer-commitment")))
    join_in env.chain_mode

  -- The `START_RUNTIME` case
  unfoldable pub start : Action SellerState (Unit {0})
  start = do
    s ← get
    ensure (is_given s.seller_min_price && is_given s.channel.shared_key && s.peer_ready)
        cannot_start

  abbrev pub say_stopped : Option Text → Action SellerState (Unit {0})
  say_stopped none = done
  say_stopped (some session) = on_channel (emit env seller stopped (codes "RUNTIME_STOPPED") none)

  -- The `SHUTDOWN_RUNTIME` case, without the end of the process.
  unfoldable pub shut_down : Action SellerState (Unit {0})
  shut_down = do
    s ← get
    say_stopped s.channel.session_id
    modify (λ t. record t {
      channel = leave_room env seller t.channel;
      seller_min_price = none;
      peer_ready = false;
      last_sent_offer = none;
      chain_contract_address = none;
      pending_contract_address = none;
      chain_state = none;
      chain_join_started = false;
      seller_key_sent = false;
      agreed_price = none;
      session_record = none;
    })
