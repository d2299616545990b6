-- ===== src/Runtime/Seller/Chain.antt =====
-- packages/seller-runtime/src/index.ts: the seller's calls of the chain, before and after each
-- `await`.
use midnight_private_negotia.Runtime.Alike.{is_given, kept_code}
use midnight_private_negotia.Common.{Bool, true, false, not, ◌&&◌, Option, none, some, Text, codes}
use midnight_private_negotia.Agent.Types.{seller}
use midnight_private_negotia.Contract.Circuits.{DealStatus, opened}
use midnight_private_negotia.Evidence.Store.{SessionRecord}
use midnight_private_negotia.Evidence.Finalize.{
  FinalizeOutcome, settled_evidence_saved, cancelled_cleaned, already_cleaned, kept,
}
use midnight_private_negotia.Protocol.Types.{
  settled_state, cancelled_state, error_state, chain_tx_confirmed,
}
use midnight_private_negotia.Runtime.Action.{
  not_configured, not_finalizable, chain_failed, Action, ◌>>=◌, ◌>>◌, done, modify, get, required,
  ensure,
}
use midnight_private_negotia.Runtime.Payload.{seller_key}
use midnight_private_negotia.Runtime.Channel.{Environment, post, same_text, emit, relay}
use midnight_private_negotia.Runtime.Seller.{
  SellerTask, sends_key, attaches, joins_deal, settles, finalizes, SellerState, on_channel, await,
}

-- `forgetSessionSecrets`
unfoldable pub forget_session_secrets : Action SellerState (Unit {0})
forget_session_secrets = modify (λ s. record s {
  channel = record (s.channel) { private_key = none; shared_key = none; relay_client = none };
  seller_min_price = none;
  chain_state = none;
  agreed_price = none;
  last_sent_offer = none;
  session_record = none;
})

module _ (env : Environment) where
  abbrev pub send_chain_state : DealStatus → Action SellerState (Unit {0})
  send_chain_state state = do
    s ← get
    session ← required s.channel.session_id not_configured
    address ← required s.chain_contract_address not_configured
    on_channel (post (chain_tx_confirmed seller session address state))

  abbrev pub send_key_when : Bool → Action SellerState (Unit {0})
  send_key_when false = done
  send_key_when true = do modify (λ s. record s { seller_key_sent = true }); await sends_key

  -- `flushSellerKey` up to its `await`
  unfoldable pub flush_seller_key : Action SellerState (Unit {0})
  flush_seller_key = do
    s ← get
    send_key_when (
        env.chain_mode
        && not s.seller_key_sent
        && is_given s.chain_state
        && is_given s.channel.shared_key
        && is_given s.channel.relay_client)

  -- `flushSellerKey` after it
  abbrev pub flushed_seller_key : Action SellerState (Unit {0})
  flushed_seller_key = do
    s ← get
    private ← required s.chain_state chain_failed
    on_channel (relay env seller (seller_key (env.public_key_hex private.seller_secret_key)))

  abbrev pub can_join : SellerState → Bool
  can_join s =
      env.chain_mode
      && not s.chain_join_started
      && is_given s.chain_state
      && not (is_given s.chain_contract_address)

  abbrev pub join_for : Bool → Option Text → Option Text → Action SellerState (Unit {0})
  join_for true (some session) (some address) = do
    modify (λ s. record s { chain_join_started = true })
    await (attaches session address)
  join_for _ _ _ = done

  -- `tryJoinOnChain` up to its first `await`
  unfoldable pub try_join_on_chain : Action SellerState (Unit {0})
  try_join_on_chain = do
    s ← get
    join_for (can_join s) s.channel.session_id s.pending_contract_address

  abbrev pub await_when : Bool → SellerTask → Action SellerState (Unit {0})
  await_when false task = done
  await_when true task = await task

  -- `tryJoinOnChain` with the contract attached, up to `joinDeal`
  abbrev pub attached_on_chain : Text → Text → SessionRecord → Action SellerState (Unit {0})
  attached_on_chain session address r = do
    s ← get
    await_when (same_text s.channel.session_id session) (joins_deal session address r)

  abbrev pub joined_when : Bool → Text → SessionRecord → Action SellerState (Unit {0})
  joined_when false address r = done
  joined_when true address r = do
    modify (λ s. record s { session_record = some r; chain_contract_address = some address })
    send_chain_state opened

  -- `tryJoinOnChain` after `joinDeal`
  abbrev pub joined_on_chain : Text → Text → SessionRecord → Action SellerState (Unit {0})
  joined_on_chain session address r = do
    s ← get
    joined_when (same_text s.channel.session_id session) address r

  -- `settleOnChain` and `cancelOnChain` up to their first `await`
  abbrev pub settle_on_chain : Text → Text → Action SellerState (Unit {0})
  settle_on_chain price randomness = do
    s ← get
    await_when (env.chain_mode && is_given s.chain_contract_address) (settles price randomness)

  abbrev pub cancel_on_chain : SellerTask → Action SellerState (Unit {0})
  cancel_on_chain task = do
    s ← get
    await_when (env.chain_mode && is_given s.chain_contract_address) task

  -- `settleOnChain` and `cancelOnChain` after it
  abbrev pub confirmed_on_chain : DealStatus → Bool → Action SellerState (Unit {0})
  confirmed_on_chain state confirmed = do ensure confirmed chain_failed; send_chain_state state

  -- `finalizeOnChain` up to its first `await`
  unfoldable pub finalize_on_chain : Action SellerState (Unit {0})
  finalize_on_chain = do
    s ← get
    ensure (env.chain_mode && s.role_storage && is_given s.session_record) not_finalizable
    await finalizes

  -- `finalizeOnChain` with the outcome
  unfoldable pub finalized_on_chain : FinalizeOutcome → Action SellerState (Unit {0})
  finalized_on_chain (settled_evidence_saved path) = do
    on_channel (emit env seller settled_state (codes "SETTLEMENT_VERIFIED") none)
    on_channel (emit env seller settled_state (codes "EVIDENCE_SAVED") none)
    on_channel (emit env seller settled_state (codes "SESSION_CLEANED") none)
    forget_session_secrets
  finalized_on_chain cancelled_cleaned = do
    on_channel (emit env seller cancelled_state (codes "SESSION_CLEANED") none)
    forget_session_secrets
  finalized_on_chain already_cleaned = done
  finalized_on_chain (kept reason) =
      on_channel (emit env seller error_state (kept_code reason) none)
