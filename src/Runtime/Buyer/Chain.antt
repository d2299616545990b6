-- ===== src/Runtime/Buyer/Chain.antt =====
-- packages/buyer-runtime/src/index.ts: the buyer's calls of the chain, before and after each `await`,
-- and the outcome, which it publishes once.
use midnight_private_negotia.Runtime.Alike.{is_given, kept_code}
use midnight_private_negotia.Common.{
  ℕ, Bool, true, false, not, ◌&&◌, Option, none, some, List, ◌∷◌, Text, codes, value,
}
use midnight_private_negotia.Agent.Types.{buyer}
use midnight_private_negotia.Contract.Circuits.{DealStatus, waiting_seller, authorized, cancelled}
use midnight_private_negotia.Contract.Witnesses.{BuyerPrivateState}
use midnight_private_negotia.Evidence.Store.{SessionRecord}
use midnight_private_negotia.Evidence.Verify.{to_hex}
use midnight_private_negotia.Evidence.Finalize.{
  FinalizeOutcome, settled_evidence_saved, cancelled_cleaned, already_cleaned, kept,
}
use midnight_private_negotia.Protocol.Types.{
  settled_state, cancelled_state, error_state, Outcome, settled_at, cancelled_deal,
  chain_tx_confirmed, negotiation_outcome,
}
use midnight_private_negotia.Runtime.Action.{
  not_configured, not_finalizable, chain_failed, Action, ◌>>=◌, ◌>>◌, done, modify, get, required,
  ensure,
}
use midnight_private_negotia.Runtime.Payload.{contract_ready, price_opening}
use midnight_private_negotia.Runtime.Channel.{Environment, post, same_text, emit, relay}
use midnight_private_negotia.Runtime.Buyer.{
  BuyerTask, deploys, authorizes, cancels, finalizes, BuyerState, on_channel, await,
}

-- `forgetSessionSecrets`
unfoldable pub forget_session_secrets : Action BuyerState (Unit {0})
forget_session_secrets = modify (λ s. record s {
  channel = record (s.channel) { private_key = none; shared_key = none; relay_client = none };
  buyer_max_price = none;
  chain_state = none;
  last_sent_offer = none;
  peer_seller_key = none;
  session_record = none;
})

module _ (env : Environment) where
  abbrev pub send_chain_state : DealStatus → Action BuyerState (Unit {0})
  send_chain_state state = do
    s ← get
    session ← required s.channel.session_id not_configured
    address ← required s.chain_contract_address not_configured
    on_channel (post (chain_tx_confirmed buyer session address state))

  abbrev pub flush_to : Bool → Option Text → Option (List ℕ) → Action BuyerState (Unit {0})
  flush_to true (some address) (some shared) = do
    on_channel (relay env buyer (contract_ready address))
    modify (λ s. record s { chain_contract_ready_pending = false })
  flush_to _ _ _ = done

  -- `flushContractReady`
  unfoldable pub flush_contract_ready : Action BuyerState (Unit {0})
  flush_contract_ready = do
    s ← get
    flush_to (s.chain_contract_ready_pending && is_given s.channel.relay_client)
        s.chain_contract_address s.channel.shared_key

  abbrev can_deploy : BuyerState → Bool
  can_deploy s =
      env.chain_mode
      && not s.chain_deploy_started
      && is_given s.chain_state
      && is_given s.peer_seller_key
      && is_given s.chain_deal_id

  abbrev pub deploy_for_session : Bool → Option Text → Action BuyerState (Unit {0})
  deploy_for_session true (some session) = do
    modify (λ s. record s { chain_deploy_started = true })
    await (deploys session)
  deploy_for_session _ _ = done

  -- `deployOnChain` up to its first `await`
  unfoldable pub deploy_on_chain : Action BuyerState (Unit {0})
  deploy_on_chain = do s ← get; deploy_for_session (can_deploy s) s.channel.session_id

  abbrev pub deployed_when : Bool → Text → SessionRecord → Action BuyerState (Unit {0})
  deployed_when false address session_record = done
  deployed_when true address session_record = do
    modify (λ t. record t {
      session_record = some session_record;
      chain_contract_address = some address;
    })
    send_chain_state waiting_seller
    modify (λ t. record t { chain_contract_ready_pending = true })
    flush_contract_ready

  -- `deployOnChain` with the deployed contract's address and its session record
  abbrev pub deployed_on_chain : Text → Text × SessionRecord → Action BuyerState (Unit {0})
  deployed_on_chain session (address, session_record) = do
    s ← get
    deployed_when (same_text s.channel.session_id session) address session_record

  abbrev pub await_when : Bool → BuyerTask → Action BuyerState (Unit {0})
  await_when false task = done
  await_when true task = await task

  -- `authorizeOnChain` and `cancelOnChain` up to their first `await`
  abbrev pub authorize_on_chain : Text → Action BuyerState (Unit {0})
  authorize_on_chain amount = do
    s ← get
    await_when (env.chain_mode && is_given s.chain_contract_address && is_given s.chain_state)
        (authorizes amount)

  abbrev pub cancel_on_chain : Action BuyerState (Unit {0})
  cancel_on_chain = do
    s ← get
    await_when (env.chain_mode && is_given s.chain_contract_address) cancels

  abbrev agreed_state_of : Text → BuyerPrivateState → BuyerPrivateState
  agreed_state_of amount b = record b { agreed_price = value amount }

  -- `authorizeOnChain` after it. A state that was forgotten meanwhile makes its call fail; the source
  -- then holds a state with the agreed price alone, and the model none.
  abbrev pub authorized_on_chain : Text → Bool → Action BuyerState (Unit {0})
  authorized_on_chain amount confirmed = do
    s ← get
    address ← required s.chain_contract_address chain_failed
    private ← required s.chain_state chain_failed
    modify (λ t. record t { chain_state = some (agreed_state_of amount private) })
    ensure confirmed chain_failed
    send_chain_state authorized
    on_channel (relay env buyer (price_opening amount (to_hex private.price_randomness)))

  -- `cancelOnChain` after it
  abbrev pub cancelled_on_chain : Bool → Action BuyerState (Unit {0})
  cancelled_on_chain confirmed = do ensure confirmed chain_failed; send_chain_state cancelled

  abbrev pub follow_up : Outcome → Action BuyerState (Unit {0})
  follow_up (settled_at amount) = authorize_on_chain amount
  follow_up cancelled_deal = cancel_on_chain

  -- The outcome is told to the controller once: the two steps of `publishOutcome` that tell it.
  unfoldable pub tell_outcome : Text → Outcome → Action BuyerState (Unit {0})
  tell_outcome session result = modify (λ s. record s {
    negotiation_finished = true;
    channel = record (s.channel) { outbox = negotiation_outcome session result ∷ s.channel.outbox };
  })

  abbrev pub outcome_once : Bool → Option Text → Outcome → Action BuyerState (Unit {0})
  outcome_once false (some session) result = do tell_outcome session result; follow_up result
  outcome_once _ _ result = done

  -- `publishOutcome`
  unfoldable pub publish_outcome : Outcome → Action BuyerState (Unit {0})
  publish_outcome result = do
    s ← get
    outcome_once s.negotiation_finished s.channel.session_id result

  -- `finalizeOnChain` up to its first `await`
  unfoldable pub finalize_on_chain : Action BuyerState (Unit {0})
  finalize_on_chain = do
    s ← get
    ensure (env.chain_mode && s.role_storage && is_given s.session_record) not_finalizable
    await finalizes

  -- `finalizeOnChain` with the outcome
  unfoldable pub finalized_on_chain : FinalizeOutcome → Action BuyerState (Unit {0})
  unfolding forget_session_secrets
  finalized_on_chain (settled_evidence_saved path) = do
    on_channel (emit env buyer settled_state (codes "SETTLEMENT_VERIFIED") none)
    on_channel (emit env buyer settled_state (codes "EVIDENCE_SAVED") none)
    on_channel (emit env buyer settled_state (codes "SESSION_CLEANED") none)
    forget_session_secrets
  finalized_on_chain cancelled_cleaned = do
    on_channel (emit env buyer cancelled_state (codes "SESSION_CLEANED") none)
    forget_session_secrets
  finalized_on_chain already_cleaned = done
  finalized_on_chain (kept reason) = on_channel (emit env buyer error_state (kept_code reason) none)
