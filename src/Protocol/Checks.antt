-- ===== src/Protocol/Checks.antt =====
-- packages/protocol/src/index.ts: the tests that `parseRuntimeCommand` and `parseRuntimeMessage`
-- make of the fields of a command and of a message whose fields have their types.
use midnight_private_negotia.Common.{Bool, true, false, ◌&&◌, [], ◌∷◌, Text, is_product_code, ltb}
use midnight_private_negotia.Contract.Circuits.{DealStatus, waiting_seller}
use midnight_private_negotia.Protocol.Types.{
  Role, party, observer, RuntimeCommand, CommandBody, join_room, set_limit, configure_observer,
  start_runtime, peer_ready, chain_funded, observe_chain_state, publish_public_state,
  finalize_session, shutdown_runtime, Outcome, settled_at, cancelled_deal, RuntimeMessage,
  runtime_ready, runtime_boot_failed, demo_event, relay_channel_ready, chain_wallet_ready,
  chain_tx_confirmed, negotiation_outcome, is_identifier, is_krw_amount, is_message_code,
  is_chain_address,
}
use midnight_private_negotia.Protocol.Events.{is_observer}

abbrev is_party : Role → Bool
is_party (party p) = true
is_party observer = false

abbrev is_public_status : DealStatus → Bool
is_public_status waiting_seller = false
is_public_status _ = true

module _ (is_date : Text → Bool) where
  abbrev is_body_for : Role → CommandBody → Bool
  is_body_for target (join_room session product) =
      is_party target && is_identifier session && is_product_code product
  is_body_for target (set_limit session limit_krw) =
      is_party target && is_identifier session && is_krw_amount limit_krw
  is_body_for target (configure_observer session product) =
      is_observer target && is_identifier session && is_product_code product
  is_body_for target start_runtime = true
  is_body_for target (peer_ready session) = is_party target && is_identifier session
  is_body_for target chain_funded = is_party target
  is_body_for target (observe_chain_state session address status) =
      is_observer target
      && is_identifier session
      && is_chain_address address
      && is_public_status status
  is_body_for target (publish_public_state session status code time) =
      is_observer target
      && is_identifier session
      && is_public_status status
      && is_message_code code
      && is_date time
  is_body_for target (finalize_session session) = is_party target && is_identifier session
  is_body_for target shutdown_runtime = true

  -- `parseRuntimeCommand` without an expected role
  unfoldable pub is_command : RuntimeCommand → Bool
  is_command command = is_identifier command.request_id && is_body_for command.target command.body

  abbrev is_filled : Text → Bool
  is_filled [] = false
  is_filled (c ∷ s) = true

  abbrev is_outcome : Outcome → Bool
  is_outcome (settled_at amount) = is_krw_amount amount
  is_outcome cancelled_deal = true

  -- `parseRuntimeMessage`, but for an event, which `parseDemoEvent` tests.
  unfoldable pub is_message : RuntimeMessage → Bool
  is_message (runtime_ready role pid) = ltb 0 pid && ltb pid 9_007_199_254_740_992
  is_message (runtime_boot_failed role reason) = is_filled reason
  is_message (demo_event event) = true
  is_message (relay_channel_ready role session) = is_identifier session
  is_message (chain_wallet_ready role address) = is_chain_address address
  is_message (chain_tx_confirmed role session address status) =
      is_identifier session && is_chain_address address
  is_message (negotiation_outcome session result) = is_identifier session && is_outcome result
