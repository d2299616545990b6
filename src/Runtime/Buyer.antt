-- ===== src/Runtime/Buyer.antt =====
-- packages/buyer-runtime/src/index.ts: the buyer's process, its state and its handlers. What runs
-- after an `await` or a timer is a task, which an event resumes with the answer it waited for.
pub mod Chain
pub mod Negotiation
pub mod Handlers
pub mod Run
pub mod Limits
pub mod Rounds
pub mod Replies
pub mod Commands
pub mod Safety
pub mod Replayed
use midnight_private_negotia.Runtime.Alike.{SentOffer}
use midnight_private_negotia.Runtime.Alike.{SentOffer}
use midnight_private_negotia.Common.{
  ℕ, suc, ◌+◌, ℤ, pos, ◌≡◌, refl, Bool, true, false, not, ◌&&◌, ◌||◌, Option, none, some, List, [],
  ◌∷◌, ◌++◌, arith, leb, ltb, ◌==◌, Text, codes, text_eq, value, Result, ok, err, Value,
  if◌then◌else◌,
}
use midnight_private_negotia.Agent.Types.{
  PartyRole, buyer, seller, PublicOffer, PublicContext, offer, accept, Candidate, LocalPolicy,
  buyer_policy, AgentError,
}
use midnight_private_negotia.Agent.Offset.{OffsetInput, derive_session_price_offset}
use midnight_private_negotia.Agent.Provider.{CandidateProvider}
use midnight_private_negotia.Agent.Generate.{
  generate_allowed_candidate, generate_local_fallback_candidate,
}
use midnight_private_negotia.Contract.Circuits.{
  Bytes, DealStatus, waiting_seller, authorized, cancelled,
}
use midnight_private_negotia.Contract.Witnesses.{BuyerPrivateState}
use midnight_private_negotia.Evidence.Store.{SessionRecord}
use midnight_private_negotia.Evidence.Verify.{to_hex}
use midnight_private_negotia.Evidence.Finalize.{
  FinalizeOutcome, settled_evidence_saved, cancelled_cleaned, already_cleaned, kept, KeepReason,
  evidence_rejected,
}
use midnight_private_negotia.Relay.Server.{RelayPacket}
use midnight_private_negotia.Protocol.Types.{
  party, same_role, DemoState, room_joined, limit_locked, waiting_peer, commitment_created,
  settled_state, cancelled_state, error_state, stopped, RuntimeCommand, CommandBody, join_room,
  set_limit, configure_observer, start_runtime, peer_ready, chain_funded, observe_chain_state,
  publish_public_state, finalize_session, shutdown_runtime, Outcome, settled_at, cancelled_deal,
  RuntimeMessage, chain_tx_confirmed, negotiation_outcome,
}
use midnight_private_negotia.Runtime.Action.{
  RuntimeError, not_configured, no_channel, wrong_room, forbidden_payload, conflicting_key,
  invalid_payload, unknown_offer, not_ready, limit_locked_already, no_limit, cannot_start,
  wrong_target, observer_command, not_finalizable, chain_failed, no_such_task, Action, ◌>>=◌, ◌>>◌,
  done, throw, lifted, modify, get, required, ensure, attempt,
}
use midnight_private_negotia.Runtime.Payload.{
  NegotiationPayload, proposal, accepts, declines, contract_ready, price_opening, seller_key,
  max_rounds, buyer_payload,
}
use midnight_private_negotia.Runtime.Channel.{
  Environment, Channel, new_channel, post, draw, same_text, closed, emit, report, relay, agree_key,
  opened_packet, enter_room, connect_relay, leave_room,
}

-- What waits for an answer of the provider, of the chain or of the disk, or for the starting timer.
pub data BuyerTask : Type 0 where
  begins : BuyerTask
  generates : PublicContext → (maximum : ℕ) → (price_offset : ℤ) → BuyerTask
  deploys : (session_id : Text) → BuyerTask
  authorizes : (agreed_amount : Text) → BuyerTask
  cancels : BuyerTask
  finalizes : BuyerTask

-- The answers; a task reads the one it waits for. `none` and `false` stand for an exception.
pub record Answer : Type 0 where
  pub provider : CandidateProvider
  pub deployed : Option (Text × SessionRecord)
  pub confirmed : Bool
  pub outcome : Option FinalizeOutcome

-- `chain_contract_address` stands for `chainContract` and `chainProviders` too, which are set with it.
pub record BuyerState : Type 0 where
  pub channel : Channel
  pub buyer_max_price : Option ℕ
  pub chain_state : Option BuyerPrivateState
  pub chain_deal_id : Option Bytes
  pub chain_contract_address : Option Text
  pub chain_contract_ready_pending : Bool
  pub chain_deploy_started : Bool
  pub peer_seller_key : Option Text
  pub role_storage : Bool
  pub session_record : Option SessionRecord
  pub peer_ready : Bool
  pub negotiation_started : Bool
  pub negotiation_finished : Bool
  pub last_sent_offer : Option SentOffer
  pub tasks : List BuyerTask

unfoldable pub new_buyer : BuyerState
unfolding new_channel
new_buyer = record {
  channel = new_channel;
  buyer_max_price = none;
  chain_state = none;
  chain_deal_id = none;
  chain_contract_address = none;
  chain_contract_ready_pending = false;
  chain_deploy_started = false;
  peer_seller_key = none;
  role_storage = false;
  session_record = none;
  peer_ready = false;
  negotiation_started = false;
  negotiation_finished = false;
  last_sent_offer = none;
  tasks = [];
}

abbrev pub with_channel : BuyerState → Channel → BuyerState
with_channel s c = record s { channel = c }

abbrev pub onto :
    {A : Type 0} → BuyerState → Result RuntimeError A × Channel → Result RuntimeError A × BuyerState
onto s (r, c) = (r, with_channel s c)

unfoldable pub on_channel : {A : Type 0} → Action Channel A → Action BuyerState A
on_channel m s = onto s (m s.channel)

unfoldable pub await : BuyerTask → Action BuyerState (Unit {0})
await task = modify (λ s. record s { tasks = task ∷ s.tasks })

abbrev pub same_round : Option SentOffer → ℕ → Bool
same_round none round = false
same_round (some sent) round = sent.round == round
