-- ===== src/Protocol/Types.antt =====
-- packages/protocol/src/index.ts: the commands, messages and events between the processes. A value of
-- these types has exactly the keys, and values of the types, that the parsers test for.
use midnight_private_negotia.Common.{
  ℕ, Bool, true, false, ◌&&◌, ◌||◌, Option, [], ◌∷◌, leb, ◌==◌, length, all, Text, is_digit,
  is_numeral, is_identifier_up_to, value,
}
use midnight_private_negotia.Agent.Types.{PartyRole, role_eq}
use midnight_private_negotia.Contract.Circuits.{DealStatus}

pub data Role : Type 0 where
  party : PartyRole → Role
  observer : Role

abbrev pub same_role : Role → Role → Bool
same_role (party a) (party b) = role_eq a b
same_role observer observer = true
same_role _ _ = false

-- `demoStates`
pub data DemoState : Type 0 where
  room_joined peer_joined limit_locked waiting_peer peer_ready_state commitment_created : DemoState
  peer_commitment_registered open_state negotiating negotiation_complete verifying : DemoState
  finalizing proofs_complete agreed_state authorized_state settled_state : DemoState
  cancelled_state error_state stopped : DemoState

pub data EventAudience : Type 0 where
  role_local participants public : EventAudience

pub record DemoEvent : Type 0 where
  pub event_id : Text
  pub occurred_at : Text
  pub panel : Role
  pub session_id : Text
  pub state : DemoState
  pub message_code : Text
  pub audience : EventAudience
  pub product_code : Option Text
  pub correlation_id : Option Text
  pub replace_key : Option Text
  pub agreed_amount : Option Text

-- `RuntimeCommand`, each with its request and its target; a public state is a deal's status.
pub data CommandBody : Type 0 where
  join_room : (session_id product_code : Text) → CommandBody
  set_limit : (session_id limit_krw : Text) → CommandBody
  configure_observer : (session_id product_code : Text) → CommandBody
  start_runtime : CommandBody
  peer_ready : (session_id : Text) → CommandBody
  chain_funded : CommandBody
  observe_chain_state : (session_id contract_address : Text) → DealStatus → CommandBody
  publish_public_state :
      (session_id : Text) → DealStatus → (message_code occurred_at : Text) → CommandBody
  finalize_session : (session_id : Text) → CommandBody
  shutdown_runtime : CommandBody

pub record RuntimeCommand : Type 0 where
  pub request_id : Text
  pub target : Role
  pub body : CommandBody

-- `NegotiationOutcomeMessage`
pub data Outcome : Type 0 where
  settled_at : (agreed_amount : Text) → Outcome
  cancelled_deal : Outcome

pub data RuntimeMessage : Type 0 where
  runtime_ready : Role → (pid : ℕ) → RuntimeMessage
  runtime_boot_failed : PartyRole → (reason : Text) → RuntimeMessage
  demo_event : DemoEvent → RuntimeMessage
  relay_channel_ready : PartyRole → (session_id : Text) → RuntimeMessage
  chain_wallet_ready : PartyRole → (wallet_address : Text) → RuntimeMessage
  chain_tx_confirmed :
      PartyRole → (session_id contract_address : Text) → DealStatus → RuntimeMessage
  negotiation_outcome : (session_id : Text) → Outcome → RuntimeMessage

-- `isIdentifier`
abbrev pub is_identifier : Text → Bool
is_identifier s = is_identifier_up_to 64 s

-- `isKrwAmount`
abbrev pub is_krw_amount : Text → Bool
is_krw_amount s = is_numeral 18 s && leb (value s) 18_446_744_073_709_551_615

abbrev is_upper : ℕ → Bool
is_upper c = leb b'A' c && leb c b'Z'

abbrev is_code_char : ℕ → Bool
is_code_char c = is_upper c || is_digit c || c == b'_'

-- `isMessageCode`
abbrev pub is_message_code : Text → Bool
is_message_code [] = false
is_message_code (c ∷ s) = is_upper c && all is_code_char s && leb 1 (length s) && leb (length s) 63

abbrev is_address_char : ℕ → Bool
is_address_char c = is_digit c || (leb b'a' c && leb c b'z') || c == b'_'

-- `isChainAddress`
abbrev pub is_chain_address : Text → Bool
is_chain_address s = leb 16 (length s) && leb (length s) 256 && all is_address_char s
