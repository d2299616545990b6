-- ===== src/Agent/Types.antt =====
-- packages/agent-core/src/index.ts: the types of the negotiation, and the roles of
-- packages/protocol/src/index.ts. A value of these record types has exactly the keys that
-- `isRecord` and `hasExactKeys` test for; a `round` is a natural number.
use midnight_private_negotia.Common.{ℕ, ℤ, Text, Bool, true, false, Option}

pub data PartyRole : Type 0 where
  buyer seller : PartyRole

abbrev pub role_eq : PartyRole → PartyRole → Bool
role_eq buyer buyer = true
role_eq buyer seller = false
role_eq seller buyer = false
role_eq seller seller = true

pub record PublicOffer : Type 0 where
  pub maker : PartyRole
  pub price : Text

pub record PublicContext : Type 0 where
  pub role : PartyRole
  pub product_code : Text
  pub round : ℕ
  pub public_reference_price : Option Text
  pub current_offer : Option PublicOffer

pub data Action : Type 0 where
  offer accept : Action

pub record Candidate : Type 0 where
  pub action : Action
  pub price : Text

-- The private limit of a role: the buyer's maximum or the seller's minimum.
pub data LocalPolicy : Type 0 where
  buyer_policy : (maximum_price : ℤ) → LocalPolicy
  seller_policy : (minimum_price : ℤ) → LocalPolicy

abbrev pub policy_role : LocalPolicy → PartyRole
policy_role (buyer_policy m) = buyer
policy_role (seller_policy m) = seller

-- What the functions of the module throw.
pub data AgentError : Type 0 where
  invalid_context invalid_reference_price invalid_offer : AgentError
  invalid_candidate_count invalid_candidate : AgentError
  invalid_request_limit invalid_session_context : AgentError
  no_opening_offer no_public_candidate provider_failed : AgentError
