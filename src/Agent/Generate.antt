-- ===== src/Agent/Generate.antt =====
-- packages/agent-core/src/index.ts: the choice of the next candidate, from a provider or from the
-- local fallback, in the coordinates that the private offset shifts.
pub mod Safety
pub mod Fallback
use midnight_private_negotia.Common.{
  ℕ, zero, suc, ℤ, Bool, true, false, not, ◌&&◌, ◌||◌, Option, none, some, leb, ltb, if◌then◌else◌,
  List, [], ◌∷◌, Text, print, Result, ok, err, guard, or_else, ◌>>=◌, ◌>>◌,
}
use midnight_private_negotia.Agent.Types.{
  PartyRole, buyer, seller, role_eq, PublicOffer, PublicContext, Action, offer, accept, Candidate,
  LocalPolicy, policy_role, AgentError, invalid_request_limit,
}
use midnight_private_negotia.Agent.Ladder.{max_negotiation_rounds, public_ladder_price}
use midnight_private_negotia.Agent.Policy.{
  validate_public_context, strategy_allows, next_offer_round,
}
use midnight_private_negotia.Agent.Provider.{CandidateProvider, validate_candidates}
use midnight_private_negotia.Agent.Offset.{normalize_private_prices, restore_private_price}

-- `candidates.find((candidate) => strategyAllows(…))`
unfoldable pub find_allowed :
    LocalPolicy → PublicContext → List Candidate → Result AgentError (Option Candidate)
find_allowed policy context [] = ok none
find_allowed policy context (c ∷ cs) = do
  allowed ← strategy_allows policy context c
  elim allowed [ true ↦ ok (some c) | false ↦ find_allowed policy context cs ]

-- The body of the `try` of one request, and its `catch`, which discards the failure.
unfoldable pub request_candidate :
    CandidateProvider → LocalPolicy → PublicContext → ℕ → Option Candidate
unfolding find_allowed
request_candidate provider policy context request =
    or_else
      (do
        answer ← provider request context
        candidates ← validate_candidates answer
        find_allowed policy context candidates)
      none

-- The loop over the requests that are left.
unfoldable pub request_loop :
    CandidateProvider → LocalPolicy → PublicContext → ℕ → ℕ → Option Candidate
request_loop provider policy context request zero = none
request_loop provider policy context request (suc left) =
    elim (request_candidate provider policy context request) [
      | some candidate ↦ some candidate
      | none ↦ request_loop provider policy context (suc request) left
    ]

abbrev pub requests_or_default : Option ℕ → ℕ
requests_or_default none = 3
requests_or_default (some n) = n

-- `generateAllowedCandidate` without an offset.
unfoldable pub generate_normalized :
    CandidateProvider
    → Option ℕ
    → PublicContext
    → LocalPolicy
    → Result AgentError (Option Candidate)
unfolding request_loop
generate_normalized provider max_requests raw_context policy = do
  context ← validate_public_context raw_context
  let limit = requests_or_default max_requests
  guard (leb 1 limit && leb limit 3) invalid_request_limit
  ok (request_loop provider policy context 0 limit)

-- `generateAllowedCandidate` with an offset: in normalized coordinates, and back.
unfoldable pub generate_allowed_candidate :
    CandidateProvider
    → Option ℕ
    → PublicContext
    → LocalPolicy
    → ℤ
    → Result AgentError (Option Candidate)
generate_allowed_candidate provider max_requests context policy price_offset = do
  normalized ← normalize_private_prices context policy price_offset
  elim normalized [
    | none ↦ ok none
    | some (shifted, shifted_policy) ↦ do
      candidate ← generate_normalized provider max_requests shifted shifted_policy
      restore_private_price candidate context policy price_offset
  ]

abbrev offer_at : PublicContext → LocalPolicy → Option ℕ → Result AgentError (Option Candidate)
offer_at context policy none = ok none
offer_at context policy (some price) = do
  let counter : Candidate = record { action = offer; price = print price }
  allowed ← strategy_allows policy context counter
  ok (if allowed then some counter else none)

abbrev pub ladder_at : PartyRole → ℕ → Option Text → Option ℕ
ladder_at role round none = none
ladder_at role round (some reference_price) =
    if ltb max_negotiation_rounds round
    then none
    else public_ladder_price role reference_price round

-- The part of the fallback after the acceptance was ruled out.
unfoldable pub fallback_offer : PublicContext → LocalPolicy → Result AgentError (Option Candidate)
unfolding next_offer_round
fallback_offer context policy =
    offer_at context policy
      (ladder_at context.role (next_offer_round context) context.public_reference_price)

abbrev fallback_at :
    PublicContext
    → LocalPolicy
    → Option PublicOffer
    → PartyRole
    → Result AgentError (Option Candidate)
fallback_at context policy none seller = ok none
fallback_at context policy none buyer = fallback_offer context policy
fallback_at context policy (some o) role = do
  let acceptance : Candidate = record { action = accept; price = o.price }
  allowed ← strategy_allows policy context acceptance
  if allowed then ok (some acceptance) else fallback_offer context policy

-- `generateLocalFallbackCandidate` without an offset.
unfoldable pub fallback_normalized :
    PublicContext → LocalPolicy → Result AgentError (Option Candidate)
unfolding fallback_offer
fallback_normalized raw_context policy = do
  context ← validate_public_context raw_context
  elim (role_eq context.role (policy_role policy)) [
    | true ↦ fallback_at context policy context.current_offer (policy_role policy)
    | false ↦ ok none
  ]

-- `generateLocalFallbackCandidate` with an offset.
unfoldable pub generate_local_fallback_candidate :
    PublicContext → LocalPolicy → ℤ → Result AgentError (Option Candidate)
unfolding fallback_normalized
generate_local_fallback_candidate context policy price_offset = do
  normalized ← normalize_private_prices context policy price_offset
  elim normalized [
    | none ↦ ok none
    | some (shifted, shifted_policy) ↦ do
      candidate ← fallback_normalized shifted shifted_policy
      restore_private_price candidate context policy price_offset
  ]
